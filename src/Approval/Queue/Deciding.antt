-- ===== src/Approval/Queue/Deciding.antt =====
-- Deciding, and the unlock of the vault, approve only calls that are given to them.
use codex_hosts.Prelude.{
  ℕ, ◌+◌, ◌≡◌, ap, inl, inr, ◌⊎◌, Bool, true, false, not, ◌&&◌, Option, none, some, List, Text,
  is_empty, any, arith, All, max, All-map, if-case,
}
use codex_hosts.Model.{Uuid}
use codex_hosts.Approval.Queue.{
  cancelled, Pending, Batch, Unlock, idle, requested, running, Queue, arm, is_busy, expire,
  pending_ids, start_batch, add_ids, rearm, include_new, active, is_open, needs_unlock, verdict,
  settle, decide, allow, take_unlock, handed_over, without_detail, finished, is_within,
  finish_unlock,
}
use codex_hosts.Approval.Queue.Consent.{In, Covered, held, IsCovered, In-All, expire-IsCovered}

module _ (ids : List Uuid) where
  settle-Covered :
      (given : List Uuid) (allowed : Bool) (c : Pending)
      → All (In ids) given ⊎ (allowed ≡ false)
      → Covered ids c
      → Covered ids (settle given allowed c)
  settle-Covered given allowed c a h =
      if-case (Covered ids) (is_open given c)
        (λ waits_on e. elim a [
          | inl inside ↦ In-All c.id given ids inside (ground arith)
          | inr refused ↦ let f : verdict allowed ≡ cancelled = ap verdict refused in cc
        ])
        (λ _. h)

  pub decide-IsCovered :
      (now : ℕ) (given : List Uuid) (allowed : Bool) (q : Queue)
      → All (In ids) given ⊎ (allowed ≡ false)
      → IsCovered ids q
      → IsCovered ids (decide now given allowed q)
  unfolding decide
  decide-IsCovered now given allowed q a h =
      let k = expire-IsCovered ids now q h in
      record {
        calls =
            All-map (Covered ids) _ (expire now q).calls (λ c. settle-Covered given allowed c a)
              k.calls;
        waiting = k.waiting;
      }

  pub allow-IsCovered :
      (now : ℕ) (given : List Uuid) (q : Queue)
      → All (In ids) given
      → IsCovered ids q
      → IsCovered ids (allow now given q)
  unfolding allow
  allow-IsCovered now given q a h =
      if-case (IsCovered ids) (not (needs_unlock given q))
        (λ _. decide-IsCovered now given true q (inl a) h)
        (λ _.
          if-case (IsCovered ids) (not (is_busy q.unlock) && not (is_empty q.master_password))
            (λ _. record { calls = h.calls; waiting = a }) (λ _. h))

  handed_over-IsCovered :
      (u : Unlock) (q : Queue)
      → All (In ids) (held u)
      → IsCovered ids q
      → IsCovered ids (handed_over u q).1
  handed_over-IsCovered idle q a h = h
  handed_over-IsCovered (requested given password) q a h = record { calls = h.calls; waiting = a }
  handed_over-IsCovered (running given) q a h = h

  pub take_unlock-IsCovered : (q : Queue) → IsCovered ids q → IsCovered ids (take_unlock q).1
  unfolding take_unlock
  take_unlock-IsCovered q h = handed_over-IsCovered q.unlock q h.waiting h

  without_detail-IsCovered :
      (given : List Uuid) (q : Queue) → IsCovered ids q → IsCovered ids (without_detail given q)
  without_detail-IsCovered given q h =
      if-case (IsCovered ids) (is_within given q.detail)
        (λ _. record { calls = h.calls; waiting = h.waiting }) (λ _. h)

  finished-IsCovered :
      (now : ℕ) (failed : Option Text) (u : Unlock) (q : Queue)
      → All (In ids) (held u)
      → IsCovered ids q
      → IsCovered ids (finished now failed u q)
  finished-IsCovered now none (running given) q a h =
      let k = without_detail-IsCovered given q h in
      if-case (IsCovered ids) (any (active (without_detail given q)) given)
        (λ _. decide-IsCovered now given true (without_detail given q) (inl a) k) (λ _. k)
  finished-IsCovered now (some reason) (running given) q a h = record {
    calls = h.calls;
    waiting = h.waiting;
  }
  finished-IsCovered now none idle q a h = h
  finished-IsCovered now (some _) idle q a h = h
  finished-IsCovered now none (requested _ _) q a h = h
  finished-IsCovered now (some _) (requested _ _) q a h = h

  pub finish_unlock-IsCovered :
      (now : ℕ) (failed : Option Text) (q : Queue)
      → IsCovered ids q
      → IsCovered ids (finish_unlock now failed q)
  unfolding finish_unlock
  finish_unlock-IsCovered now failed q h =
      finished-IsCovered now failed q.unlock (record q { unlock = idle }) h.waiting
        (record { calls = h.calls; waiting = tt })

  pub rearm-IsCovered : (time : ℕ) (q : Queue) → IsCovered ids q → IsCovered ids (rearm time q)
  unfolding rearm
  rearm-IsCovered time q h = go q.batch
    where
      go :
          (b : Option Batch)
          → IsCovered ids (elim b [
            | none ↦ q
            | some b ↦ record q {
              batch = some (record b { ready_at = max b.ready_at (time + arm) });
            }
          ])
      go none = h
      go (some b) = record { calls = h.calls; waiting = h.waiting }

  pub include_new-IsCovered :
      (time : ℕ) (q : Queue) → IsCovered ids q → IsCovered ids (include_new time q)
  unfolding include_new
  include_new-IsCovered time q h = go q.batch
    where
      go :
          (b : Option Batch)
          → IsCovered ids (elim b [
            | none ↦ q
            | some b ↦
                rearm time (record q {
                  batch = some (record b { ids = add_ids b.ids (pending_ids q.calls) });
                })
          ])
      go none = h
      go (some b) = rearm-IsCovered time _ (record { calls = h.calls; waiting = h.waiting })

  pub start_batch-IsCovered :
      (time pause : ℕ) (q : Queue) → IsCovered ids q → IsCovered ids (start_batch time pause q)
  unfolding start_batch
  start_batch-IsCovered time pause q h =
      if-case (IsCovered ids) (is_empty (pending_ids q.calls))
        (λ _. record { calls = h.calls; waiting = h.waiting })
        (λ _. record { calls = h.calls; waiting = h.waiting })
