-- ===== src/Approval/Queue/Kept.antt =====
-- What lapsing and deciding keep of the calls, the operations of the queue keep.
use codex_hosts.Prelude.{
  ℕ, ◌+◌, Bool, true, not, ◌&&◌, Option, none, some, List, Text, is_empty, any, map, max, if-case,
}
use codex_hosts.Model.{Uuid}
use codex_hosts.Approval.Queue.{
  Pending, Batch, Unlock, idle, requested, running, Queue, arm, is_busy, expire, pending_ids,
  start_batch, add_ids, rearm, include_new, active, needs_unlock, settle, decide, allow,
  take_unlock, handed_over, without_detail, finished, is_within, finish_unlock,
}
use codex_hosts.Approval.Queue.Tidy.{current}

module _ (P : List Pending → Type 0)
    (lapses : (now : ℕ) (calls : List Pending) → P calls → P (current now calls))
    (settles : (ids : List Uuid) (b : Bool) (calls : List Pending)
      → P calls
      → P (map (settle ids b) calls)) where
  abbrev pub Kept : Queue → Type 0
  Kept q = P q.calls

  pub expire-Kept : (now : ℕ) (q : Queue) → Kept q → Kept (expire now q)
  unfolding expire
  expire-Kept now q h = lapses now q.calls h

  pub decide-Kept :
      (now : ℕ) (ids : List Uuid) (b : Bool) (q : Queue) → Kept q → Kept (decide now ids b q)
  unfolding decide
  decide-Kept now ids b q h = settles ids b (expire now q).calls (expire-Kept now q h)

  pub allow-Kept : (now : ℕ) (ids : List Uuid) (q : Queue) → Kept q → Kept (allow now ids q)
  unfolding allow
  allow-Kept now ids q h =
      if-case Kept (not (needs_unlock ids q)) (λ _. decide-Kept now ids true q h)
        (λ _.
          if-case Kept (not (is_busy q.unlock) && not (is_empty q.master_password)) (λ _. h)
            (λ _. h))

  pub handed_over-Kept : (u : Unlock) (q : Queue) → Kept q → Kept (handed_over u q).1
  handed_over-Kept idle q h = h
  handed_over-Kept (requested _ _) q h = h
  handed_over-Kept (running _) q h = h

  pub take_unlock-Kept : (q : Queue) → Kept q → Kept (take_unlock q).1
  unfolding take_unlock
  take_unlock-Kept q h = handed_over-Kept q.unlock q h

  pub finished-Kept :
      (now : ℕ) (failed : Option Text) (u : Unlock) (q : Queue)
      → Kept q
      → Kept (finished now failed u q)
  finished-Kept now none (running ids) q h =
      let k =
        if-case Kept (is_within ids q.detail) {x = record q { detail = none }} {y = q} (λ _. h)
          (λ _. h) in
      if-case Kept (any (active (without_detail ids q)) ids)
        (λ _. decide-Kept now ids true (without_detail ids q) k) (λ _. k)
  finished-Kept now (some reason) (running ids) q h = h
  finished-Kept now none idle q h = h
  finished-Kept now (some _) idle q h = h
  finished-Kept now none (requested _ _) q h = h
  finished-Kept now (some _) (requested _ _) q h = h

  pub finish_unlock-Kept :
      (now : ℕ) (failed : Option Text) (q : Queue) → Kept q → Kept (finish_unlock now failed q)
  unfolding finish_unlock
  finish_unlock-Kept now failed q h =
      finished-Kept now failed q.unlock (record q { unlock = idle }) h

  pub rearm-Kept : (time : ℕ) (q : Queue) → Kept q → Kept (rearm time q)
  unfolding rearm
  rearm-Kept time q h = go q.batch
    where
      go :
          (b : Option Batch)
          → Kept (elim b [
            | none ↦ q
            | some b ↦ record q {
              batch = some (record b { ready_at = max b.ready_at (time + arm) });
            }
          ])
      go none = h
      go (some b) = h

  pub include_new-Kept : (time : ℕ) (q : Queue) → Kept q → Kept (include_new time q)
  unfolding include_new
  include_new-Kept time q h = go q.batch
    where
      go :
          (b : Option Batch)
          → Kept (elim b [
            | none ↦ q
            | some b ↦
                rearm time (record q {
                  batch = some (record b { ids = add_ids b.ids (pending_ids q.calls) });
                })
          ])
      go none = h
      go (some b) = rearm-Kept time _ h

  pub start_batch-Kept : (time pause : ℕ) (q : Queue) → Kept q → Kept (start_batch time pause q)
  unfolding start_batch
  start_batch-Kept time pause q h = if-case Kept (is_empty (pending_ids q.calls)) (λ _. h) (λ _. h)
