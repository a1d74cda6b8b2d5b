-- ===== src/Approval/Queue/Screens.antt =====
-- What is on the screen before and after each operation of the queue.
use codex_hosts.Prelude.{
  ℕ, ◌+◌, ◌≡◌, refl, ◌∙◌, inl, inr, ◌⊎◌, Bool, true, not, ◌&&◌, Option, none, some, List, ltb, Text,
  is_empty, length, any, find, max, if-case,
}
use codex_hosts.Model.{Uuid}
use codex_hosts.Approval.Queue.{
  Review, Status, Pending, Batch, Unlock, idle, requested, running, Queue, max_reviews, arm,
  is_pending, is_busy, has_id, expire, room, submit, taken, take_status, cancel, pending_ids,
  add_ids, rearm, include_new, active, needs_unlock, decide, allow, take_unlock, handed_over,
  without_detail, finished, is_within, finish_unlock,
}

-- the list and the details stay
abbrev pub IsSameScreen : Queue → Queue → Type 0
IsSameScreen q r = (r.batch ≡ q.batch) × (r.detail ≡ q.detail)

abbrev pub HasBatch : Queue → Type 0
HasBatch q = (b : Batch) × (q.batch ≡ some b)

room-same : (now : ℕ) (q : Queue) → IsSameScreen q (room now q).1
unfolding room expire
room-same now q =
    let decided : Pending → Bool = λ c. not (is_pending c) in
    if-case (λ (r : Bool × Queue). IsSameScreen q r.1)
      (ltb (length (expire now q).calls) max_reviews) (λ _. (refl, refl))
      (λ _.
        if-case (λ (r : Bool × Queue). IsSameScreen q r.1) (any decided (expire now q).calls)
          (λ _. (refl, refl)) (λ _. (refl, refl)))

pub submit-same :
    (now : ℕ) (i : Uuid) (r : Review) (q : Queue) → IsSameScreen q (submit now i r q).1
unfolding submit
submit-same now i r q =
    let k = room-same now q in
    if-case (λ (a : Option Status × Queue). IsSameScreen q a.1) (any (has_id i) q.calls)
      (λ _. (refl, refl))
      (λ _.
        if-case (λ (a : Option Status × Queue). IsSameScreen q a.1) (not (room now q).0) (λ _. k)
          (λ _. k))

pub cancel-same : (now : ℕ) (i : Uuid) (q : Queue) → IsSameScreen q (cancel now i q)
unfolding cancel
cancel-same now i q =
    let k = room-same now q in
    if-case (IsSameScreen q) (any (has_id i) q.calls) (λ _. (refl, refl))
      (λ _. if-case (IsSameScreen q) (room now q).0 (λ _. k) (λ _. k))

taken-same : (i : Uuid) (o : Option Pending) (q : Queue) → IsSameScreen q (taken i o q).1
taken-same i none q = (refl, refl)
taken-same i (some c) q =
    if-case (IsSameScreen q) (is_pending c) (λ _. (refl, refl)) (λ _. (refl, refl))

pub take_status-same : (now : ℕ) (i : Uuid) (q : Queue) → IsSameScreen q (take_status now i q).1
unfolding take_status expire
take_status-same now i q = taken-same i (find (has_id i) (expire now q).calls) (expire now q)

pub decide-same :
    (now : ℕ) (ids : List Uuid) (b : Bool) (q : Queue) → IsSameScreen q (decide now ids b q)
unfolding decide expire
decide-same now ids b q = (refl, refl)

pub allow-same : (now : ℕ) (ids : List Uuid) (q : Queue) → IsSameScreen q (allow now ids q)
unfolding allow
allow-same now ids q =
    if-case (IsSameScreen q) (not (needs_unlock ids q)) (λ _. decide-same now ids true q)
      (λ _.
        if-case (IsSameScreen q) (not (is_busy q.unlock) && not (is_empty q.master_password))
          (λ _. (refl, refl)) (λ _. (refl, refl)))

pub take_unlock-same : (q : Queue) → IsSameScreen q (take_unlock q).1
unfolding take_unlock
take_unlock-same q = handed q.unlock
  where
    handed : (u : Unlock) → IsSameScreen q (handed_over u q).1
    handed idle = (refl, refl)
    handed (requested _ _) = (refl, refl)
    handed (running _) = (refl, refl)

-- the details may be closed
abbrev pub IsLess : Queue → Queue → Type 0
IsLess q r = (r.batch ≡ q.batch) × ((r.detail ≡ q.detail) ⊎ (r.detail ≡ none))

pub finish_unlock-IsLess :
    (now : ℕ) (failed : Option Text) (q : Queue) → IsLess q (finish_unlock now failed q)
unfolding finish_unlock
finish_unlock-IsLess now failed q = end failed q.unlock (record q { unlock = idle })
  where
    closed_by : (ids : List Uuid) (q : Queue) → IsLess q (without_detail ids q)
    closed_by ids q =
        if-case (IsLess q) (is_within ids q.detail) (λ _. (refl, inr refl)) (λ _. (refl, inl refl))

    end : (failed : Option Text) (u : Unlock) (q : Queue) → IsLess q (finished now failed u q)
    end none (running ids) q =
        let k = closed_by ids q in
        if-case (IsLess q) (any (active (without_detail ids q)) ids)
          (λ _.
            let (b, d) = decide-same now ids true (without_detail ids q) in
            (b ∙ k.0, elim k.1 [ inl e ↦ inl (d ∙ e) | inr e ↦ inr (d ∙ e) ]))
          (λ _. k)
    end (some reason) (running ids) q = (refl, inl refl)
    end none idle q = (refl, inl refl)
    end (some _) idle q = (refl, inl refl)
    end none (requested _ _) q = (refl, inl refl)
    end (some _) (requested _ _) q = (refl, inl refl)

pub rearm-batch :
    (time : ℕ) (q : Queue) (b : Batch)
    → q.batch ≡ some b
    → (rearm time q).batch ≡ some (record b { ready_at = max b.ready_at (time + arm) })
unfolding rearm
rearm-batch time q b e = rw e refl

pub rearm-none : (time : ℕ) (q : Queue) → q.batch ≡ none → IsSameScreen q (rearm time q)
unfolding rearm
rearm-none time q e = arms q.batch e
  where
    arms :
        (o : Option Batch)
        → o ≡ none
        → IsSameScreen q (elim o [
          | none ↦ q
          | some b ↦ record q { batch = some (record b { ready_at = max b.ready_at (time + arm) }) }
        ])
    arms none e = (refl, refl)
    arms (some b) e = cc

pub include_new-rearm :
    (time : ℕ) (q : Queue)
    → HasBatch q
    → (r : Queue) × HasBatch r × (include_new time q ≡ rearm time r)
unfolding include_new
include_new-rearm time q (b, e) = included q.batch e
  where
    included :
        (o : Option Batch)
        → o ≡ some b
        → (r : Queue) × HasBatch r
          × (elim o [
            | none ↦ q
            | some b ↦
                rearm time (record q {
                  batch = some (record b { ids = add_ids b.ids (pending_ids q.calls) });
                })
          ]
              ≡ rearm time r)
    included none e = cc
    included (some c) e = (
      record q { batch = some (record c { ids = add_ids c.ids (pending_ids q.calls) }) },
      (record c { ids = add_ids c.ids (pending_ids q.calls) }, refl),
      refl,
    )
