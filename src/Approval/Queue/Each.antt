-- ===== src/Approval/Queue/Each.antt =====
-- What holds of each call, through the operations that the agent's side calls.
use codex_hosts.Prelude.{
  ℕ, Bool, not, Option, none, some, List, ltb, length, any, find, map, All, All-append, All-map,
  All-keep, All-remove_first, All-update_first, if-case,
}
use codex_hosts.Model.{Uuid}
use codex_hosts.Approval.Queue.{
  Review, Status, pending, cancelled, Pending, Queue, max_reviews, is_pending, has_id, lapse,
  expire, room, call, submit, taken, take_status, cancel,
}
use codex_hosts.Approval.Queue.Tidy.{current}

module _ (R : Pending → Type 0) (lapses : (now : ℕ) (c : Pending) → R c → R (lapse now c)) where
  abbrev pub Each : Queue → Type 0
  Each q = All R q.calls

  pub current-Each : (now : ℕ) (calls : List Pending) → All R calls → All R (current now calls)
  current-Each now calls h =
      All-keep R _ (map (lapse now) calls) (All-map R (lapse now) calls (lapses now) h)

  pub room-Each : (now : ℕ) (q : Queue) → Each q → Each (room now q).1
  unfolding room expire
  room-Each now q h =
      let calls = current now q.calls in
      let k = current-Each now q.calls h in
      let decided : Pending → Bool = λ c. not (is_pending c) in
      if-case (λ (r : Bool × Queue). Each r.1) (ltb (length calls) max_reviews) (λ _. k)
        (λ _.
          if-case (λ (r : Bool × Queue). Each r.1) (any decided calls)
            (λ _. All-remove_first R decided calls k) (λ _. k))

  pub submit-Each :
      (now : ℕ) (i : Uuid) (r : Review) (q : Queue)
      → R (call now i (some r) pending)
      → Each q
      → Each (submit now i r q).1
  unfolding submit
  submit-Each now i r q n h =
      let k = room-Each now q h in
      if-case (λ (a : Option Status × Queue). Each a.1) (any (has_id i) q.calls) (λ _. h)
        (λ _.
          if-case (λ (a : Option Status × Queue). Each a.1) (not (room now q).0) (λ _. k)
            (λ _. All-append R (room now q).1.calls _ k (n, tt)))

  pub cancel-Each :
      (now : ℕ) (i : Uuid) (q : Queue)
      → ((c : Pending) → R c → R (record c { status = cancelled }))
      → R (call now i none cancelled)
      → Each q
      → Each (cancel now i q)
  unfolding cancel
  cancel-Each now i q f n h =
      let k = room-Each now q h in
      if-case Each (any (has_id i) q.calls) (λ _. All-update_first R (has_id i) _ q.calls f h)
        (λ _.
          if-case Each (room now q).0 (λ _. All-append R (room now q).1.calls _ k (n, tt)) (λ _. k))

  taken-Each : (i : Uuid) (o : Option Pending) (q : Queue) → Each q → Each (taken i o q).1
  taken-Each i none q h = h
  taken-Each i (some c) q h =
      if-case Each (is_pending c) (λ _. h) (λ _. All-remove_first R (has_id i) q.calls h)

  pub take_status-Each : (now : ℕ) (i : Uuid) (q : Queue) → Each q → Each (take_status now i q).1
  unfolding take_status expire
  take_status-Each now i q h =
      taken-Each i (find (has_id i) (current now q.calls)) (expire now q)
        (current-Each now q.calls h)
