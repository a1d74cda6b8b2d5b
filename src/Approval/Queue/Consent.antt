-- ===== src/Approval/Queue/Consent.antt =====
-- Where an approval can come from: how each operation of the queue treats the calls that have been
-- allowed, and the calls that wait for the vault.
use codex_hosts.Prelude.{
  ℕ, ◌≡◌, ◌≢◌, refl, inl, inr, Bool, true, not, Option, none, some, List, [], ◌∷◌, ltb, ◌==◌,
  length, any, find, arith, Bool-cases, All, All-append, map, All-map, All-keep, All-remove_first,
  All-update_first, find-All, if-case,
}
use codex_hosts.Model.{contains_id, Uuid}
use codex_hosts.Approval.Queue.{
  Review, Status, approved, Pending, Unlock, idle, requested, running, Queue, max_reviews,
  is_pending, has_id, is_late, lapse, expire, room, pushed, submit, taken, take_status, cancel,
}

abbrev pub In : List Uuid → Uuid → Type 0
In ids i = contains_id i ids ≡ true

abbrev pub Covered : List Uuid → Pending → Type 0
Covered ids c = c.status ≡ approved → In ids c.id

-- the calls that an unlock will allow
abbrev pub held : Unlock → List Uuid
held idle = []
held (requested ids _) = ids
held (running ids) = ids

-- Every approved call is one of `ids`, and so is every call that waits for the vault.
pub record IsCovered (ids : List Uuid) (q : Queue) : Type 0 where
  pub calls : All (Covered ids) q.calls
  pub waiting : All (In ids) (held q.unlock)

pub In-All : (i : Uuid) (given ids : List Uuid) → All (In ids) given → In given i → In ids i
In-All i [] ids a h = cc
In-All i (j ∷ given) ids (k, a) h = elim (Bool-cases (j == i)) [
  | inl e ↦ let same : j ≡ i = ground arith in rw (← same) k
  | inr e ↦ In-All i given ids a (ground arith)
]

module _ (ids : List Uuid) where
  lapse-Covered : (now : ℕ) (c : Pending) → Covered ids c → Covered ids (lapse now c)
  lapse-Covered now c h = if-case (Covered ids) (is_late now c) (λ _ e. cc) (λ _. h)

  pub expire-IsCovered : (now : ℕ) (q : Queue) → IsCovered ids q → IsCovered ids (expire now q)
  unfolding expire
  expire-IsCovered now q h = record {
    calls =
        All-keep (Covered ids) _ (map (lapse now) q.calls)
          (All-map (Covered ids) (lapse now) q.calls (lapse-Covered now) h.calls);
    waiting = h.waiting;
  }

  pub room-IsCovered : (now : ℕ) (q : Queue) → IsCovered ids q → IsCovered ids (room now q).1
  unfolding room
  room-IsCovered now q h =
      let q' = expire now q in
      let k = expire-IsCovered now q h in
      if-case (λ (r : Bool × Queue). IsCovered ids r.1) (ltb (length q'.calls) max_reviews) (λ _. k)
        (λ _.
          if-case (λ (r : Bool × Queue). IsCovered ids r.1) (any (λ c. not (is_pending c)) q'.calls)
            (λ _. record {
              calls = All-remove_first (Covered ids) _ q'.calls k.calls;
              waiting = k.waiting;
            })
            (λ _. k))

  pushed-IsCovered :
      (c : Pending) (q : Queue)
      → (c.status ≢ approved)
      → IsCovered ids q
      → IsCovered ids (pushed c q)
  pushed-IsCovered c q n h = record {
    calls = All-append (Covered ids) q.calls (c ∷ []) h.calls ((λ e. absurd (n e)), tt);
    waiting = h.waiting;
  }

  pub submit-IsCovered :
      (now : ℕ) (id : Uuid) (r : Review) (q : Queue)
      → IsCovered ids q
      → IsCovered ids (submit now id r q).1
  unfolding submit
  submit-IsCovered now id r q h =
      let k = room-IsCovered now q h in
      if-case (λ (a : Option Status × Queue). IsCovered ids a.1) (any (has_id id) q.calls) (λ _. h)
        (λ _.
          if-case (λ (a : Option Status × Queue). IsCovered ids a.1) (not (room now q).0) (λ _. k)
            (λ _. pushed-IsCovered _ _ (λ e. cc) k))

  pub cancel-IsCovered :
      (now : ℕ) (id : Uuid) (q : Queue) → IsCovered ids q → IsCovered ids (cancel now id q)
  unfolding cancel
  cancel-IsCovered now id q h =
      let k = room-IsCovered now q h in
      if-case (IsCovered ids) (any (has_id id) q.calls)
        (λ _. record {
          calls = All-update_first (Covered ids) _ _ q.calls (λ c _ e. cc) h.calls;
          waiting = h.waiting;
        })
        (λ _.
          if-case (IsCovered ids) (room now q).0 (λ _. pushed-IsCovered _ _ (λ e. cc) k) (λ _. k))

  -- what a call is answered with is what has been decided on it
  taken-Covered :
      (id : Uuid) (o : Option Pending) (q : Queue)
      → find (has_id id) q.calls ≡ o
      → IsCovered ids q
      → IsCovered ids (taken id o q).1 × ((taken id o q).0 ≡ some approved → In ids id)
  taken-Covered id none q e h = (h, λ f. cc)
  taken-Covered id (some c) q e h = (
    if-case (IsCovered ids) (is_pending c) (λ _. h)
        (λ _. record {
          calls = All-remove_first (Covered ids) (has_id id) q.calls h.calls;
          waiting = h.waiting;
        }),
    λ f.
        let (covered, same) = find-All (Covered ids) (has_id id) q.calls h.calls e in
        let is : c.id ≡ id = ground arith in
        let was : c.status ≡ approved = cc in rw (← is) (covered was),
  )

  pub take_status-Covered :
      (now : ℕ) (id : Uuid) (q : Queue)
      → IsCovered ids q
      → IsCovered ids (take_status now id q).1
        × ((take_status now id q).0 ≡ some approved → In ids id)
  unfolding take_status
  take_status-Covered now id q h =
      taken-Covered id (find (has_id id) (expire now q).calls) (expire now q) refl
        (expire-IsCovered now q h)
