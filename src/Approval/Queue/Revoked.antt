-- ===== src/Approval/Queue/Revoked.antt =====
-- A call that is neither waiting nor approved stays so.
use codex_hosts.Prelude.{
  ℕ, ◌≡◌, ◌≢◌, refl, sym, ◌∙◌, inl, inr, Bool, true, false, Option, none, some, List, [], ◌∷◌, any,
  find, update_first, arith, Bool-cases, All, All-append, map, All-map, find-All, All-weaken,
  if-case, Apart,
}
use codex_hosts.Model.{Uuid}
use codex_hosts.Approval.Queue.{
  Review, Status, pending, approved, expired, cancelled, Pending, Queue, waits, has_id, is_late,
  lapse, expire, room, submit, taken, take_status, cancel, is_open, settle,
}
use codex_hosts.Approval.Queue.Tidy.{OtherCall, current}
use codex_hosts.Approval.Queue.Bounds.{IsTidy}
use codex_hosts.Approval.Queue.Each.{
  current-Each, room-Each, submit-Each, cancel-Each, take_status-Each,
}

abbrev pub Revoked : Uuid → Pending → Type 0
Revoked id c = c.id ≡ id → (c.status ≢ pending) × (c.status ≢ approved)

abbrev pub IsRevoked : Uuid → Queue → Type 0
IsRevoked id q = All (Revoked id) q.calls

module _ (id : Uuid) where
  lapse-Revoked : (now : ℕ) (c : Pending) → Revoked id c → Revoked id (lapse now c)
  lapse-Revoked now c h =
      if-case (Revoked id) (is_late now c) (λ _ e. ((λ f. cc), λ f. cc)) (λ _. h)

  settle-Revoked :
      (ids : List Uuid) (b : Bool) (c : Pending) → Revoked id c → Revoked id (settle ids b c)
  settle-Revoked ids b c h =
      if-case (Revoked id) (is_open ids c)
        (λ e same. absurd ((h same).0 (waiting c.status (ground arith)))) (λ _. h)
    where
      waiting : (s : Status) → waits s ≡ true → s ≡ pending
      waiting pending e = refl
      waiting approved e = cc
      waiting expired e = cc
      waiting cancelled e = cc

  pub current-IsRevoked :
      (now : ℕ) (calls : List Pending)
      → All (Revoked id) calls
      → All (Revoked id) (current now calls)
  current-IsRevoked = current-Each (Revoked id) lapse-Revoked

  pub settle-IsRevoked :
      (ids : List Uuid) (b : Bool) (calls : List Pending)
      → All (Revoked id) calls
      → All (Revoked id) (map (settle ids b) calls)
  settle-IsRevoked ids b calls h =
      All-map (Revoked id) (settle ids b) calls (settle-Revoked ids b) h

  pub submit-IsRevoked :
      (now : ℕ) (i : Uuid) (r : Review) (q : Queue)
      → i ≢ id
      → IsRevoked id q
      → IsRevoked id (submit now i r q).1
  submit-IsRevoked now i r q n h =
      submit-Each (Revoked id) lapse-Revoked now i r q (λ e. absurd (n e)) h

  pub cancel-IsRevoked :
      (now : ℕ) (i : Uuid) (q : Queue) → IsRevoked id q → IsRevoked id (cancel now i q)
  cancel-IsRevoked now i q h =
      cancel-Each (Revoked id) lapse-Revoked now i q (λ c _ e. ((λ f. cc), λ f. cc))
        (λ e. ((λ f. cc), λ f. cc)) h

  -- with distinct ids, the call that is cancelled is the only one with its id
  update_first-Revoked :
      (calls : List Pending)
      → Apart OtherCall calls
      → All
          (Revoked id)
          (update_first (has_id id) (λ (c : Pending). record c { status = cancelled }) calls)
  update_first-Revoked [] a = tt
  update_first-Revoked (c ∷ calls) (others, a) = elim (Bool-cases (has_id id c)) [
    | inl e ↦
        let same : c.id ≡ id = ground arith in
        rw e (
          (λ _. ((λ f. cc), λ f. cc)),
          All-weaken (OtherCall c) (Revoked id) calls (λ x n f. absurd (n (f ∙ sym same))) others,
        )
    | inr e ↦ rw e ((λ f. ground arith), update_first-Revoked calls a)
  ]

  fresh-Revoked : (calls : List Pending) → any (has_id id) calls ≡ false → All (Revoked id) calls
  fresh-Revoked [] h = tt
  fresh-Revoked (c ∷ calls) h = ((λ e. ground arith), fresh-Revoked calls (ground arith))

  pub cancelled-IsRevoked : (now : ℕ) (q : Queue) → IsTidy q → IsRevoked id (cancel now id q)
  unfolding cancel
  cancelled-IsRevoked now q h =
      if-case (IsRevoked id) (any (has_id id) q.calls)
        (λ _. update_first-Revoked q.calls h.distinct)
        (λ new.
          let k = room-Each (Revoked id) lapse-Revoked now q (fresh-Revoked q.calls new) in
          if-case (IsRevoked id) (room now q).0
            (λ _.
              All-append (Revoked id) (room now q).1.calls _ k ((λ e. ((λ f. cc), λ f. cc)), tt))
            (λ _. k))

  pub take_status-IsRevoked :
      (now : ℕ) (i : Uuid) (q : Queue) → IsRevoked id q → IsRevoked id (take_status now i q).1
  take_status-IsRevoked = take_status-Each (Revoked id) lapse-Revoked

  taken-revoked :
      (o : Option Pending) (q : Queue)
      → find (has_id id) q.calls ≡ o
      → IsRevoked id q
      → ((taken id o q).0 ≢ some approved) × ((taken id o q).0 ≢ some pending)
  taken-revoked none q e h = ((λ f. cc), λ f. cc)
  taken-revoked (some c) q e h =
      let (revoked, same) = find-All (Revoked id) (has_id id) q.calls h e in
      let is : c.id ≡ id = ground arith in
      let (not_waiting, not_approved) = revoked is in ((λ f. not_approved cc), λ f. not_waiting cc)

  pub take_status-revoked :
      (now : ℕ) (q : Queue)
      → IsRevoked id q
      → ((take_status now id q).0 ≢ some approved) × ((take_status now id q).0 ≢ some pending)
  unfolding take_status expire
  take_status-revoked now q h =
      taken-revoked (find (has_id id) (current now q.calls)) (expire now q) refl
        (current-IsRevoked now q.calls h)
