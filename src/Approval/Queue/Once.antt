-- ===== src/Approval/Queue/Once.antt =====
-- A decision is handed over once.
use codex_hosts.Prelude.{
  ℕ, ◌≡◌, ◌≢◌, refl, sym, ◌∙◌, inl, inr, false, Option, none, some, List, [], ◌∷◌, find,
  remove_first, arith, Bool-cases, All-weaken, Apart,
}
use codex_hosts.Model.{Uuid}
use codex_hosts.Approval.Queue.{
  Status, pending, approved, expired, cancelled, Pending, Queue, waits, is_pending, has_id, expire,
  taken, take_status,
}
use codex_hosts.Approval.Queue.Tidy.{OtherCall}
use codex_hosts.Approval.Queue.Bounds.{IsTidy, IsFresh, expire-IsTidy, current-IsFresh}

find-none : (id : Uuid) (calls : List Pending) → IsFresh id calls → find (has_id id) calls ≡ none
find-none id [] h = refl
find-none id (c ∷ calls) (n, h) = ground (arith, find-none id calls h)

-- with distinct ids, no other call has the id that is removed
removed-IsFresh :
    (id : Uuid) (calls : List Pending) (c : Pending)
    → Apart OtherCall calls
    → find (has_id id) calls ≡ some c
    → IsFresh id (remove_first (has_id id) calls)
removed-IsFresh id [] c a h = cc
removed-IsFresh id (d ∷ calls) c (others, a) h = elim (Bool-cases (has_id id d)) [
  | inl e ↦
      let same : d.id ≡ id = ground arith in
      rw e (
        All-weaken (OtherCall d) (λ (x : Pending). id ≢ x.id) calls (λ x n f. n (sym f ∙ sym same))
          others)
  | inr e ↦ rw e ((λ f. ground arith), removed-IsFresh id calls c a (ground arith))
]

taken-IsFresh :
    (id : Uuid) (o : Option Pending) (q : Queue) (s : Status)
    → find (has_id id) q.calls ≡ o
    → IsTidy q
    → (taken id o q).0 ≡ some s
    → s ≢ pending
    → IsFresh id (taken id o q).1.calls
taken-IsFresh id none q s e h t n = cc
taken-IsFresh id (some c) q s e h t n =
    let same : c.status ≡ s = cc in
    let decided : is_pending c ≡ false = not_waiting c.status (λ f. n (sym same ∙ f)) in
    rw decided (removed-IsFresh id q.calls c h.distinct e)
  where
    not_waiting : (t : Status) → t ≢ pending → waits t ≡ false
    not_waiting pending m = absurd (m refl)
    not_waiting approved m = refl
    not_waiting expired m = refl
    not_waiting cancelled m = refl

abbrev take_found : Uuid → Queue → Option Status × Queue
take_found id q = taken id (find (has_id id) q.calls) q

taken-fresh : (id : Uuid) (q : Queue) → IsFresh id q.calls → (take_found id q).0 ≡ none
taken-fresh id q f = rw (find-none id q.calls f) refl

pub taken-once :
    (now later : ℕ) (id : Uuid) (s : Status) (q : Queue)
    → IsTidy q
    → (take_status now id q).0 ≡ some s
    → s ≢ pending
    → (take_status later id (take_status now id q).1).0 ≡ none
unfolding take_status expire
taken-once now later id s q h e n =
    let q' = expire now q in
    let f = taken-IsFresh id (find (has_id id) q'.calls) q' s refl (expire-IsTidy now q h) e n in
    taken-fresh id (expire later (take_found id q').1)
      (current-IsFresh later id (take_found id q').1.calls f)
