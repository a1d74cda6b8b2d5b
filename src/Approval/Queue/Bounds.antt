-- ===== src/Approval/Queue/Bounds.antt =====
-- The operations of the queue keep its calls tidy.
use codex_hosts.Prelude.{
  ℕ, ◌<◌, ◌≡◌, ◌≢◌, refl, ◌∙◌, Bool, true, false, not, Option, none, some, List, [], ◌∷◌, ltb,
  length, any, find, arith, length-append, All, All-append, map, All-map, All-keep,
  All-remove_first, if-case, Apart-concat,
}
use codex_hosts.Model.{Uuid}
use codex_hosts.Approval.Queue.{
  Review, Status, cancelled, Pending, Queue, max_reviews, is_pending, has_id, lapse, expire, room,
  pushed, submit, taken, take_status, cancel, decide,
}
use codex_hosts.Approval.Queue.Tidy.{
  OtherCall, HasReview, AreTidy, settle-AreTidy, current, current-AreTidy, length-remove_first-lt,
  update_first-AreTidy, remove_first-AreTidy, lapse-id,
}

abbrev pub IsTidy : Queue → Type 0
IsTidy q = AreTidy q.calls

-- no call has the id
abbrev pub IsFresh : Uuid → List Pending → Type 0
IsFresh id calls = All (λ (c : Pending). id ≢ c.id) calls

IsFresh-intro :
    (id : Uuid) (calls : List Pending) → any (has_id id) calls ≡ false → IsFresh id calls
IsFresh-intro id [] h = tt
IsFresh-intro id (c ∷ calls) h = ((λ e. ground arith), IsFresh-intro id calls (ground arith))

pub current-IsFresh :
    (now : ℕ) (id : Uuid) (calls : List Pending) → IsFresh id calls → IsFresh id (current now calls)
current-IsFresh now id calls h =
    All-keep (λ (c : Pending). id ≢ c.id) _ (map (lapse now) calls)
      (All-map (λ (c : Pending). id ≢ c.id) (lapse now) calls (λ c n e. n (e ∙ lapse-id now c)) h)

pub expire-IsTidy : (now : ℕ) (q : Queue) → IsTidy q → IsTidy (expire now q)
unfolding expire
expire-IsTidy now q h = current-AreTidy now q.calls h

-- `room` makes room where it says so, and brings no new id
record HasRoom (id : Uuid) (q : Queue) (r : Bool × Queue) : Type 0 where
  tidy : IsTidy r.1
  fits : r.0 ≡ true → length r.1.calls < max_reviews
  fresh : IsFresh id q.calls → IsFresh id r.1.calls

room-HasRoom : (now : ℕ) (id : Uuid) (q : Queue) → IsTidy q → HasRoom id q (room now q)
unfolding room expire
room-HasRoom now id q h =
    let calls = current now q.calls in
    let k = current-AreTidy now q.calls h in
    let decided : Pending → Bool = λ c. not (is_pending c) in
    if-case (HasRoom id q) (ltb (length calls) max_reviews)
      (λ e. record { tidy = k; fits = λ _. ground arith; fresh = current-IsFresh now id q.calls })
      (λ _.
        if-case (HasRoom id q) (any decided calls)
          (λ e. record {
            tidy = remove_first-AreTidy decided calls k;
            fits = λ _. let l = k.few in omega (arith, length-remove_first-lt decided calls e);
            fresh = λ f.
                All-remove_first (λ (c : Pending). id ≢ c.id) decided calls
                  (current-IsFresh now id q.calls f);
          })
          (λ _. record { tidy = k; fits = λ f. cc; fresh = current-IsFresh now id q.calls }))

pushed-IsTidy :
    (c : Pending) (q : Queue)
    → IsTidy q
    → length q.calls < max_reviews
    → IsFresh c.id q.calls
    → HasReview c
    → IsTidy (pushed c q)
pushed-IsTidy c q h short fresh seen = record {
  few = omega (arith, length-append q.calls (c ∷ []));
  distinct = Apart-concat OtherCall q.calls c fresh h.distinct;
  reviewed = All-append HasReview q.calls (c ∷ []) h.reviewed (seen, tt);
}

pub submit-IsTidy :
    (now : ℕ) (id : Uuid) (r : Review) (q : Queue) → IsTidy q → IsTidy (submit now id r q).1
unfolding submit
submit-IsTidy now id r q h =
    let k = room-HasRoom now id q h in
    if-case (λ (a : Option Status × Queue). IsTidy a.1) (any (has_id id) q.calls) (λ _. h)
      (λ new.
        if-case (λ (a : Option Status × Queue). IsTidy a.1) (not (room now q).0) (λ _. k.tidy)
          (λ e.
            pushed-IsTidy _ (room now q).1 k.tidy (k.fits (ground arith))
              (k.fresh (IsFresh-intro id q.calls new)) (λ _ f. cc)))

pub cancel-IsTidy : (now : ℕ) (id : Uuid) (q : Queue) → IsTidy q → IsTidy (cancel now id q)
unfolding cancel
cancel-IsTidy now id q h =
    let k = room-HasRoom now id q h in
    if-case IsTidy (any (has_id id) q.calls)
      (λ _.
        update_first-AreTidy (λ (c : Pending). record c { status = cancelled }) (λ c. refl)
          (λ c _ e. cc) (has_id id) q.calls h)
      (λ new.
        if-case IsTidy (room now q).0
          (λ e.
            pushed-IsTidy _ (room now q).1 k.tidy (k.fits e)
              (k.fresh (IsFresh-intro id q.calls new)) (λ e. cc))
          (λ _. k.tidy))

taken-IsTidy : (id : Uuid) (o : Option Pending) (q : Queue) → IsTidy q → IsTidy (taken id o q).1
taken-IsTidy id none q h = h
taken-IsTidy id (some c) q h =
    if-case IsTidy (is_pending c) (λ _. h) (λ _. remove_first-AreTidy (has_id id) q.calls h)

pub take_status-IsTidy :
    (now : ℕ) (id : Uuid) (q : Queue) → IsTidy q → IsTidy (take_status now id q).1
unfolding take_status
take_status-IsTidy now id q h =
    taken-IsTidy id (find (has_id id) (expire now q).calls) (expire now q) (expire-IsTidy now q h)

pub decide-IsTidy :
    (now : ℕ) (ids : List Uuid) (b : Bool) (q : Queue) → IsTidy q → IsTidy (decide now ids b q)
unfolding decide
decide-IsTidy now ids b q h = settle-AreTidy ids b (expire now q).calls (expire-IsTidy now q h)
