-- ===== src/Approval/Queue/Tidy.antt =====
-- The calls of the queue: at most sixteen, with distinct ids, and a review to show for each that waits.
use codex_hosts.Prelude.{
  ℕ, ◌+◌, ◌≤◌, ◌<◌, ◌≡◌, ◌≢◌, refl, sym, ◌∙◌, inl, inr, Bool, true, false, none, List, [], ◌∷◌, ltb,
  length, any, keep, remove_first, update_first, arith, Bool-cases, All, map, length-map,
  length-keep-le, length-update_first, All-map, All-keep, All-remove_first, All-update_first,
  if-case, Apart, Apart-map, Apart-keep, Apart-remove_first, Apart-update_first,
}
use codex_hosts.Model.{Uuid}
use codex_hosts.Approval.Queue.{
  pending, Pending, max_reviews, grace, is_late, lapse, is_open, settle,
}

abbrev pub OtherCall : Pending → Pending → Type 0
OtherCall c d = d.id ≢ c.id

abbrev pub HasReview : Pending → Type 0
HasReview c = c.status ≡ pending → c.review ≢ none

pub record AreTidy (calls : List Pending) : Type 0 where
  pub few : length calls ≤ max_reviews
  pub distinct : Apart OtherCall calls
  pub reviewed : All HasReview calls

pub lapse-id : (now : ℕ) (c : Pending) → (lapse now c).id ≡ c.id
lapse-id now c = if-case (λ (d : Pending). d.id ≡ c.id) (is_late now c) (λ _. refl) (λ _. refl)

pub settle-id : (ids : List Uuid) (b : Bool) (c : Pending) → (settle ids b c).id ≡ c.id
settle-id ids b c = if-case (λ (d : Pending). d.id ≡ c.id) (is_open ids c) (λ _. refl) (λ _. refl)

lapse-HasReview : (now : ℕ) (c : Pending) → HasReview c → HasReview (lapse now c)
lapse-HasReview now c h = if-case HasReview (is_late now c) (λ _ e. cc) (λ _. h)

settle-HasReview :
    (ids : List Uuid) (b : Bool) (c : Pending) → HasReview c → HasReview (settle ids b c)
settle-HasReview ids true c h = if-case HasReview (is_open ids c) (λ _ e. cc) (λ _. h)
settle-HasReview ids false c h = if-case HasReview (is_open ids c) (λ _ e. cc) (λ _. h)

-- a change of the calls that keeps their ids
module _ (f : Pending → Pending) (same : (c : Pending) → (f c).id ≡ c.id)
    (kept : (c : Pending) → HasReview c → HasReview (f c)) where
  map-AreTidy : (calls : List Pending) → AreTidy calls → AreTidy (map f calls)
  map-AreTidy calls h = record {
    few = let l = h.few in omega (arith, length-map f calls);
    distinct = Apart-map OtherCall f calls (λ x y r e. r (sym (same y) ∙ e ∙ same x)) h.distinct;
    reviewed = All-map HasReview f calls kept h.reviewed;
  }

  pub update_first-AreTidy :
      (p : Pending → Bool) (calls : List Pending) → AreTidy calls → AreTidy (update_first p f calls)
  update_first-AreTidy p calls h = record {
    few = let l = h.few in omega (arith, length-update_first p f calls);
    distinct =
        Apart-update_first OtherCall p f calls
          (λ x y r. ((λ e. r (sym (same y) ∙ e)), (λ e. r (e ∙ same x)))) h.distinct;
    reviewed = All-update_first HasReview p f calls kept h.reviewed;
  }

keep-AreTidy : (p : Pending → Bool) (calls : List Pending) → AreTidy calls → AreTidy (keep p calls)
keep-AreTidy p calls h = record {
  few = let l = h.few in omega (arith, length-keep-le p calls);
  distinct = Apart-keep OtherCall p calls h.distinct;
  reviewed = All-keep HasReview p calls h.reviewed;
}

pub settle-AreTidy :
    (ids : List Uuid) (b : Bool) (calls : List Pending)
    → AreTidy calls
    → AreTidy (map (settle ids b) calls)
settle-AreTidy ids b calls h =
    map-AreTidy (settle ids b) (settle-id ids b) (settle-HasReview ids b) calls h

-- what `expire` leaves
abbrev pub current : ℕ → List Pending → List Pending
current now calls = keep (λ c. ltb now (c.expires + grace)) (map (lapse now) calls)

pub current-AreTidy : (now : ℕ) (calls : List Pending) → AreTidy calls → AreTidy (current now calls)
current-AreTidy now calls h =
    keep-AreTidy _ _ (map-AreTidy (lapse now) (lapse-id now) (lapse-HasReview now) calls h)

length-remove_first-le :
    (p : Pending → Bool) (calls : List Pending) → length (remove_first p calls) ≤ length calls
length-remove_first-le p [] = omega arith
length-remove_first-le p (c ∷ calls) = ground (arith, length-remove_first-le p calls)

pub length-remove_first-lt :
    (p : Pending → Bool) (calls : List Pending)
    → any p calls ≡ true
    → length (remove_first p calls) < length calls
length-remove_first-lt p [] h = cc
length-remove_first-lt p (c ∷ calls) h = elim (Bool-cases (p c)) [
  | inl e ↦ ground arith
  | inr e ↦ ground (arith, length-remove_first-lt p calls)
]

pub remove_first-AreTidy :
    (p : Pending → Bool) (calls : List Pending) → AreTidy calls → AreTidy (remove_first p calls)
remove_first-AreTidy p calls h = record {
  few = let l = h.few in omega (arith, length-remove_first-le p calls);
  distinct = Apart-remove_first OtherCall p calls h.distinct;
  reviewed = All-remove_first HasReview p calls h.reviewed;
}
