-- ===== src/Vault/Accepted.antt =====
-- Which items of a listing are accepted as hosts.
use codex_hosts.Prelude.{
  ℕ, suc, ◌+◌, ◌≡◌, ◌≢◌, refl, sym, false, not, List, [], ◌∷◌, Text, length, any, keep, Apart-parts,
  Result, ok, err, arith, All, All-append, All-keep, if-case, Apart,
}
use codex_hosts.Model.{HostProfile}
use codex_hosts.Vault.Hosts.{
  ItemProblem, HostFacts, ItemKey, Listed, has_id, lowered, has_text, mirrored_first, Accepted,
  place, accept,
}

-- what holds of the keys of all items holds of those that are accepted
module _ {κ} (P : ItemKey → Type κ) where
  place-All :
      (taken : List Text) (i : Listed) (r : Result ItemProblem HostFacts)
      (next : List Text → Accepted)
      → P i.key
      → ((t : List Text) → All (λ a. P a.0) (next t).0)
      → All (λ a. P a.0) (place taken i r next).0
  place-All taken i (err problem) next p h = h taken
  place-All taken i (ok f) next p h =
      if-case (λ (a : Accepted). All (λ a. P a.0) a.0) (has_text (lowered f.alias) taken)
        (λ _. h taken) (λ _. (p, h (lowered f.alias ∷ taken)))

  pub accept-All :
      (taken : List Text) (listed : List Listed)
      → All (λ i. P i.key) listed
      → All (λ a. P a.0) (accept taken listed).0
  accept-All taken [] h = tt
  accept-All taken (i ∷ items) (p, h) =
      place-All taken i i.facts (λ t. accept t items) p (λ t. accept-All t items h)

abbrev pub OtherKey : ItemKey → ItemKey → Type 0
OtherKey a b = a.id ≢ b.id

abbrev pub OtherItem : ItemKey × HostFacts → ItemKey × HostFacts → Type 0
OtherItem a b = OtherKey a.0 b.0

place-Apart :
    (taken : List Text) (i : Listed) (r : Result ItemProblem HostFacts)
    (next : List Text → Accepted)
    → ((t : List Text) → Apart OtherItem (next t).0 × All (λ a. OtherKey i.key a.0) (next t).0)
    → Apart OtherItem (place taken i r next).0
place-Apart taken i (err problem) next h = (h taken).0
place-Apart taken i (ok f) next h =
    if-case (λ (a : Accepted). Apart OtherItem a.0) (has_text (lowered f.alias) taken)
      (λ _. (h taken).0) (λ _. let (s, o) = h (lowered f.alias ∷ taken) in (o, s))

pub accept-Apart :
    (taken : List Text) (listed : List Listed)
    → Apart (λ i j. OtherKey i.key j.key) listed
    → Apart OtherItem (accept taken listed).0
accept-Apart taken [] h = tt
accept-Apart taken (i ∷ items) (o, h) =
    place-Apart taken i i.facts (λ t. accept t items)
      (λ t. (accept-Apart t items h, accept-All (OtherKey i.key) t items o))

-- the order in which items are tried
pub mirrored_first-All {κ} :
    (P : Listed → Type κ) (hosts : List HostProfile) (listed : List Listed)
    → All P listed
    → All P (mirrored_first hosts listed)
mirrored_first-All P hosts listed h =
    All-append P (keep (λ i. any (has_id i.key.id) hosts) listed)
      (keep (λ i. not (any (has_id i.key.id) hosts)) listed)
      (All-keep P (λ i. any (has_id i.key.id) hosts) listed h)
      (All-keep P (λ i. not (any (has_id i.key.id) hosts)) listed h)

pub mirrored_first-Apart :
    (hosts : List HostProfile) (listed : List Listed)
    → Apart (λ i j. OtherKey i.key j.key) listed
    → Apart (λ i j. OtherKey i.key j.key) (mirrored_first hosts listed)
mirrored_first-Apart hosts listed h =
    Apart-parts (λ i j. OtherKey i.key j.key) (λ i j o e. o (sym e))
      (λ i. any (has_id i.key.id) hosts) listed h

-- the names of accepted items: none is taken, and no two are the same but for the case of letters
abbrev pub IsNamed : List Text → List (ItemKey × HostFacts) → Type 0
IsNamed taken [] = Unit
IsNamed taken (a ∷ rest) =
    (has_text (lowered a.1.alias) taken ≡ false) × IsNamed (lowered a.1.alias ∷ taken) rest

place-IsNamed :
    (taken : List Text) (i : Listed) (r : Result ItemProblem HostFacts)
    (next : List Text → Accepted)
    → ((t : List Text) → IsNamed t (next t).0)
    → IsNamed taken (place taken i r next).0
place-IsNamed taken i (err problem) next h = h taken
place-IsNamed taken i (ok f) next h =
    if-case (λ (a : Accepted). IsNamed taken a.0) (has_text (lowered f.alias) taken) (λ _. h taken)
      (λ e. (e, h (lowered f.alias ∷ taken)))

pub accept-IsNamed :
    (taken : List Text) (listed : List Listed) → IsNamed taken (accept taken listed).0
accept-IsNamed taken [] = tt
accept-IsNamed taken (i ∷ items) =
    place-IsNamed taken i i.facts (λ t. accept t items) (λ t. accept-IsNamed t items)

place-told :
    (n : ℕ) (taken : List Text) (i : Listed) (r : Result ItemProblem HostFacts)
    (next : List Text → Accepted)
    → ((t : List Text) → length (next t).0 + length (next t).1 ≡ n)
    → length (place taken i r next).0 + length (place taken i r next).1 ≡ suc n
place-told n taken i (err problem) next h = omega (arith, h taken)
place-told n taken i (ok f) next h =
    if-case (λ (a : Accepted). length a.0 + length a.1 ≡ suc n) (has_text (lowered f.alias) taken)
      (λ _. omega (arith, h taken)) (λ _. omega (arith, h (lowered f.alias ∷ taken)))

-- each item is accepted or told of
pub accept-told :
    (taken : List Text) (listed : List Listed)
    → length (accept taken listed).0 + length (accept taken listed).1 ≡ length listed
accept-told taken [] = refl
accept-told taken (i ∷ items) =
    place-told (length items) taken i i.facts (λ t. accept t items) (λ t. accept-told t items)
