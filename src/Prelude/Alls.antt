-- ===== src/Prelude/Alls.antt =====
-- What holds of all elements of a list, through the operations that change it.
use mathlib.Core.Path.{◌≡◌}
use mathlib.Core.Bool.{Bool, true}
use mathlib.Core.List.{List, [], ◌∷◌, ◌++◌, map}
use mathlib.Core.Option.{some}
use codex_hosts.Prelude.Tests.{if-case}
use codex_hosts.Prelude.Lists.{All, All-append, keep, remove_first, update_first, find}

module _ {ℓ κ} {A : Type ℓ} (P : A → Type κ) where
  pub All-map : (f : A → A) (xs : List A) → ((x : A) → P x → P (f x)) → All P xs → All P (map f xs)
  All-map f [] h a = tt
  All-map f (x ∷ xs) h (p, a) = (h x p, All-map f xs h a)

  pub All-keep : (p : A → Bool) (xs : List A) → All P xs → All P (keep p xs)
  All-keep p [] a = tt
  All-keep p (x ∷ xs) (h, a) =
      let rest = All-keep p xs a in if-case (All P) (p x) (λ _. (h, rest)) (λ _. rest)

  pub All-remove_first : (p : A → Bool) (xs : List A) → All P xs → All P (remove_first p xs)
  All-remove_first p [] a = tt
  All-remove_first p (x ∷ xs) (h, a) =
      let rest = All-remove_first p xs a in if-case (All P) (p x) (λ _. a) (λ _. (h, rest))

  pub All-update_first :
      (p : A → Bool) (f : A → A) (xs : List A)
      → ((x : A) → P x → P (f x))
      → All P xs
      → All P (update_first p f xs)
  All-update_first p f [] g a = tt
  All-update_first p f (x ∷ xs) g (h, a) =
      let rest = All-update_first p f xs g a in
      if-case (All P) (p x) (λ _. (g x h, a)) (λ _. (h, rest))

  -- the same, where the change is right because the element has passed
  pub All-update_found :
      (p : A → Bool) (f : A → A) (xs : List A)
      → ((x : A) → p x ≡ true → P x → P (f x))
      → All P xs
      → All P (update_first p f xs)
  All-update_found p f [] g a = tt
  All-update_found p f (x ∷ xs) g (h, a) =
      let rest = All-update_found p f xs g a in
      if-case (All P) (p x) (λ e. (g x e h, a)) (λ _. (h, rest))

  pub find-All :
      (p : A → Bool) (xs : List A) {x : A} → All P xs → find p xs ≡ some x → P x × (p x ≡ true)
  find-All p [] a e = cc
  find-All p (y ∷ xs) {x} (h, a) e =
      let rest : find p xs ≡ some x → P x × (p x ≡ true) = find-All p xs a in
      if-case (λ o. o ≡ some x → P x × (p x ≡ true)) (p y)
        (λ t f. let same : y ≡ x = cc in rw (← same) (h, t)) (λ _. rest) e

module _ {ℓ κ ι} {A : Type ℓ} (P : A → Type κ) (Q : A → Type ι) where
  pub All-weaken : (xs : List A) → ((x : A) → P x → Q x) → All P xs → All Q xs
  All-weaken [] h a = tt
  All-weaken (x ∷ xs) h (p, a) = (h x p, All-weaken xs h a)

-- Each element is in relation to all behind it.
module _ {ℓ κ} {A : Type ℓ} (R : A → A → Type κ) where
  abbrev pub Apart : List A → Type κ
  Apart [] = Unit
  Apart (x ∷ xs) = All (R x) xs × Apart xs

  pub Apart-map :
      (f : A → A) (xs : List A) → ((x y : A) → R x y → R (f x) (f y)) → Apart xs → Apart (map f xs)
  Apart-map f [] h a = tt
  Apart-map f (x ∷ xs) h (p, a) = (all_map xs (h x) p, Apart-map f xs h a)
    where
      all_map :
          (ys : List A)
          → ((y : A) → R x y → R (f x) (f y))
          → All (R x) ys
          → All (R (f x)) (map f ys)
      all_map [] g b = tt
      all_map (y ∷ ys) g (q, b) = (g y q, all_map ys g b)

  pub Apart-keep : (p : A → Bool) (xs : List A) → Apart xs → Apart (keep p xs)
  Apart-keep p [] a = tt
  Apart-keep p (x ∷ xs) (h, a) =
      let rest = Apart-keep p xs a in
      if-case Apart (p x) (λ _. (All-keep (R x) p xs h, rest)) (λ _. rest)

  pub Apart-remove_first : (p : A → Bool) (xs : List A) → Apart xs → Apart (remove_first p xs)
  Apart-remove_first p [] a = tt
  Apart-remove_first p (x ∷ xs) (h, a) =
      let rest = Apart-remove_first p xs a in
      if-case Apart (p x) (λ _. a) (λ _. (All-remove_first (R x) p xs h, rest))

  pub Apart-update_first :
      (p : A → Bool) (f : A → A) (xs : List A)
      → ((x y : A) → R x y → R x (f y) × R (f x) y)
      → Apart xs
      → Apart (update_first p f xs)
  Apart-update_first p f [] g a = tt
  Apart-update_first p f (x ∷ xs) g (h, a) =
      let rest = Apart-update_first p f xs g a in
      if-case Apart (p x) (λ _. (All-weaken (R x) (R (f x)) xs (λ y r. (g x y r).1) h, a))
        (λ _. (All-update_first (R x) p f xs (λ y r. (g x y r).0) h, rest))

  pub Apart-concat : (xs : List A) (y : A) → All (λ x. R x y) xs → Apart xs → Apart (xs ++ y ∷ [])
  Apart-concat [] y h a = (tt, tt)
  Apart-concat (x ∷ xs) y (r, h) (p, a) =
      (All-append (R x) xs (y ∷ []) p (r, tt), Apart-concat xs y h a)
