-- ===== src/Prelude/Parts.antt =====
-- A list and the two parts into which a test divides it.
use Prim.Native.Nat.{◌+◌, ◌≤◌}
use mathlib.Core.Path.{◌≡◌, refl, sym, ap, ◌∙◌}
use mathlib.Core.Bool.{Bool, true, false, not}
use mathlib.Core.List.{List, [], ◌∷◌, ◌++◌, map}
use native.Mathlib.Omega.{arith}
use codex_hosts.Prelude.Tests.{Bool-cases, if-case}
use mathlib.Core.Logic.{inl, inr}
use codex_hosts.Prelude.Alls.{All-keep, Apart}
use codex_hosts.Prelude.Lists.{All-append, All, keep, count, length}
use codex_hosts.Prelude.Strings.{is_empty}

module _ {ℓ} {A : Type ℓ} (p : A → Bool) where
  pub count-parts {κ} :
      {B : Type κ} (q : B → Bool) (f : A → B) (xs : List A)
      → count q (map f (keep p xs)) + count q (map f (keep (λ x. not (p x)) xs))
        ≡ count q (map f xs)
  count-parts q f [] = omega arith
  count-parts q f (x ∷ xs) = ground (arith, count-parts q f xs)

  pub length-parts :
      (xs : List A) → length (keep p xs) + length (keep (λ x. not (p x)) xs) ≡ length xs
  length-parts [] = omega arith
  length-parts (x ∷ xs) = ground (arith, length-parts xs)

  -- what is kept passes, and has what all elements have
  pub keep-All {κ} :
      (P : A → Type κ) (xs : List A) → All P xs → All (λ x. (p x ≡ true) × P x) (keep p xs)
  keep-All P [] h = tt
  keep-All P (x ∷ xs) (h, hs) =
      let rest = keep-All P xs hs in
      if-case (All (λ x. (p x ≡ true) × P x)) (p x) (λ e. ((e, h), rest)) (λ _. rest)

  pub keep-nil : (xs : List A) → is_empty (keep p xs) ≡ true → All (λ x. p x ≡ false) xs
  keep-nil [] h = tt
  keep-nil (x ∷ xs) h =
      if-case (λ ys. is_empty ys ≡ true → (p x ≡ false) × All (λ y. p y ≡ false) xs) (p x)
        (λ _ e. cc) (λ f e. (f, keep-nil xs e)) h

module _ {ℓ κ ι} {A : Type ℓ} {B : Type κ} (P : B → Type ι) (f : A → B) where
  pub All-of_map : (xs : List A) → All (λ x. P (f x)) xs → All P (map f xs)
  All-of_map [] a = tt
  All-of_map (x ∷ xs) (p, a) = (p, All-of_map xs a)

module _ {ℓ κ ι ο} {A : Type ℓ} (P : A → Type κ) (Q : A → Type ι) (R : A → Type ο) where
  pub All-both : (xs : List A) → ((x : A) → P x → Q x → R x) → All P xs → All Q xs → All R xs
  All-both [] f h k = tt
  All-both (x ∷ xs) f (p, h) (q, k) = (f x p q, All-both xs f h k)

pub keep-keep {ℓ} :
    {A : Type ℓ} (p q : A → Bool) (xs : List A)
    → ((x : A) → q x ≡ true → p x ≡ true)
    → keep q (keep p xs) ≡ keep q xs
keep-keep p q [] h = refl
keep-keep p q (x ∷ xs) h =
    let rest = keep-keep p q xs h in
    let here = h x in
    if-case (λ ys. keep q ys ≡ keep q (x ∷ xs)) (p x) (λ t. rw rest refl)
      (λ f.
        if-case (λ zs. keep q (keep p xs) ≡ zs) (q x) (λ t. let passed : p x ≡ true = here t in cc)
          (λ _. rest))

pub is_empty-map {ℓ κ} :
    {A : Type ℓ} {B : Type κ} (f : A → B) (xs : List A) → is_empty (map f xs) ≡ is_empty xs
is_empty-map f [] = refl
is_empty-map f (x ∷ xs) = refl

pub length-pos {ℓ} : {A : Type ℓ} (xs : List A) → is_empty xs ≡ false → 1 ≤ length xs
length-pos [] h = cc
length-pos (x ∷ xs) h = omega arith

pub keep_equal {ℓ} :
    {A : Type ℓ} (p q : A → Bool) (xs ys : List A)
    → ((x : A) → q x ≡ true → p x ≡ true)
    → keep p xs ≡ keep p ys
    → keep q xs ≡ keep q ys
keep_equal p q xs ys h e = sym (keep-keep p q xs h) ∙ ap (keep q) e ∙ keep-keep p q ys h

module _ {ℓ κ} {A : Type ℓ} (P : A → Type κ) where
  pub All-intro : ((x : A) → P x) → (xs : List A) → All P xs
  All-intro h [] = tt
  All-intro h (x ∷ xs) = (h x, All-intro h xs)

-- The two parts, one behind the other, where the relation goes both ways.
module _ {ℓ κ} {A : Type ℓ} (R : A → A → Type κ) (sym_R : (x y : A) → R x y → R y x) where
  All-insert :
      (P : A → Type κ) (xs ys : List A) (z : A) → P z → All P (xs ++ ys) → All P (xs ++ z ∷ ys)
  All-insert P [] ys z p h = (p, h)
  All-insert P (x ∷ xs) ys z p (q, h) = (q, All-insert P xs ys z p h)

  Apart-insert :
      (xs ys : List A) (z : A) → All (R z) (xs ++ ys) → Apart R (xs ++ ys) → Apart R (xs ++ z ∷ ys)
  Apart-insert [] ys z h a = (h, a)
  Apart-insert (x ∷ xs) ys z (r, h) (q, a) =
      (All-insert (R x) xs ys z (sym_R z x r) q, Apart-insert xs ys z h a)

  pub Apart-parts :
      (p : A → Bool) (xs : List A) → Apart R xs → Apart R (keep p xs ++ keep (λ x. not (p x)) xs)
  Apart-parts p [] a = tt
  Apart-parts p (x ∷ xs) (h, a) =
      let rest = Apart-parts p xs a in
      let all =
        All-append (R x) (keep p xs) (keep (λ y. not (p y)) xs) (All-keep (R x) p xs h)
          (All-keep (R x) (λ y. not (p y)) xs h) in
      elim (Bool-cases (p x)) [
        | inl t ↦ rw t (all, rest)
        | inr f ↦ rw f (Apart-insert (keep p xs) (keep (λ y. not (p y)) xs) x all rest)
      ]
