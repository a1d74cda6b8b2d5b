-- ===== src/Prelude/Strings.antt =====
-- Byte strings (`[u8]`), and texts as lists of code points (`str`, by its `chars`).
use Prim.Native.Nat.{ℕ, zero, suc, ◌≤◌, ◌<◌}
use Prim.Native.Char.{code}
use Prim.Native.String.{String}
use mathlib.Core.Path.{◌≡◌, refl}
use mathlib.Core.Logic.{◌↔◌}
use mathlib.Core.Bool.{Bool, true, false, ◌&&◌, ◌||◌}
use mathlib.Core.List.{List, [], ◌∷◌, ◌++◌}
use mathlib.Core.Option.{Option, none, some}
use native.Mathlib.Omega.{arith}
use codex_hosts.Prelude.Tests.{if◌then◌else◌, ◌==◌}
use codex_hosts.Prelude.Lists.{length, take, drop}

abbrev pub Bytes : Type 0
Bytes = List ℕ

abbrev pub Text : Type 0
Text = List ℕ

-- A text literal: the code points of a `String`.
abbrev pub codes : String → Text
codes String.[] = []
codes (String.◌∷◌ c s) = code c ∷ codes s

infix 50 ◌=ᵗ◌
abbrev pub ◌=ᵗ◌ : Bytes → Bytes → Bool
[] =ᵗ [] = true
[] =ᵗ (_ ∷ _) = false
(_ ∷ _) =ᵗ [] = false
(x ∷ xs) =ᵗ (y ∷ ys) = x == y && xs =ᵗ ys

-- `starts_with`
abbrev pub starts_with : Bytes → Bytes → Bool
starts_with xs [] = true
starts_with [] (p ∷ ps) = false
starts_with (x ∷ xs) (p ∷ ps) = x == p && starts_with xs ps

-- `contains` of a text
abbrev pub contains : Bytes → Bytes → Bool
contains [] needle = starts_with [] needle
contains (x ∷ xs) needle = starts_with (x ∷ xs) needle || contains xs needle

-- `position(|b| b == c)`
abbrev pub position : ℕ → Bytes → Option ℕ
position c [] = none
position c (x ∷ xs) =
    if x == c then some 0 else elim (position c xs) [ none ↦ none | some i ↦ some (suc i) ]

abbrev pub is_empty {ℓ} : {A : Type ℓ} → List A → Bool
is_empty [] = true
is_empty (_ ∷ _) = false

pub text_eq_iff : (xs ys : Bytes) → ((xs =ᵗ ys) ≡ true) ↔ (xs ≡ ys)
text_eq_iff [] [] = ground arith
text_eq_iff [] (y ∷ ys) = ground arith
text_eq_iff (x ∷ xs) [] = ground arith
text_eq_iff (x ∷ xs) (y ∷ ys) = ground (arith, text_eq_iff xs ys)

pub text_eq_refl : (xs : Bytes) → (xs =ᵗ xs) ≡ true
text_eq_refl xs = (text_eq_iff xs xs).1 refl

pub starts_with-append : (p xs : Bytes) → starts_with (p ++ xs) p ≡ true
starts_with-append [] xs = refl
starts_with-append (p ∷ ps) xs = ground (arith, starts_with-append ps xs)

pub starts_with_split : (xs p : Bytes) → starts_with xs p ≡ true → xs ≡ p ++ drop (length p) xs
starts_with_split [] [] h = refl
starts_with_split (x ∷ xs) [] h = refl
starts_with_split [] (p ∷ ps) h = ground arith
starts_with_split (x ∷ xs) (p ∷ ps) h = ground (arith, starts_with_split xs ps)

pub length-le_of_starts_with : (xs p : Bytes) → starts_with xs p ≡ true → length p ≤ length xs
length-le_of_starts_with xs [] h = omega arith
length-le_of_starts_with [] (p ∷ ps) h = ground arith
length-le_of_starts_with (x ∷ xs) (p ∷ ps) h = ground (arith, length-le_of_starts_with xs ps)

-- What stands before and behind the byte that `position` finds.
pub position_split :
    (c : ℕ) (xs : Bytes) (i : ℕ) → position c xs ≡ some i → xs ≡ take i xs ++ c ∷ drop (suc i) xs
position_split c [] i h = cc
position_split c (x ∷ xs) zero h = ground arith
position_split c (x ∷ xs) (suc i) h = ground (arith, position_split c xs i)

pub position-lt : (c : ℕ) (xs : Bytes) (i : ℕ) → position c xs ≡ some i → i < length xs
position-lt c [] i h = cc
position-lt c (x ∷ xs) zero h = omega arith
position-lt c (x ∷ xs) (suc i) h = ground (arith, position-lt c xs i)

pub eq-nil_of_is_empty {ℓ} : {A : Type ℓ} (xs : List A) → is_empty xs ≡ true → xs ≡ []
eq-nil_of_is_empty [] h = refl
eq-nil_of_is_empty (x ∷ xs) h = cc
