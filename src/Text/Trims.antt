-- ===== src/Text/Trims.antt =====
-- Trimming texts that are put together from parts.
use codex_hosts.Prelude.{
  ℕ, ◌≤◌, ◌≡◌, refl, ap, inl, inr, Bool, true, false, ◌&&◌, [], ◌∷◌, ◌++◌, if◌then◌else◌, Text,
  is_empty, length, arith, Bool-cases, All, if-case,
}
use codex_hosts.Text.{trim, is_whitespace, trim_start, trim_end}

abbrev pub IsClean : Text → Type 0
IsClean s = All (λ c. is_whitespace c ≡ false) s

-- the printable characters of ASCII
pub visible : (c : ℕ) → 33 ≤ c → c ≤ 126 → is_whitespace c ≡ false
unfolding is_whitespace
visible c l k = ground arith

pub trim_end-clean : (s : Text) → IsClean s → trim_end s ≡ s
unfolding trim_end
trim_end-clean [] h = refl
trim_end-clean (c ∷ s) (f, h) = rw (f, trim_end-clean s h) refl

pub trim_end-append :
    (s t : Text) → trim_end t ≡ t → is_empty t ≡ false → trim_end (s ++ t) ≡ s ++ t
unfolding trim_end
trim_end-append [] t h e = h
trim_end-append (c ∷ s) t h e =
    let rest = trim_end-append s t h e in
    let some_left : is_empty (s ++ t) ≡ false = is_empty-append s t e in
    rw (rest, some_left)
      (if-case (λ (r : Text). r ≡ c ∷ (s ++ t)) (is_whitespace c && false) (λ f. ground arith)
        (λ _. refl))
  where
    is_empty-append : (s t : Text) → is_empty t ≡ false → is_empty (s ++ t) ≡ false
    is_empty-append [] t e = e
    is_empty-append (c ∷ s) t e = refl

pub trim-clean : (s : Text) → IsClean s → trim s ≡ s
unfolding trim trim_start
trim-clean [] h = refl
trim-clean (c ∷ s) (f, h) = rw f (trim_end-clean (c ∷ s) (f, h))

length-trim_end : (s : Text) → length (trim_end s) ≤ length s
unfolding trim_end
length-trim_end [] = omega arith
length-trim_end (c ∷ s) =
    let rest = length-trim_end s in
    if-case (λ (r : Text). length r ≤ length (c ∷ s)) (is_whitespace c && is_empty (trim_end s))
      (λ _. omega arith) (λ _. omega arith)

length-trim_start : (s : Text) → length (trim_start s) ≤ length s
unfolding trim_start
length-trim_start [] = omega arith
length-trim_start (c ∷ s) =
    let rest = length-trim_start s in
    if-case (λ (r : Text). length r ≤ length (c ∷ s)) (is_whitespace c) (λ _. omega arith)
      (λ _. omega arith)

-- a text that trimming keeps does not begin with white space
trimmed-first : (c : ℕ) (s : Text) → trim (c ∷ s) ≡ c ∷ s → is_whitespace c ≡ false
unfolding trim trim_start
trimmed-first c s h = elim (Bool-cases (is_whitespace c)) [
  | inl e ↦
      let same : trim_end (trim_start s) ≡ c ∷ s =
        if-case-eq (is_whitespace c) (trim_start s) (c ∷ s) (c ∷ s) e h in
      let short = length-trim_start s in
      let shorter = length-trim_end (trim_start s) in
      let long : length (trim_end (trim_start s)) ≡ length (c ∷ s) = ap length same in
      absurd (omega arith)
  | inr e ↦ e
]
  where
    if-case-eq :
        (b : Bool) (x y z : Text) → b ≡ true → trim_end (if b then x else y) ≡ z → trim_end x ≡ z
    if-case-eq true x y z e h = h
    if-case-eq false x y z e h = cc

-- A text with no white space at its two ends.
pub trim-around :
    (c : ℕ) (s t : Text)
    → is_whitespace c ≡ false
    → IsClean t
    → is_empty t ≡ false
    → trim (c ∷ (s ++ t)) ≡ c ∷ (s ++ t)
unfolding trim trim_start
trim-around c s t f h e = rw f (trim_end-append (c ∷ s) t (trim_end-clean t h) e)

-- A text that begins with one that trimming keeps, and ends with clean characters.
pub trim-append :
    (s t : Text)
    → trim s ≡ s
    → is_empty s ≡ false
    → IsClean t
    → is_empty t ≡ false
    → trim (s ++ t) ≡ s ++ t
trim-append [] t k n h e = cc
trim-append (c ∷ s) t k n h e = trim-around c s t (trimmed-first c s k) h e
