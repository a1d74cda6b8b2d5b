-- ===== src/Text/Kept.antt =====
-- What trimming and splitting keep of a text.
use codex_hosts.Prelude.{
  ℕ, ◌≡◌, refl, sym, ap, ◌∙◌, inl, inr, Bool, true, false, ◌&&◌, [], ◌∷◌, if◌then◌else◌, Text,
  is_empty, Bool-cases, All, if-case,
}
use codex_hosts.Text.{trim, is_whitespace, trim_start, trim_end}

module _ {κ} (P : ℕ → Type κ) where
  trim_start-All : (s : Text) → All P s → All P (trim_start s)
  unfolding trim_start
  trim_start-All [] h = tt
  trim_start-All (c ∷ s) (p, h) =
      let rest = trim_start-All s h in if-case (All P) (is_whitespace c) (λ _. rest) (λ _. (p, h))

  trim_end-All : (s : Text) → All P s → All P (trim_end s)
  unfolding trim_end
  trim_end-All [] h = tt
  trim_end-All (c ∷ s) (p, h) =
      let rest = trim_end-All s h in
      if-case (All P) (is_whitespace c && is_empty (trim_end s)) (λ _. tt) (λ _. (p, rest))

  pub trim-All : (s : Text) → All P s → All P (trim s)
  unfolding trim
  trim-All s h = trim_end-All (trim_start s) (trim_start-All s h)

trim_end-twice : (s : Text) → trim_end (trim_end s) ≡ trim_end s
unfolding trim_end
trim_end-twice [] = refl
trim_end-twice (c ∷ s) =
    let rest = trim_end-twice s in if-case-with (is_whitespace c && is_empty (trim_end s)) refl rest
  where
    if-case-with :
        (b : Bool)
        → (is_whitespace c && is_empty (trim_end s)) ≡ b
        → trim_end (trim_end s) ≡ trim_end s
        → trim_end (if b then [] else c ∷ trim_end s) ≡ (if b then [] else c ∷ trim_end s)
    if-case-with true e rest = refl
    if-case-with false e rest = rw (rest, e) refl

trim_start-visible : (c : ℕ) (s : Text) → is_whitespace c ≡ false → trim_start (c ∷ s) ≡ c ∷ s
unfolding trim_start
trim_start-visible c s e = rw e refl

trim_end-first : (c : ℕ) (s : Text) → is_whitespace c ≡ false → trim_end (c ∷ s) ≡ c ∷ trim_end s
unfolding trim_end
trim_end-first c s e = rw e refl

pub trim-twice : (s : Text) → trim (trim s) ≡ trim s
unfolding trim trim_start
trim-twice [] = refl
trim-twice (c ∷ s) = elim (Bool-cases (is_whitespace c)) [
  | inl e ↦ rw e (trim-twice s)
  | inr e ↦ rw e (
      ap (λ t. trim_end (trim_start t)) (trim_end-first c s e)
      ∙ ap trim_end (trim_start-visible c (trim_end s) e)
      ∙ ap trim_end (sym (trim_end-first c s e))
      ∙ trim_end-twice (c ∷ s))
]
