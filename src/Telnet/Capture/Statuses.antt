-- ===== src/Telnet/Capture/Statuses.antt =====
-- What a transcript says of the end of a command, read with no regard to how it came in.
use codex_hosts.Prelude.{
  ℕ, suc, ◌+◌, ◌-◌, ◌≤◌, ◌<◌, ◌≡◌, ◌≢◌, refl, sym, ap, ◌∙◌, inl, inr, ◌⊎◌, Bool, true, false, not,
  ◌&&◌, Option, none, some, [], ◌∷◌, ◌++◌, if◌then◌else◌, ltb, ◌==◌, Bytes, starts_with, length,
  drop, arith, Bool-cases, Option-cases, none_ne_some, starts_with_split, append-nil, length-append,
  All, ◌*◌, ◌^◌, if-case,
}
use codex_hosts.Telnet.Capture.{
  find_in, is_digit, leading_digits, value_from, parse_i32, end_status, at_marker,
}
use codex_hosts.Telnet.Capture.Marker.{find_in-empty, find_in-here, find_in-cons, shifted-some}

abbrev pub IsDigit : ℕ → Type 0
IsDigit c = (48 ≤ c) × (c ≤ 57)

abbrev pub BeginsOther : Bytes → Type 0
BeginsOther [] = Unit
BeginsOther (c ∷ t) = ¬ IsDigit c

-- a number in decimal digits, by their places
unfoldable pub value : Bytes → ℕ
value [] = 0
value (d ∷ ds) = (d - 48) * 10 ^ length ds + value ds

-- the code that a run of digits stands for: none where there is none, or where it is too large
abbrev pub IsCode : Bytes → Option ℕ → Type 0
IsCode digits none = (digits ≡ []) ⊎ (2 ^ 31 ≤ value digits)
IsCode digits (some n) = (digits ≢ []) × (n ≡ value digits) × (n < 2 ^ 31)

-- The first end marker, all the digits behind it and what follows them.
pub record HasStatus (marker transcript : Bytes) (code : Option ℕ) : Type 0 where
  pub before : Bytes
  pub digits : Bytes
  pub tail : Bytes
  pub whole : transcript ≡ before ++ (marker ++ (digits ++ tail))
  pub first : find_in transcript marker ≡ some (length before)
  pub all_digits : All IsDigit digits
  pub no_more : BeginsOther tail
  pub means : IsCode digits code

-- no end marker, or one with digits that may go on
abbrev pub HasNoStatus : Bytes → Bytes → Type 0
HasNoStatus marker transcript =
    (find_in transcript marker ≡ none)
    ⊎ ((before : Bytes) × (digits : Bytes) × (transcript ≡ before ++ (marker ++ digits))
        × (find_in transcript marker ≡ some (length before))
        × All IsDigit digits)

value_from-value : (n : ℕ) (ds : Bytes) → value_from n ds ≡ n * 10 ^ length ds + value ds
unfolding value value_from
value_from-value n [] = omega arith
value_from-value n (d ∷ ds) =
    let more : 10 ^ suc (length ds) ≡ 10 * 10 ^ length ds = grind arith in
    value_from-value (n * 10 + (d - 48)) ds
    ∙ spread n (d - 48) (10 ^ length ds) (value ds)
    ∙ ap (λ k. n * k + ((d - 48) * 10 ^ length ds + value ds)) (sym more)
  where
    spread : (a b k v : ℕ) → (a * 10 + b) * k + v ≡ a * (10 * k) + (b * k + v)
    spread a b k v = grind arith

parse_i32-IsCode : (ds : Bytes) → IsCode ds (parse_i32 ds)
unfolding parse_i32
parse_i32-IsCode [] = inl refl
parse_i32-IsCode (d ∷ ds) =
    let same : value_from 0 (d ∷ ds) ≡ value (d ∷ ds) = value_from-value 0 (d ∷ ds) ∙ omega arith in
    if-case (IsCode (d ∷ ds)) (ltb (value_from 0 (d ∷ ds)) (2 ^ 31))
      (λ e. ((λ f. cc), same, ground arith)) (λ e. inr (ground arith))

digits-split :
    (t : Bytes)
    → (tail : Bytes) × (t ≡ leading_digits t ++ tail)
      × All IsDigit (leading_digits t)
      × BeginsOther tail
unfolding leading_digits
digits-split [] = ([], refl, tt, tt)
digits-split (c ∷ t) =
    let (tail, whole, all_digits, other) = digits-split t in
    if-case
      (λ (ds : Bytes). (tail : Bytes) × (c ∷ t ≡ ds ++ tail) × All IsDigit ds × BeginsOther tail)
      (is_digit c)
      (λ e. (tail, ap (λ s. c ∷ s) whole, ((ground arith, ground arith), all_digits), other))
      (λ e. (c ∷ t, refl, tt, λ (l, k). ground arith))

find_in-split :
    (t m : Bytes) (at : ℕ)
    → find_in t m ≡ some at
    → (before : Bytes) × (k : ℕ) × (length before ≡ at)
      × (k ≡ at + length m)
      × (t ≡ before ++ (m ++ drop k t))
find_in-split [] m at h = absurd (find_in-empty m at h)
find_in-split (x ∷ t) m at h = elim (Bool-cases (starts_with (x ∷ t) m)) [
  | inl e ↦
      let here : some 0 ≡ some at = sym (find_in-here x t m e) ∙ h in
      let zero_at : 0 ≡ at = ground arith in
      ([], length m, zero_at, omega arith, starts_with_split (x ∷ t) m e)
  | inr e ↦
      let (j, f, there) = shifted-some 1 (find_in t m) at (sym (find_in-cons x t m e) ∙ h) in
      let (before, k, l, far, whole) = find_in-split t m j f in
      (x ∷ before, suc k, omega arith, omega arith, ap (λ s. x ∷ s) whole)
]

-- what is found behind the marker
module _ (marker transcript : Bytes) (is_closed : Bool) where
  abbrev pub reported : Option (Option ℕ)
  reported = at_marker (find_in transcript marker) (λ at. end_status transcript at marker is_closed)

  complete :
      (at : ℕ) (code : Option ℕ)
      → find_in transcript marker ≡ some at
      → end_status transcript at marker is_closed ≡ some code
      → (s : HasStatus marker transcript code) × ((is_closed ≡ true) ⊎ (s.tail ≢ []))
  unfolding end_status
  complete at code f h =
      let (before, k, l, far, whole) = find_in-split transcript marker at f in
      let (tail, parts, all_digits, other) = digits-split (drop k transcript) in
      let same : drop k transcript ≡ drop (at + length marker) transcript =
        ap (λ n. drop n transcript) far in
      let digits = leading_digits (drop k transcript) in
      let h' = (rw (← same) at h) in
      let waits = length digits == length (drop k transcript) && not is_closed in
      let go : waits ≡ false × (parse_i32 digits ≡ code) = answered waits (parse_i32 digits) h' in
      (
        record {
          before = before;
          digits = digits;
          tail = tail;
          whole = whole ∙ ap (λ s. before ++ (marker ++ s)) parts;
          first = f ∙ ap some (sym l);
          all_digits = all_digits;
          no_more = other;
          means = rw (← go.1) (parse_i32-IsCode digits);
        },
        ended is_closed tail digits (drop k transcript) parts go.0,
      )
    where
      answered :
          (b : Bool) (c : Option ℕ)
          → (if b then none else some c) ≡ some code
          → (b ≡ false) × (c ≡ code)
      answered true c e = cc
      answered false c e = (refl, ground arith)

      ended :
          (b : Bool) (tail digits rest : Bytes)
          → rest ≡ digits ++ tail
          → (length digits == length rest && not b) ≡ false
          → (b ≡ true) ⊎ (tail ≢ [])
      ended true tail digits rest p e = inl refl
      ended false [] digits rest p e =
          let l : length rest ≡ length digits = ap length (p ∙ append-nil digits) in
          absurd (ground arith)
      ended false (x ∷ tail) digits rest p e = inr (λ f. cc)

  pub reported-HasStatus :
      (code : Option ℕ)
      → reported ≡ some code
      → (s : HasStatus marker transcript code) × ((is_closed ≡ true) ⊎ (s.tail ≢ []))
  reported-HasStatus code h = elim (Option-cases (find_in transcript marker)) [
    | inl e ↦ absurd (none_ne_some (rw e at h))
    | inr (at, e) ↦ complete at code e (rw e at h)
  ]

incomplete :
    (marker transcript : Bytes) (at : ℕ)
    → find_in transcript marker ≡ some at
    → end_status transcript at marker false ≡ none
    → HasNoStatus marker transcript
unfolding end_status
incomplete marker transcript at f h =
    let (before, k, l, far, whole) = find_in-split transcript marker at f in
    let (tail, parts, all_digits, other) = digits-split (drop k transcript) in
    let same : drop k transcript ≡ drop (at + length marker) transcript =
      ap (λ n. drop n transcript) far in
    let digits = leading_digits (drop k transcript) in
    let h' = (rw (← same) at h) in
    let all_there = waiting (length digits == length (drop k transcript)) (parse_i32 digits) h' in
    let l' : length (drop k transcript) ≡ length digits + length tail =
      ap length parts ∙ length-append digits tail in
    let no_tail : tail ≡ [] = none_left tail (ground arith) in
    inr (
      before,
      digits,
      whole
          ∙ ap (λ s. before ++ (marker ++ s))
              (parts ∙ ap (λ s. digits ++ s) no_tail ∙ append-nil digits),
      f ∙ ap some (sym l),
      all_digits,
    )
  where
    waiting : (b : Bool) (c : Option ℕ) → (if b && true then none else some c) ≡ none → b ≡ true
    waiting true c e = refl
    waiting false c e = cc

    none_left : (tail : Bytes) → length tail ≡ 0 → tail ≡ []
    none_left [] e = refl
    none_left (x ∷ tail) e = absurd (omega (arith, e))

pub reported-HasNoStatus :
    (marker transcript : Bytes)
    → reported marker transcript false ≡ none
    → HasNoStatus marker transcript
reported-HasNoStatus marker transcript h = elim (Option-cases (find_in transcript marker)) [
  | inl e ↦ inl e
  | inr (at, e) ↦ incomplete marker transcript at e (rw e at h)
]
