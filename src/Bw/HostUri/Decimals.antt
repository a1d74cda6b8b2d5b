-- ===== src/Bw/HostUri/Decimals.antt =====
-- A port in decimal digits, and back.
use codex_hosts.Prelude.{
  ℕ, zero, suc, ◌+◌, ◌-◌, ◌<◌, ◌≡◌, ◌≢◌, refl, sym, ap, ◌∙◌, true, false, ◌&&◌, some, [], ◌∷◌, ◌++◌,
  ltb, ◌==◌, Text, arith, append_assoc, append-nil, All, All-append, ◌*◌, ◌/◌, ◌%◌, ◌^◌, if-case,
}
use codex_hosts.Bw.HostUri.{decimal, is_digit, parse_digits, parse_u16}

pub decimal-IsDigits : (fuel n : ℕ) → All (λ c. is_digit c ≡ true) (decimal fuel n)
unfolding decimal
decimal-IsDigits zero n = tt
decimal-IsDigits (suc fuel) n =
    let last : is_digit (b'0' + n % 10) ≡ true = ground arith in
    if-case (All (λ c. is_digit c ≡ true)) (ltb n 10) (λ _. (last, tt))
      (λ _.
        All-append (λ c. is_digit c ≡ true) (decimal fuel (n / 10)) _
          (decimal-IsDigits fuel (n / 10)) (last, tt))

parse_digits-last :
    (n : ℕ) (more : Text)
    → n < 2 ^ 16
    → parse_digits (n / 10) ((b'0' + n % 10) ∷ more) ≡ parse_digits n more
unfolding parse_digits
parse_digits-last n more l =
    let fits : (is_digit (b'0' + n % 10) && ltb (n / 10 * 10 + (b'0' + n % 10 - b'0')) (2 ^ 16))
        ≡ true =
      ground arith in
    let same : n / 10 * 10 + (b'0' + n % 10 - b'0') ≡ n = omega arith in rw (fits, same) refl

parse_digits-decimal :
    (fuel n : ℕ) (more : Text)
    → n < 10 ^ suc fuel
    → n < 2 ^ 16
    → parse_digits 0 (decimal (suc fuel) n ++ more) ≡ parse_digits n more
unfolding decimal
parse_digits-decimal zero n more l k =
    let small : ltb n 10 ≡ true = ground arith in
    let none_before : n / 10 ≡ 0 = omega arith in
    rw small (
      ap (λ m. parse_digits m ((b'0' + n % 10) ∷ more)) (sym none_before)
      ∙ parse_digits-last n more k)
parse_digits-decimal (suc fuel) n more l k =
    let rest =
      parse_digits-decimal fuel (n / 10) ((b'0' + n % 10) ∷ more) (omega arith) (omega arith) in
    if-case (λ (s : Text). parse_digits 0 (s ++ more) ≡ parse_digits n more) (ltb n 10)
      (λ small.
        let none_before : n / 10 ≡ 0 = ground arith in
        ap (λ m. parse_digits m ((b'0' + n % 10) ∷ more)) (sym none_before)
        ∙ parse_digits-last n more k)
      (λ _.
        ap (parse_digits 0) (append_assoc (decimal (suc fuel) (n / 10)) ((b'0' + n % 10) ∷ []) more)
        ∙ rest
        ∙ parse_digits-last n more k)

decimal-cons : (fuel n : ℕ) → decimal (suc fuel) n ≢ []
unfolding decimal
decimal-cons fuel n =
    if-case (λ (s : Text). s ≢ []) (ltb n 10) (λ _ e. cc) (λ _. behind_any (decimal fuel (n / 10)))
  where
    behind_any : (s : Text) → s ++ (b'0' + n % 10) ∷ [] ≢ []
    behind_any [] e = cc
    behind_any (c ∷ s) e = cc

-- the sign is not taken for a digit
parse_u16-digits :
    (s : Text) → s ≢ [] → All (λ c. is_digit c ≡ true) s → parse_u16 s ≡ parse_digits 0 s
unfolding parse_u16
parse_u16-digits [] n h = absurd (n refl)
parse_u16-digits (c ∷ s) n (d, h) =
    let not_sign : (c == b'+') ≡ false = ground arith in rw not_sign refl

pub parse_u16-decimal : (n : ℕ) → n < 2 ^ 16 → parse_u16 (decimal 5 n) ≡ some n
unfolding parse_digits
parse_u16-decimal n l =
    parse_u16-digits (decimal 5 n) (decimal-cons 4 n) (decimal-IsDigits 5 n)
    ∙ ap (parse_digits 0) (sym (append-nil (decimal 5 n)))
    ∙ parse_digits-decimal 4 n [] (omega arith) l
