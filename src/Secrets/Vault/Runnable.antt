-- ===== src/Secrets/Vault/Runnable.antt =====
-- What a request may ask to be started, read off the rules of the tool.
use codex_hosts.Prelude.{
  ℕ, ◌+◌, ◌≤◌, ◌≡◌, ◌≢◌, refl, ap, inl, inr, ◌⊎◌, Bool, true, false, ◌&&◌, ◌||◌, List, [], ◌∷◌, ltb,
  leb, ◌==◌, Text, is_empty, length, any, all, arith, Bool-cases, All, text_eq_iff, ◌*◌, All-weaken,
  Apart,
}
use codex_hosts.Text.{byte_len}
use codex_hosts.Model.Validation.{contains_text}
use codex_hosts.Secrets.Vault.{
  Execution, env_name_ok, env_names_ok, to_ascii_uppercase, bad_execution, bad_arg, sum_len,
  is_letter, is_digit,
}

abbrev pub total : List Text → ℕ
total [] = 0
total (a ∷ args) = byte_len a + total args

-- What the process of a request may be, read off the rules of the tool: an absolute program and
-- directory; at most 128 arguments, each of at most 8 KiB and without NUL, 32 KiB together; between
-- 1 ms and 10 minutes; and between one and as many variables as there may be fields.
pub record IsRunnable (is_absolute : Text → Bool) (e : Execution) : Type 0 where
  pub program : is_absolute e.program ≡ true
  pub directory : is_absolute e.cwd ≡ true
  pub args : length e.args ≤ 128
  pub each_arg : All (λ a. (byte_len a ≤ 8192) × All (λ c. c ≢ 0) a) e.args
  pub all_args : total e.args ≤ 32768
  pub time : (1 ≤ e.timeout_ms) × (e.timeout_ms ≤ 600000)
  pub variables : (1 ≤ length e.env) × (length e.env ≤ 64)

-- a name of a variable: at most 256 bytes, a letter or _ first, letters, digits and _ behind
abbrev pub IsLetter : ℕ → Type 0
IsLetter c = (c ≡ 95) ⊎ (((97 ≤ c) × (c ≤ 122)) ⊎ ((65 ≤ c) × (c ≤ 90)))

abbrev pub IsVariable : Text → Type 0
IsVariable [] = ⊥
IsVariable (c ∷ name) =
    (byte_len (c ∷ name) ≤ 256) × IsLetter c × All (λ d. IsLetter d ⊎ ((48 ≤ d) × (d ≤ 57))) name

-- not the same but for the case of letters
abbrev pub DifferInCapitals : Text × Text → Text × Text → Type 0
DifferInCapitals x y = to_ascii_uppercase x.0 ≢ to_ascii_uppercase y.0

total-sum_len : (args : List Text) → total args ≡ sum_len args
total-sum_len [] = refl
total-sum_len (a ∷ args) = ap (λ n. byte_len a + n) (total-sum_len args)

no_nul : (a : Text) → any (λ c. c == 0) a ≡ false → All (λ c. c ≢ 0) a
no_nul [] h = tt
no_nul (c ∷ a) h = ((λ e. ground arith), no_nul a (ground arith))

fine_args :
    (args : List Text)
    → any bad_arg args ≡ false
    → All (λ a. (byte_len a ≤ 8192) × All (λ c. c ≢ 0) a) args
fine_args [] h = tt
fine_args (a ∷ args) h = ((ground arith, no_nul a (ground arith)), fine_args args (ground arith))

env_length : (n : ℕ) (env : List (Text × Text)) → is_empty env ≡ false → 1 ≤ length env
env_length n [] h = cc
env_length n (x ∷ env) h = omega arith

pub bad_execution-IsRunnable :
    (is_absolute : Text → Bool) (e : Execution)
    → bad_execution is_absolute e ≡ false
    → IsRunnable is_absolute e
unfolding bad_execution
bad_execution-IsRunnable is_absolute e h = record {
  program = ground arith;
  directory = ground arith;
  args = ground arith;
  each_arg = fine_args e.args (ground arith);
  all_args =
      let f : ltb (32 * 1024) (sum_len e.args) ≡ false = ground arith in
      ground (arith, total-sum_len e.args);
  time = (ground arith, ground arith);
  variables = (env_length 0 e.env (ground arith), ground arith);
}

alphabetic : (c : ℕ) → is_letter c ≡ true → IsLetter c
alphabetic c h = elim (Bool-cases (c == b'_')) [
  | inl e ↦ inl (ground arith)
  | inr e ↦ elim (Bool-cases (leb b'a' c && leb c b'z')) [
    | inl f ↦ inr (inl (ground arith, ground arith))
    | inr f ↦ inr (inr (ground arith, ground arith))
  ]
]

alphanumeric : (c : ℕ) → (is_letter c || is_digit c) ≡ true → IsLetter c ⊎ ((48 ≤ c) × (c ≤ 57))
alphanumeric c h = elim (Bool-cases (is_letter c)) [
  | inl e ↦ inl (alphabetic c e)
  | inr e ↦ let d : is_digit c ≡ true = ground arith in inr (ground arith, ground arith)
]

alphanumerics :
    (s : Text)
    → all (λ d. is_letter d || is_digit d) s ≡ true
    → All (λ d. IsLetter d ⊎ ((48 ≤ d) × (d ≤ 57))) s
alphanumerics [] h = tt
alphanumerics (c ∷ s) h =
    let first : (is_letter c || is_digit c) ≡ true = ground arith in
    let rest : all (λ d. is_letter d || is_digit d) s ≡ true = ground arith in
    (alphanumeric c first, alphanumerics s rest)

env_name_ok-IsVariable : (name : Text) → env_name_ok name ≡ true → IsVariable name
unfolding env_name_ok
env_name_ok-IsVariable [] h = cc
env_name_ok-IsVariable (c ∷ name) h =
    let l : is_letter c ≡ true = ground arith in
    let k : all (λ d. is_letter d || is_digit d) name ≡ true = ground arith in
    (ground arith, alphabetic c l, alphanumerics name k)

pub env_names_ok-Apart :
    (seen : List Text) (env : List (Text × Text))
    → env_names_ok seen env ≡ true
    → All (λ x. contains_text seen (to_ascii_uppercase x.0) ≡ false) env
      × All (λ x. IsVariable x.0) env
      × Apart DifferInCapitals env
unfolding env_names_ok
env_names_ok-Apart seen [] h = (tt, tt, tt)
env_names_ok-Apart seen (e ∷ env) h =
    let name = to_ascii_uppercase e.0 in
    let good : env_name_ok e.0 ≡ true = ground arith in
    let new : contains_text seen name ≡ false = ground arith in
    let more : env_names_ok (name ∷ seen) env ≡ true = ground arith in
    let (fresh, variables, apart) = env_names_ok-Apart (name ∷ seen) env more in
    (
      (
        new,
        All-weaken (λ x. contains_text (name ∷ seen) (to_ascii_uppercase x.0) ≡ false)
            (λ x. contains_text seen (to_ascii_uppercase x.0) ≡ false) env (λ x k. ground arith)
            fresh,
      ),
      (env_name_ok-IsVariable e.0 good, variables),
      (
        All-weaken (λ x. contains_text (name ∷ seen) (to_ascii_uppercase x.0) ≡ false)
            (DifferInCapitals e) env
            (λ x k same.
              let yes = (text_eq_iff name (to_ascii_uppercase x.0)).1 same in ground arith)
            fresh,
        apart,
      ),
    )
