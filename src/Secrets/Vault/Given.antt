-- ===== src/Secrets/Vault/Given.antt =====
-- What a process is given, and what is left after the fields are cleared.
use codex_hosts.Prelude.{
  All, Apart, ◌≡◌, refl, Bool, not, Option, none, some, List, [], ◌∷◌, Text, find, ok, ok_injective,
  >>=-eq-ok, refuse_if-eq-ok, ok_or-eq-ok, arith,
}
use codex_hosts.Secrets.Vault.Runnable.{
  IsRunnable, IsVariable, DifferInCapitals, bad_execution-IsRunnable, env_names_ok-Apart,
}
use codex_hosts.Secrets.Vault.{
  Execution, Field, Vault, called, env_names_ok, bad_execution, validate, value_of, values,
  environment,
}

-- Each variable of the process with the saved value of the field that it names.
pub data AreGiven (fields : List Field) : List (Text × Text) → List (Text × Text) → Type 0 where
  nil : AreGiven fields [] []
  cons :
      (variable name value : Text) (env given : List (Text × Text)) (f : Field)
      → find (called name) fields ≡ some f
      → f.value ≡ some value
      → AreGiven fields env given
      → AreGiven fields ((variable, name) ∷ env) ((variable, value) ∷ given)

saved_in :
    (o : Option Field) (value : Text)
    → value_of o ≡ some value
    → (f : Field) × (o ≡ some f) × (f.value ≡ some value)
saved_in none value h = cc
saved_in (some f) value h = (f, refl, h)

values-AreGiven :
    (fields : List Field) (env given : List (Text × Text))
    → values fields env ≡ ok given
    → AreGiven fields env given
unfolding values
values-AreGiven fields [] given h = let same : [] ≡ given = ok_injective h in rw (← same) nil
values-AreGiven fields (e ∷ env) given h =
    let (value, found, h₁) = ok_or-eq-ok _ "SECRET_MISSING" _ h in
    let (rest, more, h₂) = >>=-eq-ok (values fields env) _ h₁ in
    let made = ok_injective h₂ in
    let (f, at, saved) = saved_in (find (called e.1) fields) value found in
    rw (← made) (cons e.0 e.1 value env rest f at saved (values-AreGiven fields env rest more))

-- A process is given exactly its variables, in order, each with the saved value of the field that it
-- names; and only if its request is one that may be run: the program and the directory are absolute
-- paths; there are at most 128 arguments, of at most 8 KiB each and 32 KiB together, without NUL; the
-- time limit is between 1 ms and 10 minutes; there are between 1 and 64 variables; and their names are
-- well formed and different also without regard to the case of ASCII letters.
pub environment-AreGiven :
    (is_absolute : Text → Bool) (v : Vault) (e : Execution) (given : List (Text × Text))
    → environment is_absolute v e ≡ ok given
    → AreGiven v.fields e.env given
      × IsRunnable is_absolute e
      × All (λ x. IsVariable x.0) e.env
      × Apart DifferInCapitals e.env
unfolding environment validate
environment-AreGiven is_absolute v e given h =
    let (_, valid, h₁) = >>=-eq-ok _ _ h in
    let (fine, v₁) = refuse_if-eq-ok (bad_execution is_absolute e) "EXECUTION_INVALID" _ valid in
    let (names, v₂) = refuse_if-eq-ok (not (env_names_ok [] e.env)) "ENVIRONMENT_INVALID" _ v₁ in
    let (_, variables, apart) = env_names_ok-Apart [] e.env (ground arith) in
    (
      values-AreGiven v.fields e.env given h₁,
      bad_execution-IsRunnable is_absolute e fine,
      variables,
      apart,
    )
