-- ===== src/Secrets/Vault/Tests.antt =====
-- A concrete vault, and a process that reads it.
use codex_hosts.Prelude.{
  All, Apart, ◌≡◌, refl, Bool, true, some, [], ◌∷◌, ◌++◌, Text, codes, starts_with, ok, arith,
}
use codex_hosts.Text.{byte_len, char_len, trim, is_control}
use codex_hosts.Secrets.Vault.{
  Execution, Vault, name_ok, names_ok, validate_names, new_field, add_fields, request, env_names_ok,
  env_name_ok, distinct_values, bad_execution, validate, values, environment,
}
use codex_hosts.Secrets.Vault.{to_ascii_uppercase}
use codex_hosts.Secrets.Vault.Fields.{AreSound, Grown, request-AreSound}
use codex_hosts.Secrets.Vault.Runnable.{IsRunnable, IsVariable, DifferInCapitals}
use codex_hosts.Secrets.Vault.Given.{AreGiven, environment-AreGiven}

abbrev token : Text
token = codes "token"

abbrev vault : Vault
vault = record {
  fields =
      record { name = token; draft = []; value = some (codes "s3"); requires_approval = true } ∷ [];
  default_requires_approval = true;
}

abbrev both : Vault
both = record vault { fields = vault.fields ++ new_field true (codes "pin") ∷ [] }

abbrev execution : Execution
execution = record {
  program = codes "/bin/tool";
  args = codes "run" ∷ [];
  cwd = codes "/";
  env = (codes "TOKEN", token) ∷ [];
  timeout_ms = 1000;
}

abbrev is_absolute : Text → Bool
is_absolute path = starts_with path (codes "/")

-- what the tests compute with
computed : Unit {0}
unfolding byte_len char_len request add_fields validate_names names_ok name_ok environment values
    validate bad_execution env_names_ok env_name_ok distinct_values to_ascii_uppercase trim
    is_control
computed = tt

requested : request (token ∷ codes "pin" ∷ []) vault ≡ ok both
unfolding computed
requested = refl

given : environment is_absolute vault execution ≡ ok ((codes "TOKEN", codes "s3") ∷ [])
unfolding computed
given = refl

vault-AreSound : AreSound vault.fields
unfolding computed
vault-AreSound = record { few = omega arith; distinct = (tt, tt); fit = (refl, tt) }

request-AreSound_example :
    AreSound both.fields × Grown vault.fields (token ∷ codes "pin" ∷ []) both.fields
request-AreSound_example =
    request-AreSound (token ∷ codes "pin" ∷ []) vault both vault-AreSound requested

environment-AreGiven_example :
    AreGiven vault.fields execution.env ((codes "TOKEN", codes "s3") ∷ [])
    × IsRunnable is_absolute execution
    × All (λ x. IsVariable x.0) execution.env
    × Apart DifferInCapitals execution.env
environment-AreGiven_example =
    environment-AreGiven is_absolute vault execution ((codes "TOKEN", codes "s3") ∷ []) given
