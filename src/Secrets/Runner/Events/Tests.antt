-- ===== src/Secrets/Runner/Events/Tests.antt =====
-- A concrete history: a value is saved, a program asks for it, and the user approves.
use codex_hosts.Prelude.{◌≡◌, refl, Bool, true, none, some, List, [], ◌∷◌, Text, codes, starts_with}
use codex_hosts.Text.{trim, is_control, byte_len}
use codex_hosts.Model.{contains_id}
use codex_hosts.Secrets.Vault.{
  Execution, Field, name_ok, names_ok, validate_names, env_names_ok, env_name_ok, distinct_values,
  bad_execution, validate, values, environment, requires_approval,
}
use codex_hosts.Secrets.Runner.{
  cancel_pending, expire_pending, record_input_status, start_operation, start_queued, with_room,
  execute, run_program, handle, handle_all, poll, approve, decide_approval,
}
use codex_hosts.Text.{char_len}
use codex_hosts.Secrets.Vault.{to_ascii_uppercase}
use codex_hosts.Secrets.Runner.Events.{Event, polls, decides, edits, happen, run, allowed}
use codex_hosts.Secrets.Runner.Events.Approved.{running-allowed}

abbrev token : Text
token = codes "token"

abbrev saved : Field
saved = record { name = token; draft = []; value = some (codes "s3"); requires_approval = true }

abbrev execution : Execution
execution = record {
  program = codes "/bin/tool";
  args = [];
  cwd = codes "/";
  env = (codes "TOKEN", token) ∷ [];
  timeout_ms = 1000;
}

abbrev is_absolute : Text → Bool
is_absolute path = starts_with path (codes "/")

-- the last event first
abbrev approval : List Event
approval =
    decides 2000 5 true
    ∷ polls 1000 none (run_program 5 execution ∷ [])
    ∷ edits (saved ∷ []) "saved"
    ∷ []

-- what the tests compute with
computed : Unit {0}
unfolding run happen poll handle_all handle execute with_room start_queued start_operation
    decide_approval approve expire_pending cancel_pending record_input_status requires_approval
    validate_names names_ok name_ok environment values validate bad_execution env_names_ok
    env_name_ok distinct_values to_ascii_uppercase trim is_control byte_len char_len
computed = tt

started : (run is_absolute true approval).running ≡ some 5
unfolding computed
started = refl

running-allowed_example : contains_id 5 (allowed is_absolute true approval) ≡ true
running-allowed_example = running-allowed is_absolute true approval 5 started
