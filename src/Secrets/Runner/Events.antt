-- ===== src/Secrets/Runner/Events.antt =====
-- The histories of the window, and what the user allows in them.
pub mod Requests
pub mod Approved
mod Tests
use codex_hosts.Prelude.{
  ℕ, Bool, Option, List, [], ◌∷◌, ◌++◌, if◌then◌else◌, Text, take, all, String,
}
use codex_hosts.Model.{Uuid}
use codex_hosts.Secrets.Vault.{Field, request, requires_approval}
use codex_hosts.Secrets.Runner.{
  SecretsApp, opened, expire_pending, record_input_status, apply_approval_default, operation,
  Request, run_program, handle, reported_by, poll, decide_approval,
}

pub data Event : Type 0 where
  polls : ℕ → Option (String × Option ℕ) → List Request → Event
  decides : ℕ → Uuid → Bool → Event
  -- the editor saves, clears, deletes or switches fields: what it makes of them, and what it notes
  edits : List Field → String → Event
  switches : Bool → Event

module _ (is_absolute : Text → Bool) where
  pub happen : Event → SecretsApp → SecretsApp
  happen (polls now sent requests) app = poll is_absolute now sent requests app
  happen (decides now id agrees) app = decide_approval is_absolute now id agrees app
  happen (edits fields text) app =
      record_input_status text (record app { vault = record (app.vault) { fields = fields } })
  happen (switches on) app = apply_approval_default on app

  -- A request by which an operation may run without being asked about: all fields that it reads have
  -- their approval switched off.
  pub free_of : Request → SecretsApp → List Uuid
  free_of (run_program id e) app = if requires_approval app.vault e then [] else id ∷ []
  free_of _ app = []

  pub free_of_all : ℕ → List Request → SecretsApp → List Uuid
  free_of_all now [] app = []
  free_of_all now (r ∷ requests) app =
      free_of r app ++ free_of_all now requests (handle is_absolute now r app).1

  -- what the user approves in an event, and what needs no approval
  pub allowed_by : Event → SecretsApp → List Uuid
  allowed_by (polls now sent requests) app =
      free_of_all now (take 8 requests) (expire_pending now (reported_by sent app))
  allowed_by (decides now id agrees) app = if agrees then id ∷ [] else []
  allowed_by _ app = []

  -- the last event first
  pub run : Bool → List Event → SecretsApp
  run on [] = opened on
  run on (e ∷ past) = happen e (run on past)

  pub allowed : Bool → List Event → List Uuid
  allowed on [] = []
  allowed on (e ∷ past) = allowed_by e (run on past) ++ allowed on past
