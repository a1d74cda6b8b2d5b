-- ===== src/Secrets/Runner.antt =====
-- src/temporary_secrets.rs, `SecretsApp`: the operations that wait, run and end. New ids and instants
-- (in milliseconds) are arguments; the child process is a report that comes later; feedback texts are left out.
pub mod Started
pub mod Events
pub mod Clearing
use codex_hosts.Prelude.{
  ℕ, ◌+◌, Bool, true, false, not, ◌&&◌, ◌||◌, Option, none, some, List, [], ◌∷◌, ◌++◌,
  if◌then◌else◌, ltb, leb, ◌==◌, Text, length, take, any, find, remove_first, update_first, Result,
  ok, err, String, map, ◌*◌,
}
use codex_hosts.Model.{Uuid, is_some}
use codex_hosts.Secrets.Vault.{
  Execution, Vault, request, set_all_approval, clear, environment, requires_approval,
}

abbrev pub max_operations : ℕ
max_operations = 16

abbrev pub approval_lifetime : ℕ
approval_lifetime = 300 * 1000

pub data OpStatus : Type 0 where
  pending queued running cancelled expired secret_missing : OpStatus
  -- what the worker says of the child, or that it was lost
  reported : String → Option ℕ → OpStatus

pub record Operation : Type 0 where
  pub id : Uuid
  pub status : OpStatus
  pub execution : Execution
  pub expires : ℕ

pub record SecretsApp : Type 0 where
  pub vault : Vault
  pub operations : List Operation
  pub running : Option Uuid
  pub visible : Bool
  pub restore_requested : Bool
  pub input_status : String

-- a new window
abbrev pub opened : Bool → SecretsApp
opened on = record {
  vault = record { fields = []; default_requires_approval = on };
  operations = [];
  running = none;
  visible = false;
  restore_requested = false;
  input_status = "ok";
}

abbrev pub is_pending : Operation → Bool
is_pending o = elim o.status [
  | pending ↦ true
  | queued ↦ false
  | running ↦ false
  | cancelled ↦ false
  | expired ↦ false
  | secret_missing ↦ false
  | reported _ _ ↦ false
]

abbrev pub is_queued : Operation → Bool
is_queued o = elim o.status [
  | pending ↦ false
  | queued ↦ true
  | running ↦ false
  | cancelled ↦ false
  | expired ↦ false
  | secret_missing ↦ false
  | reported _ _ ↦ false
]

abbrev pub is_running : Operation → Bool
is_running o = elim o.status [
  | pending ↦ false
  | queued ↦ false
  | running ↦ true
  | cancelled ↦ false
  | expired ↦ false
  | secret_missing ↦ false
  | reported _ _ ↦ false
]

abbrev pub is_over : Operation → Bool
is_over o = not (is_pending o || is_queued o || is_running o)

abbrev pub has_id : Uuid → Operation → Bool
has_id id o = o.id == id

abbrev pub with_status : OpStatus → Operation → Operation
with_status s o = record o { status = s }

abbrev pub revoke : Operation → Operation
revoke o = if is_pending o || is_queued o then with_status cancelled o else o

pub cancel_pending : SecretsApp → SecretsApp
cancel_pending app = record app { operations = map revoke app.operations }

abbrev pub lapse : ℕ → Operation → Operation
lapse now o = if is_pending o && leb o.expires now then with_status expired o else o

pub expire_pending : ℕ → SecretsApp → SecretsApp
expire_pending now app = record app { operations = map (lapse now) app.operations }

pub record_input_status : String → SecretsApp → SecretsApp
record_input_status status app = cancel_pending (record app { input_status = status })

pub apply_approval_default : Bool → SecretsApp → SecretsApp
apply_approval_default on app =
    record_input_status "ok" (record app { vault = set_all_approval on app.vault })

-- what is entered in the list: it waits for the user, or for its turn
abbrev pub operation : ℕ → Uuid → Execution → Bool → Operation
operation now id e ask = record {
  id = id;
  status = if ask then pending else queued;
  execution = e;
  expires = now + approval_lifetime;
}

abbrev pub can_start : Uuid → Operation → Bool
can_start id o = has_id id o && (is_pending o || is_queued o)

-- the place for one more operation
pub with_room : SecretsApp → Option SecretsApp
with_room app =
    if ltb (length app.operations) max_operations
    then some app
    else if any is_over app.operations
    then some (record app { operations = remove_first is_over app.operations })
    else none

abbrev pub surfaced : Bool → SecretsApp → SecretsApp
surfaced show app = if show then record app { visible = true; restore_requested = true } else app

-- The requests that this window answers itself; those for the approval queues go on to them.
pub data Request : Type 0 where
  declare : List Text → Request
  status : Request
  show : Bool → Request
  clear_fields : List Text → Request
  run_program : Uuid → Execution → Request

abbrev pub declared : Result String Vault → SecretsApp → Result String (Option Uuid) × SecretsApp
declared (err code) app = (err code, app)
declared (ok v) app = (ok none, record app { vault = v; visible = true; restore_requested = true })

abbrev pub emptied : Result String Vault → SecretsApp → Result String (Option Uuid) × SecretsApp
emptied (err code) app = (err code, app)
emptied (ok v) app = (ok none, cancel_pending (record app { vault = v }))

abbrev pub noted : SecretsApp → SecretsApp
noted app = record app { input_status = "ok" }

abbrev pub reports : Option Uuid → String → Option ℕ → SecretsApp → SecretsApp
reports none result exit_code app = app
reports (some id) result exit_code app = record app {
  operations = update_first (has_id id) (with_status (reported result exit_code)) app.operations;
  running = none;
}

abbrev pub reported_by : Option (String × Option ℕ) → SecretsApp → SecretsApp
reported_by none app = app
reported_by (some (result, exit_code)) app = reports app.running result exit_code app

abbrev pub awaits : Uuid → SecretsApp → Bool
awaits id app = any (λ o. has_id id o && is_pending o) app.operations

module _ (is_absolute : Text → Bool) where
  abbrev pub given : Uuid → Result String (List (Text × Text)) → SecretsApp → SecretsApp
  given id (err _) app = record app {
    operations = update_first (can_start id) (with_status secret_missing) app.operations;
  }
  given id (ok _) app = record app {
    operations = update_first (can_start id) (with_status running) app.operations;
    running = some id;
  }

  abbrev pub begun : Uuid → Option Operation → SecretsApp → SecretsApp
  begun id none app = app
  begun id (some o) app = given id (environment is_absolute app.vault o.execution) app

  pub start_operation : Uuid → SecretsApp → SecretsApp
  start_operation id app =
      if is_some app.running then app else begun id (find (can_start id) app.operations) app

  abbrev pub start_found : Option Operation → SecretsApp → SecretsApp
  start_found none app = app
  start_found (some o) app = start_operation o.id app

  pub start_queued : SecretsApp → SecretsApp
  start_queued app = start_found (find is_queued app.operations) app

  abbrev pub entered :
      ℕ
      → Uuid
      → Execution
      → Option SecretsApp
      → SecretsApp
      → Result String (Option Uuid) × SecretsApp
  entered now id e none app = (err "OPERATION_LIMIT", app)
  entered now id e (some roomy) app =
      let ask = requires_approval roomy.vault e in
      let o = operation now id e ask in
      (
        ok (some id),
        start_queued (record (surfaced ask roomy) { operations = roomy.operations ++ o ∷ [] }),
      )

  abbrev pub accepted :
      ℕ
      → Uuid
      → Execution
      → Result String (List (Text × Text))
      → SecretsApp
      → Result String (Option Uuid) × SecretsApp
  accepted now id e (err code) app = (err code, app)
  accepted now id e (ok _) app = entered now id e (with_room app) app

  pub execute : ℕ → Uuid → Execution → SecretsApp → Result String (Option Uuid) × SecretsApp
  execute now id e app = accepted now id e (environment is_absolute app.vault e) app

  pub handle : ℕ → Request → SecretsApp → Result String (Option Uuid) × SecretsApp
  handle now (declare fields) app = declared (request fields app.vault) (noted app)
  handle now status app = (ok none, app)
  handle now (show temporary) app =
      (ok none, record app { visible = temporary || app.visible; restore_requested = true })
  handle now (clear_fields fields) app = emptied (clear fields app.vault) (noted app)
  handle now (run_program id e) app = execute now id e (noted app)

  pub handle_all : ℕ → List Request → SecretsApp → SecretsApp
  handle_all now [] app = app
  handle_all now (r ∷ requests) app = handle_all now requests (handle now r app).1

  -- first what the worker has sent, if anything, then the requests that have come in, at most eight
  pub poll : ℕ → Option (String × Option ℕ) → List Request → SecretsApp → SecretsApp
  poll now sent requests app =
      start_queued (handle_all now (take 8 requests) (expire_pending now (reported_by sent app)))

  pub approve : ℕ → Uuid → SecretsApp → SecretsApp
  approve now id app =
      let app' = expire_pending now app in if awaits id app' then start_operation id app' else app'

  pub decide_approval : ℕ → Uuid → Bool → SecretsApp → SecretsApp
  decide_approval now id allow app =
      let app' = expire_pending now app in
      if not (awaits id app') then app' else if allow then approve now id app' else record app' {
        operations = update_first (has_id id) (with_status cancelled) app'.operations;
      }
