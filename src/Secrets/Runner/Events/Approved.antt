-- ===== src/Secrets/Runner/Events/Approved.antt =====
-- No operation runs that needs the user's approval and does not have it.
use codex_hosts.Prelude.{
  ℕ, ◌≡◌, Bool, true, false, not, Option, none, some, List, [], ◌∷◌, ◌++◌, if◌then◌else◌, Text,
  take, update_first, arith, All, All-split, String, All-update_first, All-weaken, if-case,
}
use codex_hosts.Model.{contains_id, Uuid}
use codex_hosts.Secrets.Runner.{
  cancelled, SecretsApp, has_id, with_status, expire_pending, record_input_status,
  apply_approval_default, Request, handle, reports, handle_all, reported_by, poll, awaits, approve,
  decide_approval,
}
use codex_hosts.Secrets.Runner.Started.{
  In, Covered, IsCovered, cancel_pending-IsCovered, expire_pending-IsCovered,
  start_operation-IsCovered, start_queued-IsCovered,
}
use codex_hosts.Secrets.Runner.Events.{
  Event, polls, decides, edits, switches, happen, free_of, free_of_all, allowed_by, run, allowed,
}
use codex_hosts.Secrets.Runner.Events.Requests.{handle-IsCovered}

module _ (is_absolute : Text → Bool) (ids : List Uuid) where
  handle_all-IsCovered :
      (now : ℕ) (requests : List Request) (app : SecretsApp)
      → All (In ids) (free_of_all is_absolute now requests app)
      → IsCovered ids app
      → IsCovered ids (handle_all is_absolute now requests app)
  unfolding handle_all free_of_all
  handle_all-IsCovered now [] app a h = h
  handle_all-IsCovered now (r ∷ requests) app a h =
      let (b, c) = All-split (In ids) (free_of is_absolute r app) _ a in
      handle_all-IsCovered now requests (handle is_absolute now r app).1 c
        (handle-IsCovered is_absolute ids now r app b h)

  reports-IsCovered :
      (running : Option Uuid) (s : String) (x : Option ℕ) (app : SecretsApp)
      → IsCovered ids app
      → IsCovered ids (reports running s x app)
  reports-IsCovered none s x app h = h
  reports-IsCovered (some id) s x app h = record {
    operations =
        All-update_first (Covered ids) (has_id id) _ app.operations (λ o _ e. cc) h.operations;
    started = λ j e. cc;
  }

  reported_by-IsCovered :
      (sent : Option (String × Option ℕ)) (app : SecretsApp)
      → IsCovered ids app
      → IsCovered ids (reported_by sent app)
  reported_by-IsCovered none app h = h
  reported_by-IsCovered (some (s, x)) app h = reports-IsCovered app.running s x app h

  approve-IsCovered :
      (now : ℕ) (id : Uuid) (app : SecretsApp)
      → In ids id
      → IsCovered ids app
      → IsCovered ids (approve is_absolute now id app)
  unfolding approve
  approve-IsCovered now id app i h =
      let k = expire_pending-IsCovered is_absolute ids now app h in
      if-case (IsCovered ids) (awaits id (expire_pending now app))
        (λ _. start_operation-IsCovered is_absolute ids id (expire_pending now app) i k) (λ _. k)

  rejected-IsCovered :
      (id : Uuid) (app : SecretsApp)
      → IsCovered ids app
      → IsCovered ids (record app {
        operations = update_first (has_id id) (with_status cancelled) app.operations;
      })
  rejected-IsCovered id app h = record {
    operations =
        All-update_first (Covered ids) (has_id id) _ app.operations (λ o _ e. cc) h.operations;
    started = h.started;
  }

  decide_approval-IsCovered :
      (now : ℕ) (id : Uuid) (agrees : Bool) (app : SecretsApp)
      → All (In ids) (if agrees then id ∷ [] else [])
      → IsCovered ids app
      → IsCovered ids (decide_approval is_absolute now id agrees app)
  unfolding decide_approval
  decide_approval-IsCovered now id true app (i, a) h =
      let k = expire_pending-IsCovered is_absolute ids now app h in
      if-case (IsCovered ids) (not (awaits id (expire_pending now app))) (λ _. k)
        (λ _. approve-IsCovered now id (expire_pending now app) i k)
  decide_approval-IsCovered now id false app a h =
      let k = expire_pending-IsCovered is_absolute ids now app h in
      if-case (IsCovered ids) (not (awaits id (expire_pending now app))) (λ _. k)
        (λ _. rejected-IsCovered id (expire_pending now app) k)

  pub happen-IsCovered :
      (e : Event) (app : SecretsApp)
      → All (In ids) (allowed_by is_absolute e app)
      → IsCovered ids app
      → IsCovered ids (happen is_absolute e app)
  unfolding happen allowed_by poll record_input_status apply_approval_default
  happen-IsCovered (polls now sent requests) app a h = start_queued-IsCovered is_absolute ids _ (
      handle_all-IsCovered now (take 8 requests) _ a
        (expire_pending-IsCovered is_absolute ids now _ (reported_by-IsCovered sent app h)))
  happen-IsCovered (decides now id agrees) app a h = decide_approval-IsCovered now id agrees app a h
  happen-IsCovered (edits fields text) app a h =
      cancel_pending-IsCovered is_absolute ids _
        (record { operations = h.operations; started = h.started })
  happen-IsCovered (switches on) app a h =
      cancel_pending-IsCovered is_absolute ids _
        (record { operations = h.operations; started = h.started })

IsCovered-more :
    (new old : List Uuid) (app : SecretsApp) → IsCovered old app → IsCovered (new ++ old) app
IsCovered-more new old app h = record {
  operations =
      All-weaken (Covered old) (Covered (new ++ old)) app.operations
        (λ o k e. In-more new o.id (k e)) h.operations;
  started = λ id e. In-more new id (h.started id e);
}
  where
    In-more : (new : List Uuid) (i : Uuid) → In old i → In (new ++ old) i
    In-more [] i k = k
    In-more (j ∷ new) i k = ground (arith, In-more new i k)

All-In : (ids more : List Uuid) → All (In (ids ++ more)) ids
All-In [] more = tt
All-In (i ∷ ids) more =
    let rest = All-In ids more in
    (
      ground arith,
      All-weaken (In (ids ++ more)) (In (i ∷ ids ++ more)) ids (λ j k. ground arith) rest,
    )

module _ (is_absolute : Text → Bool) (on : Bool) where
  run-IsCovered :
      (history : List Event)
      → IsCovered (allowed is_absolute on history) (run is_absolute on history)
  unfolding run allowed
  run-IsCovered [] = record { operations = tt; started = λ id e. cc }
  run-IsCovered (e ∷ past) =
      let old = allowed is_absolute on past in
      let new = allowed_by is_absolute e (run is_absolute on past) in
      happen-IsCovered is_absolute (new ++ old) e (run is_absolute on past) (All-In new old)
        (IsCovered-more new old (run is_absolute on past) (run-IsCovered past))

  -- Whatever has happened, the program that runs is one that the user approved, or one that was asked
  -- for when all fields that it reads had their approval switched off.
  pub running-allowed :
      (history : List Event) (id : Uuid)
      → (run is_absolute on history).running ≡ some id
      → contains_id id (allowed is_absolute on history) ≡ true
  running-allowed history id e = (run-IsCovered history).started id e
