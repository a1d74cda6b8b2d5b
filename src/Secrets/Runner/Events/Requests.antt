-- ===== src/Secrets/Runner/Events/Requests.antt =====
-- A request lets an operation run only where none of its fields asks for approval.
use codex_hosts.Prelude.{
  ℕ, ◌≡◌, refl, Bool, true, false, Option, none, some, List, [], ◌∷◌, if◌then◌else◌, ltb, Text,
  length, any, remove_first, Result, ok, err, All, All-append, String, All-remove_first, if-case,
}
use codex_hosts.Model.{Uuid}
use codex_hosts.Secrets.Vault.{Execution, Vault, request, clear, environment, requires_approval}
use codex_hosts.Secrets.Runner.{
  max_operations, SecretsApp, is_over, operation, with_room, surfaced, entered, accepted, execute,
  Request, declare, status, show, clear_fields, run_program, declared, emptied, noted, handle,
}
use codex_hosts.Secrets.Runner.Started.{
  In, Covered, IsCovered, cancel_pending-IsCovered, start_queued-IsCovered,
}
use codex_hosts.Secrets.Runner.Events.{free_of}

module _ (is_absolute : Text → Bool) (ids : List Uuid) where
  with_room-IsCovered :
      (app : SecretsApp)
      → IsCovered ids app
      → (r : SecretsApp) → with_room app ≡ some r
      → IsCovered ids r × (r.vault ≡ app.vault)
  unfolding with_room
  with_room-IsCovered app h =
      if-case (λ o. (r : SecretsApp) → o ≡ some r → IsCovered ids r × (r.vault ≡ app.vault))
        (ltb (length app.operations) max_operations)
        (λ _ r e. let same : app ≡ r = cc in rw (← same) (h, refl))
        (λ _.
          if-case (λ o. (r : SecretsApp) → o ≡ some r → IsCovered ids r × (r.vault ≡ app.vault))
            (any is_over app.operations)
            (λ _ r e.
              let smaller : SecretsApp = record app {
                operations = remove_first is_over app.operations;
              } in
              let same : smaller ≡ r = cc in
              rw (← same) (
                record {
                  operations = All-remove_first (Covered ids) is_over app.operations h.operations;
                  started = h.started;
                },
                refl,
              ))
            (λ _ r e. cc))

  surfaced-IsCovered :
      (b : Bool) (app : SecretsApp) → IsCovered ids app → IsCovered ids (surfaced b app)
  surfaced-IsCovered b app h =
      if-case (IsCovered ids) b (λ _. record { operations = h.operations; started = h.started })
        (λ _. h)

  operation-Covered :
      (now : ℕ) (id : Uuid) (e : Execution) (ask : Bool)
      → All (In ids) (if ask then [] else id ∷ [])
      → Covered ids (operation now id e ask)
  operation-Covered now id e true a = λ f. cc
  operation-Covered now id e false (i, a) = λ f. i

  entered-IsCovered :
      (now : ℕ) (id : Uuid) (e : Execution) (o : Option SecretsApp) (app : SecretsApp)
      → with_room app ≡ o
      → All (In ids) (if requires_approval app.vault e then [] else id ∷ [])
      → IsCovered ids app
      → IsCovered ids (entered is_absolute now id e o app).1
  entered-IsCovered now id e none app f a h = h
  entered-IsCovered now id e (some roomy) app f a h =
      let (k, same) = with_room-IsCovered app h roomy f in
      let ask = requires_approval roomy.vault e in
      let m = surfaced-IsCovered ask roomy k in
      let a' : All (In ids) (if ask then [] else id ∷ []) = rw same a in
      start_queued-IsCovered is_absolute ids _ (record {
        operations =
            All-append (Covered ids) roomy.operations (operation now id e ask ∷ []) k.operations
              (operation-Covered now id e ask a', tt);
        started = m.started;
      })

  accepted-IsCovered :
      (now : ℕ) (id : Uuid) (e : Execution) (r : Result String (List (Text × Text)))
      (app : SecretsApp)
      → All (In ids) (if requires_approval app.vault e then [] else id ∷ [])
      → IsCovered ids app
      → IsCovered ids (accepted is_absolute now id e r app).1
  accepted-IsCovered now id e (err code) app a h = h
  accepted-IsCovered now id e (ok _) app a h =
      entered-IsCovered now id e (with_room app) app refl a h

  declared-IsCovered :
      (r : Result String Vault) (app : SecretsApp)
      → IsCovered ids app
      → IsCovered ids (declared r app).1
  declared-IsCovered (err _) app h = h
  declared-IsCovered (ok v) app h = record { operations = h.operations; started = h.started }

  emptied-IsCovered :
      (r : Result String Vault) (app : SecretsApp)
      → IsCovered ids app
      → IsCovered ids (emptied r app).1
  emptied-IsCovered (err _) app h = h
  emptied-IsCovered (ok v) app h =
      cancel_pending-IsCovered is_absolute ids (record app { vault = v })
        (record { operations = h.operations; started = h.started })

  noted-IsCovered : (app : SecretsApp) → IsCovered ids app → IsCovered ids (noted app)
  noted-IsCovered app h = record { operations = h.operations; started = h.started }

  pub handle-IsCovered :
      (now : ℕ) (r : Request) (app : SecretsApp)
      → All (In ids) (free_of is_absolute r app)
      → IsCovered ids app
      → IsCovered ids (handle is_absolute now r app).1
  unfolding handle free_of execute
  handle-IsCovered now (declare fields) app a h =
      declared-IsCovered (request fields app.vault) (noted app) (noted-IsCovered app h)
  handle-IsCovered now status app a h = h
  handle-IsCovered now (show temporary) app a h = record {
    operations = h.operations;
    started = h.started;
  }
  handle-IsCovered now (clear_fields fields) app a h =
      emptied-IsCovered (clear fields app.vault) (noted app) (noted-IsCovered app h)
  handle-IsCovered now (run_program id e) app a h =
      accepted-IsCovered now id e (environment is_absolute app.vault e) (noted app) a
        (noted-IsCovered app h)
