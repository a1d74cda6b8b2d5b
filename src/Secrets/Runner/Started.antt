-- ===== src/Secrets/Runner/Started.antt =====
-- Which operations may wait for their turn or run.
use codex_hosts.Prelude.{
  ℕ, ◌≡◌, refl, Bool, true, ◌&&◌, ◌||◌, Option, none, some, List, leb, Text, find, Result, ok, err,
  arith, All, String, All-map, All-update_first, All-update_found, find-All, if-case,
}
use codex_hosts.Model.{contains_id, Uuid, is_some}
use codex_hosts.Secrets.Vault.{environment}
use codex_hosts.Secrets.Runner.{
  Operation, SecretsApp, is_pending, is_queued, is_running, revoke, cancel_pending, lapse,
  expire_pending, can_start, given, begun, start_operation, start_found, start_queued,
}

abbrev pub In : List Uuid → Uuid → Type 0
In ids i = contains_id i ids ≡ true

-- Only operations of `ids` are queued or run.
abbrev pub Covered : List Uuid → Operation → Type 0
Covered ids o = is_queued o || is_running o ≡ true → In ids o.id

pub record IsCovered (ids : List Uuid) (app : SecretsApp) : Type 0 where
  pub operations : All (Covered ids) app.operations
  pub started : (id : Uuid) → app.running ≡ some id → In ids id

module _ (is_absolute : Text → Bool) (ids : List Uuid) where
  revoke-Covered : (o : Operation) → Covered ids o → Covered ids (revoke o)
  revoke-Covered o h = if-case (Covered ids) (is_pending o || is_queued o) (λ _ e. cc) (λ _. h)

  lapse-Covered : (now : ℕ) (o : Operation) → Covered ids o → Covered ids (lapse now o)
  lapse-Covered now o h =
      if-case (Covered ids) (is_pending o && leb o.expires now) (λ _ e. cc) (λ _. h)

  pub cancel_pending-IsCovered :
      (app : SecretsApp) → IsCovered ids app → IsCovered ids (cancel_pending app)
  unfolding cancel_pending
  cancel_pending-IsCovered app h = record {
    operations = All-map (Covered ids) revoke app.operations revoke-Covered h.operations;
    started = h.started;
  }

  pub expire_pending-IsCovered :
      (now : ℕ) (app : SecretsApp) → IsCovered ids app → IsCovered ids (expire_pending now app)
  unfolding expire_pending
  expire_pending-IsCovered now app h = record {
    operations = All-map (Covered ids) (lapse now) app.operations (lapse-Covered now) h.operations;
    started = h.started;
  }

  given-IsCovered :
      (id : Uuid) (r : Result String (List (Text × Text))) (app : SecretsApp)
      → In ids id
      → IsCovered ids app
      → IsCovered ids (given is_absolute id r app)
  given-IsCovered id (err _) app i h = record {
    operations =
        All-update_first (Covered ids) (can_start id) _ app.operations (λ o _ e. cc) h.operations;
    started = h.started;
  }
  given-IsCovered id (ok _) app i h = record {
    operations =
        All-update_found (Covered ids) (can_start id) _ app.operations
          (λ o e _ _. let same : o.id ≡ id = ground arith in rw same i) h.operations;
    started = λ j e. let same : id ≡ j = cc in rw (← same) i;
  }

  begun-IsCovered :
      (id : Uuid) (o : Option Operation) (app : SecretsApp)
      → In ids id
      → IsCovered ids app
      → IsCovered ids (begun is_absolute id o app)
  begun-IsCovered id none app i h = h
  begun-IsCovered id (some o) app i h =
      given-IsCovered id (environment is_absolute app.vault o.execution) app i h

  pub start_operation-IsCovered :
      (id : Uuid) (app : SecretsApp)
      → In ids id
      → IsCovered ids app
      → IsCovered ids (start_operation is_absolute id app)
  unfolding start_operation
  start_operation-IsCovered id app i h =
      if-case (IsCovered ids) (is_some app.running) (λ _. h)
        (λ _. begun-IsCovered id (find (can_start id) app.operations) app i h)

  start_found-IsCovered :
      (o : Option Operation) (app : SecretsApp)
      → find is_queued app.operations ≡ o
      → IsCovered ids app
      → IsCovered ids (start_found is_absolute o app)
  start_found-IsCovered none app e h = h
  start_found-IsCovered (some o) app e h =
      let (covered, waits) = find-All (Covered ids) is_queued app.operations h.operations e in
      start_operation-IsCovered o.id app (covered (ground arith)) h

  pub start_queued-IsCovered :
      (app : SecretsApp) → IsCovered ids app → IsCovered ids (start_queued is_absolute app)
  unfolding start_queued
  start_queued-IsCovered app h = start_found-IsCovered (find is_queued app.operations) app refl h
