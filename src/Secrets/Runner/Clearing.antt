-- ===== src/Secrets/Runner/Clearing.antt =====
-- Clearing fields takes back what has not started.
mod Tests
use codex_hosts.Prelude.{
  ℕ, ◌≡◌, refl, Bool, false, ◌||◌, Option, List, [], ◌∷◌, Text, Result, ok, err, All, String, map,
  if-case,
}
use codex_hosts.Model.{Uuid}
use codex_hosts.Secrets.Vault.{Vault, clear}
use codex_hosts.Secrets.Runner.{
  Operation, SecretsApp, is_pending, is_queued, revoke, cancel_pending, clear_fields, emptied,
  noted, handle,
}

abbrev pub IsSettled : Operation → Type 0
IsSettled o = is_pending o || is_queued o ≡ false

revoke-IsSettled : (o : Operation) → IsSettled (revoke o)
revoke-IsSettled o = if-case IsSettled (is_pending o || is_queued o) (λ _. refl) (λ e. e)

revoked : (os : List Operation) → All IsSettled (map revoke os)
revoked [] = tt
revoked (o ∷ os) = (revoke-IsSettled o, revoked os)

emptied-IsSettled :
    (r : Result String Vault) (app : SecretsApp) (answer : Option Uuid)
    → (emptied r app).0 ≡ ok answer
    → All IsSettled (emptied r app).1.operations
unfolding cancel_pending
emptied-IsSettled (err _) app answer h = cc
emptied-IsSettled (ok v) app answer h = revoked app.operations

-- A request to clear fields that succeeds leaves no operation that still waits for the user or for its
-- turn: what was approved before cannot start on values that are gone.
pub handle-IsSettled :
    (is_absolute : Text → Bool) (now : ℕ) (fields : List Text) (app : SecretsApp)
    (answer : Option Uuid)
    → (handle is_absolute now (clear_fields fields) app).0 ≡ ok answer
    → All IsSettled (handle is_absolute now (clear_fields fields) app).1.operations
unfolding handle
handle-IsSettled is_absolute now fields app answer h =
    emptied-IsSettled (clear fields app.vault) (noted app) answer h
