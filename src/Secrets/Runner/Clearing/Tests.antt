-- ===== src/Secrets/Runner/Clearing/Tests.antt =====
-- Fields that are cleared while an operation waits.
use codex_hosts.Prelude.{◌≡◌, refl, true, none, [], ◌∷◌, ok, All}
use codex_hosts.Secrets.Vault.{names_ok, validate_names, clear}
use codex_hosts.Secrets.Runner.{SecretsApp, opened, operation, clear_fields, handle}
use codex_hosts.Secrets.Runner.Clearing.{IsSettled, handle-IsSettled}

abbrev waiting : SecretsApp
waiting = record (opened true) {
  operations =
      operation 0 5 (record { program = []; args = []; cwd = []; env = []; timeout_ms = 1 }) true
      ∷ [];
}

answered : (handle (λ _. true) 10 (clear_fields []) waiting).0 ≡ ok none
unfolding handle clear validate_names names_ok
answered = refl

handle-IsSettled_example :
    All IsSettled (handle (λ _. true) 10 (clear_fields []) waiting).1.operations
handle-IsSettled_example = handle-IsSettled (λ _. true) 10 [] waiting none answered
