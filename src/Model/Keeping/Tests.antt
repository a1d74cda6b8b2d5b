-- ===== src/Model/Keeping/Tests.antt =====
-- How long concrete chains are kept.
use codex_hosts.Prelude.{◌≡◌, refl, some, [], ◌∷◌}
use codex_hosts.Model.{Retention, retention, effective_auth_persistence}
use codex_hosts.Model.Samples.{gate, inner}
use codex_hosts.Model.Keeping.{hop_retention, chain_retention, retention_from}

kept : chain_retention (gate ∷ inner ∷ []) ≡ some (Retention.idle 300)
unfolding chain_retention retention_from hop_retention retention effective_auth_persistence
kept = refl
