-- ===== src/Model/Chain/Tests.antt =====
-- Jump hosts on concrete profiles.
use codex_hosts.Prelude.{◌≤◌, ◌≡◌, refl, some, [], ◌∷◌, codes, length, ok, err, ◌↔◌}
use codex_hosts.Model.{ValidationIssue, HostProfile}
use codex_hosts.Model.Samples.{gate, inner, host}
use codex_hosts.Model.Chain.{resolve_ssh_chain, resolve_one, max_depth}
use codex_hosts.Model.Chain.Sound.{Links, HasDistinctIds}
use codex_hosts.Model.Chain.Linked.{resolve_ssh_chain_iff}

-- a host that is its own jump host
abbrev looped : HostProfile
looped = host 3 (codes "looped") (some 3)

resolved :
    (resolve_ssh_chain inner (inner ∷ gate ∷ []) ≡ ok (gate ∷ inner ∷ []))
    × (resolve_ssh_chain looped (looped ∷ []) ≡ err ValidationIssue.chain)
unfolding resolve_ssh_chain resolve_one
resolved = (refl, refl)

resolve_ssh_chain_iff_example :
    (resolve_ssh_chain inner (inner ∷ gate ∷ []) ≡ ok (gate ∷ inner ∷ [])) ↔ (
      Links (inner ∷ gate ∷ []) inner (gate ∷ inner ∷ [])
      × (length (gate ∷ inner ∷ []) ≤ max_depth)
      × HasDistinctIds (gate ∷ inner ∷ []))
resolve_ssh_chain_iff_example = resolve_ssh_chain_iff inner (inner ∷ gate ∷ []) (gate ∷ inner ∷ [])
