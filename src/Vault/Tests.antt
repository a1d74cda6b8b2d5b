-- ===== src/Vault/Tests.antt =====
-- A concrete listing: one item that is mirrored, one whose name a local host has, and a new one.
use codex_hosts.Prelude.{◌≡◌, refl, inl, inr, true, none, List, [], ◌∷◌, Text, codes, ok, arith}
use codex_hosts.Text.{trim, to_ascii_lowercase}
use codex_hosts.Model.{Uuid, ssh, HostProfile, vault_provider}
use codex_hosts.Vault.Hosts.{
  name_taken, HostFacts, ItemKey, is_of, apply, mirror, Listed, accepted_items, reconcile,
}
use codex_hosts.Model.{bitwarden}
use codex_hosts.Model.Samples.{gate}
use codex_hosts.Vault.Served.{IsReconciled, reconcile-IsReconciled}

abbrev key : Uuid → ItemKey
key id = record { provider = bitwarden; id = id; external_id = none }

abbrev facts : Text → Text → HostFacts
facts alias address = record {
  alias = alias;
  protocol = ssh;
  address = address;
  port = 22;
  username = codes "admin";
  description = [];
  tags = [];
  revision = codes "r2";
}

abbrev item : Uuid → Text → Text → Listed
item id alias address = record { key = key id; name = alias; facts = ok (facts alias address) }

abbrev old_mirror : HostProfile
old_mirror = record (mirror (facts (codes "web") (codes "10.0.0.7")) (key 5)) { verified = true }

abbrev saved_hosts : List HostProfile
saved_hosts = gate ∷ old_mirror ∷ []

abbrev listing : List Listed
listing =
    item 6 (codes "GATE") (codes "10.0.0.9")
    ∷ item 7 (codes "db") (codes "10.0.0.8")
    ∷ item 5 (codes "web") (codes "10.0.0.70")
    ∷ []

takes_two :
    (reconcile bitwarden saved_hosts listing).0
    ≡ record { hosts = 2; problems = (codes "GATE", name_taken) ∷ [] }
unfolding reconcile accepted_items apply mirror vault_provider to_ascii_lowercase trim
takes_two = refl

old_mirror-is_of : is_of bitwarden old_mirror ≡ true
unfolding apply mirror vault_provider to_ascii_lowercase trim
old_mirror-is_of = refl

reconcile-IsReconciled_example :
    (accepted : List (ItemKey × HostFacts)) × IsReconciled bitwarden saved_hosts listing accepted
      (reconcile bitwarden saved_hosts listing)
reconcile-IsReconciled_example =
    reconcile-IsReconciled bitwarden saved_hosts listing
      (
        ((λ e. absurd (omega (arith, e))), ((λ e. absurd (omega (arith, e))), tt)),
        (((λ e. absurd (omega (arith, e))), tt), (tt, tt)),
      )
      (
        (refl, (inr (λ e. absurd (omega (arith, e))), (inl old_mirror-is_of, tt))),
        (
          (refl, (inr (λ e. absurd (omega (arith, e))), (inl old_mirror-is_of, tt))),
          ((refl, (inr (λ e. absurd (omega (arith, e))), (inl old_mirror-is_of, tt))), tt),
        ),
      )
