-- ===== src/Vault/Described.antt =====
-- What an item of a password manager makes of a profile, field by field.
use codex_hosts.Prelude.{
  ◌≡◌, refl, inl, inr, ◌⊎◌, true, false, Option, none, some, List, find, arith, text_eq_iff, ◌↔◌,
  if-case,
}
use codex_hosts.Text.{trim}
use codex_hosts.Model.{Protocol, ssh, telnet, SshAuth, HostProfile}
use codex_hosts.Vault.Hosts.{
  HostFacts, ItemKey, eq_protocol, endpoint_changed, described, apply, new_profile, mirror, has_id,
}
use codex_hosts.Vault.Found.{served_as, IsServed}

-- the item's facts are the profile's, and the login's password is the item's
pub record IsDescribed (a : ItemKey × HostFacts) (h : HostProfile) : Type 0 where
  pub alias : h.alias ≡ a.1.alias
  pub description : h.description ≡ a.1.description
  pub tags : h.tags ≡ a.1.tags
  pub address : h.address ≡ a.1.address
  pub port : h.port ≡ a.1.port
  pub protocol : h.protocol ≡ a.1.protocol
  pub username : h.username ≡ a.1.username
  pub login_password : h.login_password_id ≡ none
  pub item :
      h.vault
      ≡ some (record {
        provider = a.0.provider;
        item_id = a.0.id;
        external_id = a.0.external_id;
        item_name = a.1.alias;
        revision_date = a.1.revision;
      })

-- what is local stays
pub record IsLocal (old h : HostProfile) : Type 0 where
  pub id : h.id ≡ old.id
  pub ssh_auth : h.ssh_auth ≡ old.ssh_auth
  pub private_key_path : h.private_key_path ≡ old.private_key_path
  pub agent_key : h.agent_key_fingerprint ≡ old.agent_key_fingerprint
  pub jump_host : h.jump_host ≡ old.jump_host
  pub auth_persistence : h.auth_persistence ≡ old.auth_persistence
  pub advanced : h.advanced ≡ old.advanced

pub record IsUntrusted (h : HostProfile) : Type 0 where
  pub fingerprint : h.host_fingerprint ≡ none
  pub algorithm : h.host_key_algorithm ≡ none
  pub first_seen : h.host_key_first_seen_unix ≡ none
  pub last_verified : h.host_key_last_verified_unix ≡ none
  pub verified : h.verified ≡ false

pub record IsTrustedAs (old h : HostProfile) : Type 0 where
  pub fingerprint : h.host_fingerprint ≡ old.host_fingerprint
  pub algorithm : h.host_key_algorithm ≡ old.host_key_algorithm
  pub first_seen : h.host_key_first_seen_unix ≡ old.host_key_first_seen_unix
  pub last_verified : h.host_key_last_verified_unix ≡ old.host_key_last_verified_unix
  pub verified : h.verified ≡ old.verified

-- the item names the endpoint that the profile had
abbrev pub IsSameEndpoint : HostFacts → HostProfile → Type 0
IsSameEndpoint f old =
    (trim old.address ≡ f.address) × (old.port ≡ f.port) × (old.protocol ≡ f.protocol)

-- The trust in the host's key stays while the endpoint does, and is gone otherwise. A new profile has
-- none, logs in by password and has no settings of its own.
abbrev pub ComesFrom : ItemKey × HostFacts → Option HostProfile → HostProfile → Type 0
ComesFrom a none h =
    (h.id ≡ a.0.id) × IsUntrusted h × (h.ssh_auth ≡ SshAuth.password) × (h.jump_host ≡ none)
ComesFrom a (some old) h =
    IsLocal old h
    × ((IsSameEndpoint a.1 old × IsTrustedAs old h) ⊎ ((¬ IsSameEndpoint a.1 old) × IsUntrusted h))

protocol_iff : (a b : Protocol) → (eq_protocol a b ≡ true) ↔ (a ≡ b)
protocol_iff ssh ssh = ((λ _. refl), λ _. refl)
protocol_iff ssh telnet = ((λ e. cc), λ e. cc)
protocol_iff telnet ssh = ((λ e. cc), λ e. cc)
protocol_iff telnet telnet = ((λ _. refl), λ _. refl)

same_endpoint :
    (f : HostFacts) (old : HostProfile) → endpoint_changed f old ≡ false → IsSameEndpoint f old
same_endpoint f old e = (
  (text_eq_iff (trim old.address) f.address).0 (ground arith),
  ground arith,
  (protocol_iff old.protocol f.protocol).0 (ground arith),
)

other_endpoint :
    (f : HostFacts) (old : HostProfile) → endpoint_changed f old ≡ true → ¬ IsSameEndpoint f old
other_endpoint f old e (address, port, protocol) =
    let a = (text_eq_iff (trim old.address) f.address).1 address in
    let p = (protocol_iff old.protocol f.protocol).1 protocol in ground arith

pub apply-IsDescribed :
    (a : ItemKey × HostFacts) (h : HostProfile) → IsDescribed a (apply a.1 a.0 h)
unfolding apply
apply-IsDescribed a h =
    let fits : IsDescribed a (described a.1 a.0 h) = record {
      alias = refl;
      description = refl;
      tags = refl;
      address = refl;
      port = refl;
      protocol = refl;
      username = refl;
      login_password = refl;
      item = refl;
    } in
    if-case (IsDescribed a) (endpoint_changed a.1 h)
      (λ _. record {
        alias = refl;
        description = refl;
        tags = refl;
        address = refl;
        port = refl;
        protocol = refl;
        username = refl;
        login_password = refl;
        item = refl;
      })
      (λ _. fits)

pub apply-ComesFrom :
    (a : ItemKey × HostFacts) (h : HostProfile) → ComesFrom a (some h) (apply a.1 a.0 h)
unfolding apply
apply-ComesFrom a h =
    if-case (ComesFrom a (some h)) (endpoint_changed a.1 h)
      (λ e. (
        record {
          id = refl;
          ssh_auth = refl;
          private_key_path = refl;
          agent_key = refl;
          jump_host = refl;
          auth_persistence = refl;
          advanced = refl;
        },
        inr (
          other_endpoint a.1 h e,
          record {
            fingerprint = refl;
            algorithm = refl;
            first_seen = refl;
            last_verified = refl;
            verified = refl;
          },
        ),
      ))
      (λ e. (
        record {
          id = refl;
          ssh_auth = refl;
          private_key_path = refl;
          agent_key = refl;
          jump_host = refl;
          auth_persistence = refl;
          advanced = refl;
        },
        inl (
          same_endpoint a.1 h e,
          record {
            fingerprint = refl;
            algorithm = refl;
            first_seen = refl;
            last_verified = refl;
            verified = refl;
          },
        ),
      ))

new-ComesFrom :
    (a : ItemKey × HostFacts) (h : HostProfile)
    → ComesFrom a (some (new_profile a.0.id a.1.alias)) h
    → ComesFrom a none h
new-ComesFrom a h (local, inl (same, trusted)) = (
  local.id,
  record {
    fingerprint = trusted.fingerprint;
    algorithm = trusted.algorithm;
    first_seen = trusted.first_seen;
    last_verified = trusted.last_verified;
    verified = trusted.verified;
  },
  local.ssh_auth,
  local.jump_host,
)
new-ComesFrom a h (local, inr (other, untrusted)) =
    (local.id, untrusted, local.ssh_auth, local.jump_host)

mirror-IsDescribed : (a : ItemKey × HostFacts) → IsDescribed a (mirror a.1 a.0)
unfolding mirror
mirror-IsDescribed a = apply-IsDescribed a (new_profile a.0.id a.1.alias)

mirror-ComesFrom : (a : ItemKey × HostFacts) → ComesFrom a none (mirror a.1 a.0)
unfolding mirror
mirror-ComesFrom a =
    new-ComesFrom a (mirror a.1 a.0) (apply-ComesFrom a (new_profile a.0.id a.1.alias))

-- An item is served: the profile with its id is the one it describes, made from the old one if any.
abbrev pub IsServedBy : List HostProfile → List HostProfile → ItemKey × HostFacts → Type 0
IsServedBy before after a =
    (h : HostProfile) × (find (has_id a.0.id) after ≡ some h)
    × IsDescribed a h
    × ComesFrom a (find (has_id a.0.id) before) h

pub IsServed-IsServedBy :
    (before after : List HostProfile) (a : ItemKey × HostFacts)
    → IsServed before after a
    → IsServedBy before after a
IsServed-IsServedBy before after a h = (
  served_as a (find (has_id a.0.id) before),
  h,
  described_by (find (has_id a.0.id) before),
  from (find (has_id a.0.id) before),
)
  where
    described_by : (o : Option HostProfile) → IsDescribed a (served_as a o)
    described_by none = mirror-IsDescribed a
    described_by (some old) = apply-IsDescribed a old

    from : (o : Option HostProfile) → ComesFrom a o (served_as a o)
    from none = mirror-ComesFrom a
    from (some old) = apply-ComesFrom a old
