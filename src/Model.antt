-- ===== src/Model.antt =====
-- src/model.rs: the saved host profile and its settings. A `Uuid` is a number, of which only the
-- equality is used; a duration is its seconds.
pub mod Chain
pub mod Keeping
pub mod Validation
pub mod Samples
use codex_hosts.Prelude.{
  ℕ, Bool, true, false, not, ◌&&◌, ◌||◌, Option, none, some, List, if◌then◌else◌, ltb, ◌==◌, Text,
  is_empty, any, find, ◌*◌,
}
use codex_hosts.Text.{trim, eq_ignore_ascii_case}

abbrev pub Uuid : Type 0
Uuid = ℕ

pub data Protocol : Type 0 where
  ssh telnet : Protocol

pub default_port : Protocol → ℕ
default_port ssh = 22
default_port telnet = 23

pub data SshAuth : Type 0 where
  password private_key ssh_agent : SshAuth

pub data AuthPersistence : Type 0 where
  per_call session : AuthPersistence
  idle : ℕ → AuthPersistence

abbrev pub max_idle_persistence_minutes : ℕ
max_idle_persistence_minutes = 24 * 60

pub data Retention : Type 0 where
  session : Retention
  idle : ℕ → Retention

-- `Ord::clamp`
abbrev clamp : ℕ → ℕ → ℕ → ℕ
clamp lo hi x = if ltb x lo then lo else if ltb hi x then hi else x

-- `AuthPersistence::retention`
pub retention : AuthPersistence → Option Retention
retention per_call = none
retention session = some session
retention (idle minutes) = some (idle (clamp 1 max_idle_persistence_minutes minutes * 60))

pub data RemoteEnv : Type 0 where
  auto posix windows : RemoteEnv

pub record TelnetPrompts : Type 0 where
  pub login : Text
  pub password : Text

pub record SudoCredential : Type 0 where
  pub id : Uuid
  pub username : Text

pub record SudoSettings : Type 0 where
  pub enabled : Bool
  pub credentials : List SudoCredential

pub record SuSettings : Type 0 where
  pub enabled : Bool

unfoldable pub valid_sudo_username : Text → Bool
unfolding trim
valid_sudo_username v =
    not (is_empty (trim v)) && not (any (λ c. c == b'\r' || c == b'\n' || c == 0) v)

pub record AdvancedSettings : Type 0 where
  pub max_channels : Option ℕ
  pub connect_timeout_s : Option ℕ
  pub command_timeout_s : Option ℕ
  pub keepalive_s : Option ℕ
  pub remote_env : RemoteEnv
  pub codex_hidden : Bool
  pub require_call_approval : Bool
  pub telnet_prompts : Option TelnetPrompts
  pub sudo : Option SudoSettings
  pub su : Option SuSettings

pub data VaultProvider : Type 0 where
  bitwarden one_password : VaultProvider

pub data CredentialSource : Type 0 where
  credential_manager bitwarden one_password : CredentialSource

pub provider_source : VaultProvider → CredentialSource
provider_source bitwarden = bitwarden
provider_source one_password = one_password

pub record VaultHostRef : Type 0 where
  pub provider : VaultProvider
  pub item_id : Uuid
  pub external_id : Option Text
  pub item_name : Text
  pub revision_date : Text

pub record HostProfile : Type 0 where
  pub id : Uuid
  pub alias : Text
  pub description : Text
  pub tags : List Text
  pub address : Text
  pub port : ℕ
  pub username : Text
  pub login_password_id : Option Uuid
  pub vault : Option VaultHostRef
  pub protocol : Protocol
  pub ssh_auth : SshAuth
  pub private_key_path : Text
  pub agent_key_fingerprint : Text
  pub host_fingerprint : Option Text
  pub host_key_algorithm : Option Text
  pub host_key_first_seen_unix : Option ℕ
  pub host_key_last_verified_unix : Option ℕ
  pub jump_host : Option Uuid
  pub verified : Bool
  pub auth_persistence : AuthPersistence
  pub advanced : AdvancedSettings

abbrev pub is_ssh : Protocol → Bool
is_ssh ssh = true
is_ssh telnet = false

abbrev pub is_password : SshAuth → Bool
is_password password = true
is_password _ = false

abbrev pub is_private_key : SshAuth → Bool
is_private_key private_key = true
is_private_key _ = false

abbrev pub is_some {ℓ} : {A : Type ℓ} → Option A → Bool
is_some none = false
is_some (some _) = true

pub uses_login_password : HostProfile → Bool
uses_login_password h = if is_ssh h.protocol then is_password h.ssh_auth else true

pub is_vault_host : HostProfile → Bool
is_vault_host h = is_some h.vault

unfoldable pub vault_provider : HostProfile → Option VaultProvider
vault_provider h = elim h.vault [ none ↦ none | some v ↦ some v.provider ]

pub credential_source : HostProfile → Option CredentialSource
unfolding uses_login_password vault_provider provider_source
credential_source h =
    if uses_login_password h
    then some (elim (vault_provider h) [ none ↦ credential_manager | some p ↦ provider_source p ])
    else none

pub effective_auth_persistence : HostProfile → AuthPersistence
effective_auth_persistence h = if is_ssh h.protocol then h.auth_persistence else per_call

-- `HashSet::contains` of ids
abbrev pub contains_id : Uuid → List Uuid → Bool
contains_id i ids = any (λ j. j == i) ids

-- `find_alias`
pub find_alias : List HostProfile → Text → Option HostProfile
unfolding trim eq_ignore_ascii_case
find_alias hosts alias =
    let wanted = trim alias in find (λ (h : HostProfile). eq_ignore_ascii_case h.alias wanted) hosts

pub data ValidationIssue : Type 0 where
  alias address username port private_key chain telnet_chain auth_persistence advanced sudo :
      ValidationIssue
