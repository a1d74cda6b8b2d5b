-- ===== src/Model/Validation.antt =====
-- src/model.rs: `validation_issue` of the advanced settings and of a profile.
pub mod Rules
pub mod Sound
mod Tests
use codex_hosts.Prelude.{
  ℕ, ◌≤◌, ◌≡◌, ◌≢◌, refl, sym, ap, ◌∙◌, Bool, true, false, not, ◌&&◌, ◌||◌, Option, none, some,
  List, [], ◌∷◌, if◌then◌else◌, leb, ◌==◌, ◌=ᵗ◌, Text, is_empty, any, arith, none_ne_some, All,
  text_eq_iff, ==_ne, ◌↔◌,
}
use codex_hosts.Text.{trim}
use codex_hosts.Model.{
  ValidationIssue, contains_id, Uuid, Protocol, ssh, telnet, SshAuth, AuthPersistence, per_call,
  max_idle_persistence_minutes, SudoCredential, SudoSettings, valid_sudo_username, AdvancedSettings,
  HostProfile, is_ssh, is_private_key, is_some,
}

abbrev pub contains_text : List Text → Text → Bool
contains_text seen t = any (λ u. u =ᵗ t) seen

-- the closure of `any` over the credentials, with its two sets
pub bad_credentials : List Text → List Uuid → List SudoCredential → Bool
bad_credentials users ids [] = false
bad_credentials users ids (c ∷ cs) =
    not (valid_sudo_username c.username)
    || contains_text users (trim c.username)
    || contains_id c.id ids
    || bad_credentials (trim c.username ∷ users) (c.id ∷ ids) cs

abbrev pub none_or : (ℕ → Bool) → Option ℕ → Bool
none_or p none = true
none_or p (some n) = p n

abbrev pub max_channels_per_host : ℕ
max_channels_per_host = 16

abbrev pub min_keepalive_seconds : ℕ
min_keepalive_seconds = 10

abbrev pub max_keepalive_seconds : ℕ
max_keepalive_seconds = 300

pub channels_ok : AdvancedSettings → Bool
channels_ok a = none_or (λ v. leb 1 v && leb v max_channels_per_host) a.max_channels

pub keepalive_ok : AdvancedSettings → Bool
keepalive_ok a =
    none_or (λ v. leb min_keepalive_seconds v && leb v max_keepalive_seconds) a.keepalive_s

pub timeouts_ok : AdvancedSettings → Bool
timeouts_ok a =
    none_or (λ v. leb 1 v) a.connect_timeout_s && none_or (λ v. leb 1 v) a.command_timeout_s

pub sudo_bad : AdvancedSettings → Bool
sudo_bad a = elim a.sudo [ none ↦ false | some s ↦ bad_credentials [] [] s.credentials ]

pub advanced_issue : AdvancedSettings → Option ValidationIssue
advanced_issue a =
    if sudo_bad a
    then some ValidationIssue.sudo
    else if not (channels_ok a && keepalive_ok a && timeouts_ok a)
    then some ValidationIssue.advanced
    else none

abbrev pub idle_bad : AuthPersistence → Bool
idle_bad (AuthPersistence.idle minutes) =
    not (leb 1 minutes && leb minutes max_idle_persistence_minutes)
idle_bad _ = false

pub validation_issue : HostProfile → Option ValidationIssue
validation_issue h =
    if is_empty (trim h.alias)
    then some ValidationIssue.alias
    else if is_empty (trim h.address)
    then some ValidationIssue.address
    else if is_empty (trim h.username)
    then some ValidationIssue.username
    else if h.port == 0
    then some ValidationIssue.port
    else if is_ssh h.protocol && is_private_key h.ssh_auth && is_empty (trim h.private_key_path)
    then some ValidationIssue.private_key
    else if not (is_ssh h.protocol) && is_some h.jump_host
    then some ValidationIssue.telnet_chain
    else if idle_bad h.auth_persistence
    then some ValidationIssue.auth_persistence
    else advanced_issue h.advanced
