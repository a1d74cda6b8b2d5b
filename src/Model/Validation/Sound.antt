-- ===== src/Model/Validation/Sound.antt =====
-- What a profile must satisfy, and that the code tests exactly this.
use codex_hosts.Prelude.{
  ℕ, ◌≤◌, ◌≡◌, ◌≢◌, refl, sym, false, not, ◌&&◌, Option, none, some, [], ◌∷◌, Text, is_empty, arith,
  none_ne_some, ==_ne, ◌↔◌,
}
use codex_hosts.Text.{trim}
use codex_hosts.Model.{
  Uuid, Protocol, ssh, telnet, SshAuth, AuthPersistence, per_call, max_idle_persistence_minutes,
  HostProfile, is_ssh, is_private_key, is_some,
}
use codex_hosts.Model.Validation.{advanced_issue, idle_bad, validation_issue}
use codex_hosts.Model.Validation.Rules.{IsValidAdvanced, advanced_ok, advanced_sound}

pub record IsValidProfile (h : HostProfile) : Type 0 where
  pub alias : trim h.alias ≢ []
  pub address : trim h.address ≢ []
  pub username : trim h.username ≢ []
  pub port : h.port ≢ 0
  pub key : h.protocol ≡ ssh → h.ssh_auth ≡ SshAuth.private_key → trim h.private_key_path ≢ []
  pub no_jump : h.protocol ≡ telnet → h.jump_host ≡ none
  pub idle_minutes :
      (m : ℕ)
      → h.auth_persistence ≡ AuthPersistence.idle m
      → (1 ≤ m) × (m ≤ max_idle_persistence_minutes)
  pub advanced : IsValidAdvanced h.advanced

profile_tests :
    (h : HostProfile)
    → validation_issue h ≡ none
    → (is_empty (trim h.alias) ≡ false)
      × (is_empty (trim h.address) ≡ false)
      × (is_empty (trim h.username) ≡ false)
      × (h.port ≢ 0)
      × (is_ssh h.protocol && is_private_key h.ssh_auth && is_empty (trim h.private_key_path)
          ≡ false)
      × (not (is_ssh h.protocol) && is_some h.jump_host ≡ false)
      × (idle_bad h.auth_persistence ≡ false)
      × (advanced_issue h.advanced ≡ none)
unfolding validation_issue
profile_tests h e = ground arith

ne-nil_iff : (t : Text) → (is_empty t ≡ false) ↔ (t ≢ [])
ne-nil_iff [] = ((λ h. cc), λ h. absurd (h refl))
ne-nil_iff (c ∷ t) = ((λ h e. cc), λ h. refl)

key_test :
    (p : Protocol) (a : SshAuth) (t : Text)
    → (is_ssh p && is_private_key a && is_empty t ≡ false)
      ↔ (p ≡ ssh → a ≡ SshAuth.private_key → t ≢ [])
key_test ssh SshAuth.private_key [] = ((λ h. cc), λ h. absurd (h refl refl refl))
key_test ssh SshAuth.private_key (c ∷ t) = ((λ h e f g. cc), λ h. refl)
key_test ssh SshAuth.password t = ((λ h e f. cc), λ h. refl)
key_test ssh SshAuth.ssh_agent t = ((λ h e f. cc), λ h. refl)
key_test telnet a t = ((λ h e. cc), λ h. refl)

jump_test :
    (p : Protocol) (j : Option Uuid)
    → (not (is_ssh p) && is_some j ≡ false) ↔ (p ≡ telnet → j ≡ none)
jump_test ssh j = ((λ h e. cc), λ h. refl)
jump_test telnet none = ((λ h e. refl), λ h. refl)
jump_test telnet (some j) = ((λ h. cc), λ h. absurd (none_ne_some (sym (h refl))))

idle_test :
    (a : AuthPersistence)
    → (idle_bad a ≡ false)
      ↔ ((m : ℕ) → a ≡ AuthPersistence.idle m → (1 ≤ m) × (m ≤ max_idle_persistence_minutes))
idle_test (AuthPersistence.idle n) =
    ((λ h m e. let same : n ≡ m = cc in ground arith), λ h. let k = h n refl in ground arith)
idle_test per_call = ((λ h m e. cc), λ h. refl)
idle_test AuthPersistence.session = ((λ h m e. cc), λ h. refl)

-- A profile has no validation issue exactly when it is valid: its alias, address and user name are
-- not blank, its port is not 0, a private-key login over SSH names a key, a Telnet host has no jump
-- host, idle minutes are in range, and the advanced settings are valid, their sudo accounts with
-- usable names, no two of them with one trimmed name or one id.
pub validation_issue_iff : (h : HostProfile) → (validation_issue h ≡ none) ↔ IsValidProfile h
unfolding validation_issue
validation_issue_iff h = (
  (λ e.
      let (a, b, c, d, k, j, i, v) = profile_tests h e in
      record {
        alias = (ne-nil_iff (trim h.alias)).0 a;
        address = (ne-nil_iff (trim h.address)).0 b;
        username = (ne-nil_iff (trim h.username)).0 c;
        port = d;
        key = (key_test h.protocol h.ssh_auth (trim h.private_key_path)).0 k;
        no_jump = (jump_test h.protocol h.jump_host).0 j;
        idle_minutes = (idle_test h.auth_persistence).0 i;
        advanced = advanced_sound h.advanced v;
      }),
  λ v.
      let a = (ne-nil_iff (trim h.alias)).1 v.alias in
      let b = (ne-nil_iff (trim h.address)).1 v.address in
      let c = (ne-nil_iff (trim h.username)).1 v.username in
      let d = ==_ne h.port 0 v.port in
      let k = (key_test h.protocol h.ssh_auth (trim h.private_key_path)).1 v.key in
      let j = (jump_test h.protocol h.jump_host).1 v.no_jump in
      let i = (idle_test h.auth_persistence).1 v.idle_minutes in
      let w = advanced_ok h.advanced v.advanced in rw (a, b, c, d, k, j, i, w),
)
