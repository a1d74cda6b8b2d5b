-- ===== src/Sudo/Passwords.antt =====
-- src/sudo.rs, `password_for_method_async`: which saved passwords may answer a sudo or su prompt. The
-- Credential Manager and the vault are arguments; the places that were read are returned too.
pub mod Sources
mod Tests
use codex_hosts.Prelude.{
  Bool, false, not, ◌&&◌, ◌||◌, Option, none, some, List, [], ◌∷◌, if◌then◌else◌, ◌==◌, ◌=ᵗ◌, Text,
  is_empty, any, find, Result, ok, err, ◌>>=◌, ◌>>◌, String, map,
}
use codex_hosts.Text.{trim}
use codex_hosts.Model.{
  Uuid, SudoCredential, SudoSettings, SuSettings, HostProfile, is_ssh, is_password, is_vault_host,
}

pub data PasswordMethod : Type 0 where
  sudo su : PasswordMethod

-- credentials.rs
pub data CredentialKind : Type 0 where
  password key_passphrase : CredentialKind
  login_password sudo_password bitwarden_session : Uuid → CredentialKind

pub login_password_kind : HostProfile → CredentialKind
login_password_kind host = elim host.login_password_id [
  | none ↦ password
  | some id ↦ login_password id
]

pub data Reason : Type 0 where
  disabled read invalid missing : Reason

-- the code of `PasswordMethod::failure`
pub failure : PasswordMethod → Reason → String
failure sudo disabled = "SUDO_AUTO_AUTH_DISABLED"
failure sudo read = "SUDO_CREDENTIAL_READ_FAILED"
failure sudo invalid = "SUDO_INVALID_PASSWORD"
failure sudo missing = "SUDO_CREDENTIAL_MISSING"
failure su disabled = "SU_AUTO_AUTH_DISABLED"
failure su read = "SU_CREDENTIAL_READ_FAILED"
failure su invalid = "SU_INVALID_PASSWORD"
failure su missing = "SU_CREDENTIAL_MISSING"

abbrev pub sudo_enabled : Option SudoSettings → Bool
sudo_enabled none = false
sudo_enabled (some s) = s.enabled

abbrev pub su_enabled : Option SuSettings → Bool
su_enabled none = false
su_enabled (some s) = s.enabled

pub allowed : PasswordMethod → HostProfile → Bool
allowed sudo profile = is_ssh profile.protocol && sudo_enabled profile.advanced.sudo
allowed su profile = is_ssh profile.protocol && su_enabled profile.advanced.su

pub data Candidate : Type 0 where
  record_of : Uuid → Candidate
  login : Candidate

pub saved_record : HostProfile → Text → Option SudoCredential
saved_record profile username = elim profile.advanced.sudo [
  | none ↦ none
  | some s ↦ find (λ (c : SudoCredential). trim c.username =ᵗ username) s.credentials
]

pub own_login : HostProfile → Text → Bool
own_login profile username =
    is_ssh profile.protocol && is_password profile.ssh_auth && username =ᵗ trim profile.username

pub candidates : HostProfile → Text → PasswordMethod → Result String (List Candidate)
candidates profile username method =
    let logins = if own_login profile username then login ∷ [] else [] in
    if not (allowed method profile)
    then err (failure method disabled)
    else ok
        (elim (saved_record profile username) [ none ↦ logins | some c ↦ record_of c.id ∷ logins ])

-- `validate_password`
pub untypeable : Text → Bool
untypeable t = any (λ c. c == b'\r' || c == b'\n' || c == 0) t

pub usable : Option Text → PasswordMethod → Result String (Option Text)
usable none method = ok none
usable (some t) method =
    if is_empty t
    then ok none
    else if untypeable t
    then err (failure method invalid)
    else ok (some t)

-- A place that a password is taken from: a Credential Manager entry of the host, the password that
-- the call's admission has read, or the vault item read again.
pub data Place : Type 0 where
  stored : CredentialKind → Place
  admission : Text → Place
  vault : Place

pub place : HostProfile → Option Text → Candidate → Place
place profile given (record_of id) = stored (sudo_password id)
place profile given login =
    if is_vault_host profile
    then (elim given [ none ↦ vault | some t ↦ admission t ])
    else stored (login_password_kind profile)

module _ {ℓ} {E : Type ℓ} (load : Uuid → CredentialKind → Result E (Option Text))
    (resolve_login_password : HostProfile → Result String Text) (profile : HostProfile)
    (method : PasswordMethod) where
  abbrev pub or_read : Result E (Option Text) → Result String (Option Text)
  or_read (ok t) = ok t
  or_read (err _) = err (failure method read)

  pub fetch : Place → Result String (Option Text)
  fetch (stored kind) = or_read (load profile.id kind)
  fetch (admission t) = ok (some t)
  fetch vault = do t ← resolve_login_password profile; ok (some t)

  abbrev attempt : Place → Result String (Option Text)
  attempt p = do t ← fetch p; usable t method

  -- the loop over the candidates
  pub try_each : List Place → Result String Text × List Place
  try_each [] = (err (failure method missing), [])
  try_each (p ∷ ps) =
      let later = try_each ps in
      elim (attempt p) [
        | err e ↦ (err e, p ∷ [])
        | ok (some t) ↦ (ok t, p ∷ [])
        | ok none ↦ (later.0, p ∷ later.1)
      ]

  pub password_for : Text → Option Text → Result String Text × List Place
  password_for username given = elim (candidates profile username method) [
    | err e ↦ (err e, [])
    | ok cs ↦ try_each (map (place profile given) cs)
  ]
