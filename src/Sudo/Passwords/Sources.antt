-- ===== src/Sudo/Passwords/Sources.antt =====
-- Which places are read for a prompt, and what is answered.
use codex_hosts.Prelude.{
  if-case, ◌≡◌, ◌≢◌, refl, sym, ap, ◌∙◌, inl, inr, ◌⊎◌, true, false, Option, none, some, List, [],
  ◌∷◌, if◌then◌else◌, ◌=ᵗ◌, Text, find, Result, ok, err, err_ne_ok, ok_injective, >>=-eq-ok, arith,
  Bool-cases, Option-cases, All, String, map, text_eq_iff,
}
use codex_hosts.Text.{trim}
use codex_hosts.Model.{
  Uuid, ssh, SshAuth, SudoCredential, SudoSettings, SuSettings, HostProfile, is_vault_host,
}
use codex_hosts.Sudo.Passwords.{
  PasswordMethod, sudo, su, password, login_password, login_password_kind, admission, vault,
  sudo_enabled, su_enabled, or_read, CredentialKind, sudo_password, disabled, failure, allowed,
  Candidate, record_of, login, saved_record, own_login, candidates, untypeable, usable, Place,
  stored, place, fetch, attempt, try_each, password_for,
}

pub record IsOwnLogin (profile : HostProfile) (username : Text) : Type 0 where
  pub over_ssh : profile.protocol ≡ ssh
  pub by_password : profile.ssh_auth ≡ SshAuth.password
  pub same_user : username ≡ trim profile.username

-- where the password of the login itself is saved: the entry it shares with other hosts, if it has one,
-- or the host's own
abbrev pub IsLoginKind : Option Uuid → CredentialKind → Type 0
IsLoginKind none kind = kind ≡ password
IsLoginKind (some id) kind = kind ≡ login_password id

-- for a host of a password manager, what the admission has read, or the item read again
abbrev pub IsVaultPlace : Option Text → Place → Type 0
IsVaultPlace none p = p ≡ vault
IsVaultPlace (some t) p = p ≡ admission t

abbrev pub IsLoginPlace : HostProfile → Option Text → Place → Type 0
IsLoginPlace profile given p =
    ((is_vault_host profile ≡ true) × IsVaultPlace given p)
    ⊎ ((is_vault_host profile ≡ false)
        × ((kind : CredentialKind) × (p ≡ stored kind)
            × IsLoginKind profile.login_password_id kind))

-- A place that holds a password of this very user: the entry of a record saved under the name, or
-- that of the login where the login itself is of this user and by password.
abbrev pub Entitled : HostProfile → Text → Option Text → Place → Type 0
Entitled profile username given p =
    ((c : SudoCredential) × (saved_record profile username ≡ some c)
      × (trim c.username ≡ username)
      × (p ≡ stored (sudo_password c.id)))
    ⊎ (IsOwnLogin profile username × IsLoginPlace profile given p)

vault_place :
    (given : Option Text) → IsVaultPlace given (elim given [ none ↦ vault | some t ↦ admission t ])
vault_place none = refl
vault_place (some t) = refl

login_kind :
    (id : Option Uuid) → IsLoginKind id (elim id [ none ↦ password | some i ↦ login_password i ])
login_kind none = refl
login_kind (some i) = refl

place-IsLoginPlace :
    (profile : HostProfile) (given : Option Text)
    → IsLoginPlace profile given (place profile given login)
unfolding place login_password_kind
place-IsLoginPlace profile given =
    if-case (IsLoginPlace profile given) (is_vault_host profile) (λ e. inl (e, vault_place given))
      (λ e. inr (e, (login_password_kind profile, refl, login_kind profile.login_password_id)))

find_name :
    (username : Text) (cs : List SudoCredential) (c : SudoCredential)
    → find (λ (c : SudoCredential). trim c.username =ᵗ username) cs ≡ some c
    → trim c.username ≡ username
find_name username [] c h = cc
find_name username (d ∷ cs) c h = elim (Bool-cases (trim d.username =ᵗ username)) [
  | inl e ↦
      let same : d ≡ c = ground arith in
      ap (λ (x : SudoCredential). trim x.username) (sym same) ∙ (text_eq_iff _ _).0 e
  | inr e ↦ find_name username cs c (ground arith)
]

saved_name :
    (profile : HostProfile) (username : Text) (c : SudoCredential)
    → saved_record profile username ≡ some c
    → trim c.username ≡ username
unfolding saved_record
saved_name profile username c h = elim (Option-cases profile.advanced.sudo) [
  | inl e ↦ ground arith
  | inr (s, e) ↦ find_name username s.credentials c (ground arith)
]

is_own :
    (profile : HostProfile) (username : Text)
    → own_login profile username ≡ true
    → IsOwnLogin profile username
unfolding own_login
is_own profile username h = record {
  over_ssh = ground arith;
  by_password = ground arith;
  same_user = (text_eq_iff username (trim profile.username)).0 (ground arith);
}

module _ (profile : HostProfile) (username : Text) (method : PasswordMethod)
    (given : Option Text) where
  abbrev logins : List Candidate
  logins = if own_login profile username then login ∷ [] else []

  logins-Entitled : All (Entitled profile username given) (map (place profile given) logins)
  logins-Entitled = elim (Bool-cases (own_login profile username)) [
    | inl e ↦ rw e (inr (is_own profile username e, place-IsLoginPlace profile given), tt)
    | inr e ↦ rw e tt
  ]

  candidates-Entitled :
      (cs : List Candidate)
      → candidates profile username method ≡ ok cs
      → All (Entitled profile username given) (map (place profile given) cs)
        × (allowed method profile ≡ true)
  unfolding candidates
  candidates-Entitled cs h = elim (Option-cases (saved_record profile username)) [
    | inl e ↦ let same : cs ≡ logins = ground arith in (rw same logins-Entitled, ground arith)
    | inr (c, e) ↦
        let same : cs ≡ record_of c.id ∷ logins = ground arith in
        (
          rw same
              (inl (c, e, saved_name profile username c e, unfold place in refl), logins-Entitled),
          ground arith,
        )
  ]

candidates-cases :
    (r : Result String (List Candidate))
    → ((e : String) × (r ≡ err e)) ⊎ ((cs : List Candidate) × (r ≡ ok cs))
candidates-cases (err e) = inl (e, refl)
candidates-cases (ok cs) = inr (cs, refl)

attempt-cases :
    (r : Result String (Option Text))
    → ((e : String) × (r ≡ err e)) ⊎ ((r ≡ ok none) ⊎ ((t : Text) × (r ≡ ok (some t))))
attempt-cases (err e) = inl (e, refl)
attempt-cases (ok none) = inr (inl refl)
attempt-cases (ok (some t)) = inr (inr (t, refl))

-- one line, as a prompt takes it
abbrev pub IsTypeable : Text → Type 0
IsTypeable t = All (λ c. (c ≢ 10) × (c ≢ 13) × (c ≢ 0)) t

typeable : (t : Text) → untypeable t ≡ false → IsTypeable t
unfolding untypeable
typeable [] h = tt
typeable (c ∷ t) h = (
  ((λ e. ground arith), (λ e. ground arith), λ e. ground arith),
  typeable t (unfold untypeable in ground arith),
)

-- where the host's settings allow it
abbrev pub IsEnabled : PasswordMethod → HostProfile → Type 0
IsEnabled sudo profile =
    (settings : SudoSettings) × (profile.advanced.sudo ≡ some settings) × (settings.enabled ≡ true)
IsEnabled su profile =
    (settings : SuSettings) × (profile.advanced.su ≡ some settings) × (settings.enabled ≡ true)

allowed-IsEnabled :
    (method : PasswordMethod) (profile : HostProfile)
    → allowed method profile ≡ true
    → (profile.protocol ≡ ssh) × IsEnabled method profile
unfolding allowed
allowed-IsEnabled sudo profile h = (ground arith, sudo_on profile.advanced.sudo (ground arith))
  where
    sudo_on :
        (o : Option SudoSettings)
        → sudo_enabled o ≡ true
        → (settings : SudoSettings) × (o ≡ some settings) × (settings.enabled ≡ true)
    sudo_on none e = cc
    sudo_on (some s) e = (s, refl, e)
allowed-IsEnabled su profile h = (ground arith, su_on profile.advanced.su (ground arith))
  where
    su_on :
        (o : Option SuSettings)
        → su_enabled o ≡ true
        → (settings : SuSettings) × (o ≡ some settings) × (settings.enabled ≡ true)
    su_on none e = cc
    su_on (some s) e = (s, refl, e)

module _ {ℓ} {E : Type ℓ} (load : Uuid → CredentialKind → Result E (Option Text))
    (resolve_login_password : HostProfile → Result String Text) (profile : HostProfile)
    (method : PasswordMethod) where
  -- what the Credential Manager has, if it could be read
  abbrev pub found_in : Result E (Option Text) → Option Text
  found_in (ok o) = o
  found_in (err _) = none

  -- what a place holds
  abbrev pub Holds : Place → Text → Type 0
  Holds (stored kind) t = found_in (load profile.id kind) ≡ some t
  Holds (admission u) t = u ≡ t
  Holds vault t = resolve_login_password profile ≡ ok t

  abbrev pub Answer : Place → Text → Type 0
  Answer p t = Holds p t × (t ≢ []) × IsTypeable t

  fetch-Holds :
      (p : Place) (t : Text)
      → fetch load resolve_login_password profile method p ≡ ok (some t)
      → Holds p t
  unfolding fetch
  fetch-Holds (stored kind) t h = from_store (load profile.id kind) h
    where
      from_store :
          (r : Result E (Option Text))
          → or_read load resolve_login_password profile method r ≡ ok (some t)
          → found_in r ≡ some t
      from_store (ok o) k = ok_injective k
      from_store (err e) k = absurd (err_ne_ok k)
  fetch-Holds (admission u) t h = let same = ok_injective h in ground arith
  fetch-Holds vault t h =
      let (u, got, same) = >>=-eq-ok (resolve_login_password profile) _ h in
      let there = ok_injective same in let is : u ≡ t = ground arith in rw (← is) got

  attempt-Answer :
      (p : Place) (t : Text)
      → attempt load resolve_login_password profile method p ≡ ok (some t)
      → Answer p t
  unfolding usable
  attempt-Answer p t h =
      let (o, got, used) = >>=-eq-ok (fetch load resolve_login_password profile method p) _ h in
      usable_some o got used
    where
      usable_some :
          (o : Option Text)
          → fetch load resolve_login_password profile method p ≡ ok o
          → usable o method ≡ ok (some t)
          → Answer p t
      usable_some none got used = cc
      usable_some (some []) got used = cc
      usable_some (some (c ∷ u)) got used = elim (Bool-cases (untypeable (c ∷ u))) [
        | inl bad ↦ cc
        | inr fine ↦
            let same : c ∷ u ≡ t = ground arith in
            rw (← same) (fetch-Holds p (c ∷ u) got, (λ e. cc), typeable (c ∷ u) fine)
      ]

  module _ (P : Place → Type 0) where
    tried :
        (ps : List Place)
        → All P ps
        → All P (try_each load resolve_login_password profile method ps).1
    unfolding try_each
    tried [] h = tt
    tried (p ∷ ps) (h, hs) =
        elim (attempt-cases (attempt load resolve_login_password profile method p)) [
          | inl (e, failed) ↦ rw (failed, try_each) (h, tt)
          | inr (inl none_there) ↦ rw (none_there, try_each) (h, tried ps hs)
          | inr (inr (t, found)) ↦ rw (found, try_each) (h, tt)
        ]

    answered :
        (ps : List Place) (t : Text)
        → All P ps
        → (try_each load resolve_login_password profile method ps).0 ≡ ok t
        → (p : Place) × P p × Answer p t
    unfolding try_each
    answered [] t h e = cc
    answered (p ∷ ps) t (h, hs) e =
        elim (attempt-cases (attempt load resolve_login_password profile method p)) [
          | inl (c, failed) ↦ absurd (err_ne_ok (rw (failed, try_each) at e))
          | inr (inl none_there) ↦ answered ps t hs (rw (none_there, try_each) at e)
          | inr (inr (u, found)) ↦
              let same = ok_injective (rw (found, try_each) at e) in
              (p, h, attempt-Answer p t (found ∙ ap (λ (x : Text). ok (some x)) same))
        ]

  -- Whatever is answered, only places that hold this user's own password have been read: the entry of a
  -- record saved under the user's name; or, where the login is by password, over SSH and of this user,
  -- the entry of the login's password (its shared one if the host names one), and for a host of a
  -- password manager the password that came with the admission, or else the item.
  pub password_for-reads :
      (username : Text) (given : Option Text)
      → All
          (Entitled profile username given)
          (password_for load resolve_login_password profile method username given).1
  unfolding password_for
  password_for-reads username given = elim (candidates-cases (candidates profile username method)) [
    | inl (e, failed) ↦ rw (failed, password_for) tt
    | inr (cs, found) ↦
        rw (found, password_for)
          (tried (Entitled profile username given) (map (place profile given) cs)
            (candidates-Entitled profile username method given cs found).0)
  ]

  -- Where the settings do not allow it, nothing is read, and the request fails as disabled.
  pub password_for-disabled :
      (username : Text) (given : Option Text)
      → allowed method profile ≡ false
      → password_for load resolve_login_password profile method username given
        ≡ (err (failure method disabled), [])
  unfolding password_for candidates
  password_for-disabled username given h =
      let refused : candidates profile username method ≡ err (failure method disabled) =
        ground arith in
      rw (refused, password_for)

  -- An answered password is what one of these places holds: the entry of a record saved under the
  -- user's name, or where this user's own login keeps its password. It is not empty, has no CR, LF or
  -- NUL, and is given only on an SSH host whose settings for sudo, or for su, turn it on.
  pub password_for-Answer :
      (username : Text) (given : Option Text) (t : Text)
      → (password_for load resolve_login_password profile method username given).0 ≡ ok t
      → (profile.protocol ≡ ssh)
        × IsEnabled method profile
        × ((p : Place) × Entitled profile username given p × Answer p t)
  unfolding password_for
  password_for-Answer username given t h =
      elim (candidates-cases (candidates profile username method)) [
        | inl (e, failed) ↦ absurd (err_ne_ok (rw (failed, password_for) at h))
        | inr (cs, found) ↦
            let (entitled, is) = candidates-Entitled profile username method given cs found in
            let (over_ssh, enabled) = allowed-IsEnabled method profile is in
            (
              over_ssh,
              enabled,
              answered (Entitled profile username given) (map (place profile given) cs) t entitled
                  (rw (found, password_for) at h),
            )
      ]
