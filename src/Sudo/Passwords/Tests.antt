-- ===== src/Sudo/Passwords/Tests.antt =====
-- Prompts that concrete saved passwords answer. `inner` has an account for root, and su is off.
use codex_hosts.Prelude.{
  ◌≡◌, refl, ap, false, Option, none, some, List, [], ◌∷◌, if◌then◌else◌, ◌==◌, Text, codes, Result,
  ok, err, All, String,
}
use codex_hosts.Text.{trim}
use codex_hosts.Model.{Uuid, HostProfile, ssh}
use codex_hosts.Model.Samples.{inner}
use codex_hosts.Sudo.Passwords.{
  sudo, su, CredentialKind, sudo_password, allowed, Place, stored, place, fetch, try_each,
  password_for, candidates, saved_record, own_login, untypeable, usable,
}
use codex_hosts.Prelude.{if◌then◌else◌, ◌==◌}
use codex_hosts.Sudo.Passwords.Sources.{
  Entitled, Answer, IsEnabled, password_for-reads, password_for-Answer,
}

abbrev load : Uuid → CredentialKind → Result String (Option Text)
load id (sudo_password n) = if n == 7 then ok (some (codes "pw")) else ok none
load id _ = ok none

abbrev resolve_login_password : HostProfile → Result String Text
resolve_login_password host = err "LOCKED"

answered :
    password_for load resolve_login_password inner sudo (codes "root") none
    ≡ (ok (codes "pw"), stored (sudo_password 7) ∷ [])
unfolding password_for try_each fetch usable untypeable candidates saved_record own_login allowed
    place trim
answered = refl

answered_text :
    (password_for load resolve_login_password inner sudo (codes "root") none).0 ≡ ok (codes "pw")
answered_text = ap (λ (r : Result String Text × List Place). r.0) answered

su_off : allowed su inner ≡ false
unfolding allowed
su_off = refl

password_for-reads_example :
    All
      (Entitled inner (codes "root") none)
      (password_for load resolve_login_password inner sudo (codes "root") none).1
password_for-reads_example =
    password_for-reads load resolve_login_password inner sudo (codes "root") none

password_for-Answer_example :
    (inner.protocol ≡ ssh)
    × IsEnabled sudo inner
    × ((p : Place) × Entitled inner (codes "root") none p
        × Answer load resolve_login_password inner sudo p (codes "pw"))
password_for-Answer_example =
    password_for-Answer load resolve_login_password inner sudo (codes "root") none (codes "pw")
      answered_text
