-- ===== src/Sudo/Launch.antt =====
-- src/sudo.rs and src/su.rs, `validate` and `launch`: the command line that starts a program. The
-- nonce, which the source draws at random, is an argument; a failure is its code.
pub mod Words
mod Tests
use codex_hosts.Prelude.{
  ℕ, Bool, false, not, ◌||◌, Option, List, [], ◌∷◌, ◌++◌, ◌==◌, Text, codes, any, Result, ok, ◌>>=◌,
  ◌>>◌, refuse_if, ok_or, String, map,
}
use codex_hosts.Text.{trim, is_control}
use codex_hosts.Model.{valid_sudo_username, HostProfile, is_ssh}
use codex_hosts.Sudo.Quoting.{quote, join}

abbrev pub first_is : (ℕ → Bool) → Text → Bool
first_is p [] = false
first_is p (c ∷ s) = p c

abbrev pub holds_nul : Text → Bool
holds_nul t = any (λ c. c == 0) t

-- the test on `program` and `args` that both `validate`s make
abbrev pub bad_program : Text → List Text → Bool
bad_program program args =
    not (first_is (λ c. c == b'/') program) || holds_nul program || any holds_nul args

pub bad_sudo_user : Text → Bool
bad_sudo_user user = not (valid_sudo_username user) || first_is (λ c. c == b'#') user

pub validate_sudo : HostProfile → Text → List Text → Option Text → Result String Text
validate_sudo profile program args user = do
  refuse_if (not (is_ssh profile.protocol)) "SSH_REQUIRED"
  given ← ok_or user "SUDO_USER_REQUIRED"
  refuse_if (bad_sudo_user (trim given)) "SUDO_INVALID_INPUT"
  refuse_if (bad_program program args) "SUDO_INVALID_INPUT"
  ok (trim given)

pub bad_su_user : Text → Bool
bad_su_user user =
    not (valid_sudo_username user)
    || first_is (λ c. c == b'-' || c == b'#') user
    || any is_control user

pub validate_su : HostProfile → Text → List Text → Option Text → Result String Text
validate_su profile program args user = do
  refuse_if (not (is_ssh profile.protocol)) "SSH_REQUIRED"
  given ← ok_or user "SU_USER_REQUIRED"
  refuse_if (bad_su_user (trim given)) "SU_INVALID_INPUT"
  refuse_if (bad_program program args) "SU_INVALID_INPUT"
  ok (trim given)

pub record Launch : Type 0 where
  pub user : Text
  pub command : Text
  pub ack : Text

abbrev pub sudo_shim : Text
sudo_shim =
    codes
      "printf '\\036CH_SUDO_READY_%s\\037' \"$1\" >&2 || exit 125; IFS= read -r _codex_hosts_ack && [ \"$_codex_hosts_ack\" = \"CH_SUDO_ACK_$1\" ] || exit 125; shift; exec \"$@\""

abbrev pub su_shim : Text
su_shim =
    codes
      "printf '\\036CH_SU_READY_%s\\037' \"$1\" >&2 || exit 125; IFS= read -r _codex_hosts_ack && [ \"$_codex_hosts_ack\" = \"CH_SU_ACK_$1\" ] || exit 125; shift; exec \"$@\""

abbrev pub su_start : Text
su_start =
    codes
      "printf '\\036CH_SU_BEGIN_%s\\037' \"$1\" >&2 || exit 125; shift; exec /usr/bin/env LC_ALL=C /usr/bin/su \"$@\""

-- `AuthProtocol::prompt`
pub prompt : Text → Text
prompt nonce = 0x1e ∷ codes "CH_SUDO_AUTH_" ++ nonce ++ codes ":%p" ++ 0x1f ∷ []

pub sudo_argv : Text → Text → Text → List Text → List Text
sudo_argv nonce user program args =
    codes "/usr/bin/sudo"
    ∷ codes "-S"
    ∷ codes "-p"
    ∷ prompt nonce
    ∷ codes "-u"
    ∷ user
    ∷ codes "--"
    ∷ codes "/bin/sh"
    ∷ codes "-c"
    ∷ sudo_shim
    ∷ codes "codex-hosts-sudo"
    ∷ nonce
    ∷ program
    ∷ args

pub su_argv : Text → Text → Text → List Text → List Text
su_argv nonce user program args =
    codes "/bin/sh"
    ∷ codes "-c"
    ∷ su_start
    ∷ codes "codex-hosts-su-start"
    ∷ nonce
    ∷ codes "-s"
    ∷ codes "/bin/sh"
    ∷ codes "-c"
    ∷ su_shim
    ∷ codes "--"
    ∷ user
    ∷ codes "codex-hosts-su"
    ∷ nonce
    ∷ program
    ∷ args

pub launch_sudo : Text → HostProfile → Text → List Text → Option Text → Result String Launch
launch_sudo nonce profile program args user = do
  name ← validate_sudo profile program args user
  ok (record {
    user = name;
    command = join (map quote (sudo_argv nonce name program args));
    ack = codes "CH_SUDO_ACK_" ++ nonce ++ b'\n' ∷ [];
  })

pub launch_su : Text → HostProfile → Text → List Text → Option Text → Result String Launch
launch_su nonce profile program args user = do
  name ← validate_su profile program args user
  ok (record {
    user = name;
    command = join (map quote (su_argv nonce name program args));
    ack = codes "CH_SU_ACK_" ++ nonce ++ b'\n' ∷ [];
  })
