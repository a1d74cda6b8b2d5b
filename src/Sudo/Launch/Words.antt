-- ===== src/Sudo/Launch/Words.antt =====
-- What an accepted request starts.
use codex_hosts.Prelude.{
  ◌++◌, sym, ◌≡◌, ◌≢◌, Bool, true, false, not, ◌||◌, Option, some, List, [], ◌∷◌, ◌==◌, Text, codes,
  any, ok, ◌>>=◌, ◌>>◌, refuse_if, ok_injective, ok_or, >>=-eq-ok, refuse_if-eq-ok, ok_or-eq-ok,
  arith, String,
}
use codex_hosts.Text.{trim, is_control}
use codex_hosts.Model.{ssh, valid_sudo_username, HostProfile, is_ssh}
use codex_hosts.Sudo.Quoting.{shell_words, shell_words-join}
use codex_hosts.Sudo.Launch.{
  first_is, holds_nul, bad_program, bad_sudo_user, validate_sudo, bad_su_user, validate_su, Launch,
  sudo_argv, su_argv, launch_sudo, launch_su, sudo_shim, su_shim, su_start, prompt,
}

-- What a caller may rely on when a request has been accepted.
pub record IsSafe (profile : HostProfile) (user program : Text) (args : List Text) : Type 0 where
  pub over_ssh : profile.protocol ≡ ssh
  pub named : user ≢ []
  pub rooted : (rest : Text) × (program ≡ b'/' ∷ rest)
  pub no_nul : (holds_nul program ≡ false) × (any holds_nul args ≡ false)

rooted_of : (t : Text) → first_is (λ c. c == b'/') t ≡ true → (rest : Text) × (t ≡ b'/' ∷ rest)
rooted_of [] h = cc
rooted_of (c ∷ t) h = (t, ground arith)

named_of : (user : Text) → valid_sudo_username user ≡ true → user ≢ []
unfolding valid_sudo_username
named_of [] h e = cc
named_of (c ∷ user) h e = cc

module _ (profile : HostProfile) (user program : Text) (args : List Text) where
  IsSafe-intro :
      is_ssh profile.protocol ≡ true
      → valid_sudo_username user ≡ true
      → bad_program program args ≡ false
      → IsSafe profile user program args
  IsSafe-intro is valid fine = record {
    over_ssh = ground arith;
    named = named_of user valid;
    rooted = rooted_of program (ground arith);
    no_nul = ground arith;
  }

  sudo_user_valid :
      bad_sudo_user user ≡ false
      → (valid_sudo_username user ≡ true) × (first_is (λ c. c == b'#') user ≡ false)
  unfolding bad_sudo_user
  sudo_user_valid h = ground arith

  su_user_valid :
      bad_su_user user ≡ false
      → (valid_sudo_username user ≡ true)
        × (first_is (λ c. c == b'-' || c == b'#') user ≡ false)
        × (any is_control user ≡ false)
  unfolding bad_su_user
  su_user_valid h = ground arith

-- the name is the requested one, trimmed
abbrev pub IsAsked : Option Text → Text → Type 0
IsAsked user name = (given : Text) × (user ≡ some given) × (name ≡ trim given)

-- both `validate`s: the checks in order
module _ (profile : HostProfile) (program : Text) (args : List Text) (user : Option Text)
    (bad_user : Text → Bool) (missing invalid : String) (name : Text) where
  validate_tests :
      (do
        refuse_if (not (is_ssh profile.protocol)) "SSH_REQUIRED"
        given ← ok_or user missing
        refuse_if (bad_user (trim given)) invalid
        refuse_if (bad_program program args) invalid
        ok (trim given))
        ≡ ok name
      → IsAsked user name
        × (is_ssh profile.protocol ≡ true)
        × (bad_user name ≡ false)
        × (bad_program program args ≡ false)
  validate_tests h =
      let (is, h₁) = refuse_if-eq-ok (not (is_ssh profile.protocol)) _ _ h in
      let (given, asked, h₂) = ok_or-eq-ok user missing _ h₁ in
      let (good, h₃) = refuse_if-eq-ok (bad_user (trim given)) invalid _ h₂ in
      let (fine, h₄) = refuse_if-eq-ok (bad_program program args) invalid _ h₃ in
      let same = ok_injective h₄ in ((given, asked, sym same), ground arith, rw (← same) good, fine)

module _ (nonce : Text) (profile : HostProfile) (program : Text) (args : List Text)
    (user : Option Text) (l : Launch) where
  -- An accepted sudo request: a POSIX shell splits its line into these words: sudo, told to read the
  -- password from its input with this call's prompt and to run as the requested user, then /bin/sh
  -- with the script that waits for the acknowledgement, then the nonce, the caller's program and the
  -- caller's arguments, unchanged and in order. The user is the requested one, trimmed; the host is
  -- an SSH host, the user is named and does not begin with #, the program is an absolute path, and
  -- neither it nor an argument holds a NUL.
  pub launch_sudo-words :
      launch_sudo nonce profile program args user ≡ ok l
      → (shell_words l.command
          ≡ some (
              (codes "/usr/bin/sudo"
                ∷ codes "-S"
                ∷ codes "-p"
                ∷ (0x1e ∷ codes "CH_SUDO_AUTH_" ++ nonce ++ codes ":%p" ++ 0x1f ∷ [])
                ∷ codes "-u"
                ∷ l.user
                ∷ codes "--"
                ∷ codes "/bin/sh"
                ∷ codes "-c"
                ∷ sudo_shim
                ∷ codes "codex-hosts-sudo"
                ∷ nonce
                ∷ [])
              ++ program ∷ args))
        × IsAsked user l.user
        × IsSafe profile l.user program args
        × (first_is (λ c. c == b'#') l.user ≡ false)
  unfolding launch_sudo validate_sudo sudo_argv prompt
  launch_sudo-words h =
      let (name, valid, same) = >>=-eq-ok (validate_sudo profile program args user) _ h in
      let (asked, is, good, fine) =
        validate_tests profile program args user bad_sudo_user "SUDO_USER_REQUIRED"
          "SUDO_INVALID_INPUT" name valid in
      let (v, first) = sudo_user_valid profile name program args good in
      let made = ok_injective same in
      rw (← made) (
        shell_words-join (codes "/usr/bin/sudo") _,
        asked,
        IsSafe-intro profile name program args is v fine,
        first,
      )

  -- An accepted su request: a POSIX shell splits its line into these words: /bin/sh with the script that
  -- starts su, its name and the nonce, then su's options, which make it run /bin/sh with the script
  -- that waits for the acknowledgement, then the requested user, that script's name and the nonce, the
  -- caller's program and the caller's arguments, unchanged and in order. The user is the requested one,
  -- trimmed; the host is an SSH host, the user is named, begins with neither - nor # and has no control
  -- characters, the program is an absolute path, and neither it nor an argument holds a NUL.
  pub launch_su-words :
      launch_su nonce profile program args user ≡ ok l
      → (shell_words l.command
          ≡ some (
              (codes "/bin/sh" ∷ codes "-c" ∷ su_start ∷ codes "codex-hosts-su-start" ∷ nonce ∷ [])
              ++ (codes "-s" ∷ codes "/bin/sh" ∷ codes "-c" ∷ su_shim ∷ codes "--" ∷ l.user ∷ [])
              ++ (codes "codex-hosts-su" ∷ nonce ∷ [])
              ++ program ∷ args))
        × IsAsked user l.user
        × IsSafe profile l.user program args
        × (first_is (λ c. c == b'-' || c == b'#') l.user ≡ false)
        × (any is_control l.user ≡ false)
  unfolding launch_su validate_su su_argv
  launch_su-words h =
      let (name, valid, same) = >>=-eq-ok (validate_su profile program args user) _ h in
      let (asked, is, good, fine) =
        validate_tests profile program args user bad_su_user "SU_USER_REQUIRED" "SU_INVALID_INPUT"
          name valid in
      let (v, first, controls) = su_user_valid profile name program args good in
      let made = ok_injective same in
      rw (← made) (
        shell_words-join (codes "/bin/sh") _,
        asked,
        IsSafe-intro profile name program args is v fine,
        first,
        controls,
      )
