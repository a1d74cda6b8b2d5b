-- ===== src/Sudo/Launch/Tests.antt =====
-- Concrete sudo and su requests.
use codex_hosts.Prelude.{
  ◌++◌, ◌≡◌, refl, false, ◌||◌, some, [], ◌∷◌, ◌==◌, Text, codes, any, ok, map,
}
use codex_hosts.Text.{trim, is_control}
use codex_hosts.Model.{valid_sudo_username}
use codex_hosts.Model.Samples.{inner}
use codex_hosts.Sudo.Quoting.{quote, join, shell_words}
use codex_hosts.Sudo.Launch.{
  launch_sudo, launch_su, validate_sudo, validate_su, bad_sudo_user, bad_su_user, Launch, sudo_argv,
  su_argv, first_is, sudo_shim, su_shim, su_start,
}
use codex_hosts.Sudo.Launch.Words.{IsSafe, IsAsked, launch_sudo-words, launch_su-words}

-- what the tests compute with
computed : Unit {0}
unfolding is_control launch_sudo launch_su validate_sudo validate_su bad_sudo_user bad_su_user
    valid_sudo_username trim
computed = tt

abbrev program : Text
program = codes "/bin/ls"

abbrev by_sudo : Launch
by_sudo = record {
  user = codes "root";
  command = join (map quote (sudo_argv (codes "n1") (codes "root") program (codes "a b" ∷ [])));
  ack = codes "CH_SUDO_ACK_n1\n";
}

abbrev by_su : Launch
by_su = record {
  user = codes "root";
  command = join (map quote (su_argv (codes "n1") (codes "root") program []));
  ack = codes "CH_SU_ACK_n1\n";
}

launched_sudo :
    launch_sudo (codes "n1") inner program (codes "a b" ∷ []) (some (codes " root")) ≡ ok by_sudo
unfolding computed
launched_sudo = refl

launched_su : launch_su (codes "n1") inner program [] (some (codes "root ")) ≡ ok by_su
unfolding computed
launched_su = refl

launch_sudo-words_example :
    (shell_words by_sudo.command
      ≡ some (
          (codes "/usr/bin/sudo"
            ∷ codes "-S"
            ∷ codes "-p"
            ∷ (0x1e ∷ codes "CH_SUDO_AUTH_n1:%p" ++ 0x1f ∷ [])
            ∷ codes "-u"
            ∷ codes "root"
            ∷ codes "--"
            ∷ codes "/bin/sh"
            ∷ codes "-c"
            ∷ sudo_shim
            ∷ codes "codex-hosts-sudo"
            ∷ codes "n1"
            ∷ [])
          ++ program ∷ codes "a b" ∷ []))
    × IsAsked (some (codes " root")) (codes "root")
    × IsSafe inner (codes "root") program (codes "a b" ∷ [])
    × (first_is (λ c. c == b'#') (codes "root") ≡ false)
launch_sudo-words_example =
    launch_sudo-words (codes "n1") inner program (codes "a b" ∷ []) (some (codes " root")) by_sudo
      launched_sudo

launch_su-words_example :
    (shell_words by_su.command
      ≡ some (
          (codes "/bin/sh" ∷ codes "-c" ∷ su_start ∷ codes "codex-hosts-su-start" ∷ codes "n1" ∷ [])
          ++ (codes "-s" ∷ codes "/bin/sh" ∷ codes "-c" ∷ su_shim ∷ codes "--" ∷ codes "root" ∷ [])
          ++ (codes "codex-hosts-su" ∷ codes "n1" ∷ [])
          ++ program ∷ []))
    × IsAsked (some (codes "root ")) (codes "root")
    × IsSafe inner (codes "root") program []
    × (first_is (λ c. c == b'-' || c == b'#') (codes "root") ≡ false)
    × (any is_control (codes "root") ≡ false)
launch_su-words_example =
    launch_su-words (codes "n1") inner program [] (some (codes "root ")) by_su launched_su
