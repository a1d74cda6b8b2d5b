-- ===== src/Sudo/Quoting/Tests.antt =====
-- The quoting of concrete arguments.
use codex_hosts.Prelude.{◌≡◌, some, [], ◌∷◌, codes, map}
use codex_hosts.Sudo.Quoting.{quote, join, shell_words, shell_words-join}

shell_words-join_example :
    shell_words (join (map quote (codes "it's" ∷ codes "$(x) \"y\"" ∷ [])))
    ≡ some (codes "it's" ∷ codes "$(x) \"y\"" ∷ [])
shell_words-join_example = shell_words-join (codes "it's") (codes "$(x) \"y\"" ∷ [])
