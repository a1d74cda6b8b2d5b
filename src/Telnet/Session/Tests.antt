-- ===== src/Telnet/Session/Tests.antt =====
-- A concrete login.
use codex_hosts.Prelude.{true, List, [], ◌∷◌, Bytes, Text, codes}
use codex_hosts.Telnet.Parser.{in_data}
use codex_hosts.Telnet.Capture.{Read, chunk, quiet, Link, Markers}
use codex_hosts.Telnet.Session.{LoginPrompts, login_prompts, run_session}
use codex_hosts.Telnet.Session.Typed.{IsTyped, NameAsked, PasswordAsked, run_session-IsTyped}
use codex_hosts.Model.Samples.{gate}

abbrev lossy : Bytes → Text
lossy bytes = bytes

abbrev markers : Markers
markers = record { begin = codes "B!"; end = codes "E!" }

abbrev link : Link
link = record { parser = in_data; transcript = []; sent = [] }

abbrev reads : List Read
reads =
    chunk true (codes "Login: ")
    ∷ chunk true (codes "Password: ")
    ∷ chunk true (codes "$ ")
    ∷ quiet
    ∷ chunk true (codes "B!\nhi\nE!0\r\n")
    ∷ []

abbrev prompts : LoginPrompts
prompts = login_prompts gate

run_session-IsTyped_example :
    IsTyped lossy
      (λ _. true)
      (codes "bob")
      (codes "pw")
      (codes "run\r\n")
      markers
      prompts
      (NameAsked lossy
        (λ _. true)
        (codes "bob")
        (codes "pw")
        (codes "run\r\n")
        markers
        prompts
        link
        reads)
      (PasswordAsked lossy
        (λ _. true)
        (codes "bob")
        (codes "pw")
        (codes "run\r\n")
        markers
        prompts
        link
        reads)
      (run_session lossy
        (λ _. true)
        (codes "bob")
        (codes "pw")
        (codes "run\r\n")
        markers
        prompts
        link
        reads)
run_session-IsTyped_example =
    run_session-IsTyped lossy (λ _. true) (codes "bob") (codes "pw") (codes "run\r\n") markers
      prompts link reads
