-- ===== src/Telnet/Capture/Tests.antt =====
-- The wait for the end marker on concrete reads.
use codex_hosts.Prelude.{◌≡◌, refl, true, some, List, [], ◌∷◌, Bytes, Text, codes}
use codex_hosts.Text.{to_ascii_lowercase}
use codex_hosts.Telnet.Parser.{in_data, consume, step}
use codex_hosts.Telnet.Capture.{
  value_from, Read, chunk, quiet, Link, done, absorb, Markers, read_until_output, find_in,
  find_bytes, searched, status, end_status, leading_digits, parse_i32, unanswered, rejected,
  watched, begin_at, server_said, without_first, login_failed,
}
use codex_hosts.Telnet.Capture.Outcomes.{Honest, start, read_until_output-Honest}

abbrev markers : Markers
markers = record { begin = codes "B!"; end = codes "E!" }

abbrev link : Link
link = record { parser = in_data; transcript = []; sent = [] }

-- the end marker and its status are cut across reads
abbrev reads : List Read
reads =
    chunk true (codes "B!\nout\nE")
    ∷ quiet
    ∷ chunk true (codes "!0")
    ∷ chunk true (codes "\r\n")
    ∷ []

abbrev lossy : Bytes → Text
lossy bytes = bytes

waited :
    read_until_output lossy (codes "run") markers (start lossy (codes "run") markers link) reads
    ≡ done (some 0) (record link { transcript = codes "B!\nout\nE!0\r\n" }) []
unfolding read_until_output find_in find_bytes searched status end_status leading_digits parse_i32
    unanswered rejected watched begin_at server_said without_first login_failed absorb consume step
    to_ascii_lowercase value_from
waited = refl

read_until_output-Honest_example :
    Honest lossy
      (codes "run")
      markers
      reads
      (read_until_output lossy (codes "run") markers (start lossy (codes "run") markers link) reads)
read_until_output-Honest_example = read_until_output-Honest lossy (codes "run") markers reads link
