-- ===== src/Sudo/Frames/Tests.antt =====
-- `AuthProtocol` on concrete packets.
use codex_hosts.Prelude.{
  ◌≡◌, refl, true, false, some, List, [], ◌∷◌, ◌++◌, Bytes, codes, take, drop, concat, Result, ok,
  err,
}
use codex_hosts.Sudo.Frames.{
  Frame, output, authenticate, ready, AuthProtocol, Failure, protocol_failed, auth_repeated, new,
  valid_name, opened, named, asked, next_marker, plain, turn, drive, feed, session,
}
use codex_hosts.Text.{from_utf8}
use codex_hosts.Model.{valid_sudo_username}
use codex_hosts.Sudo.Frames.Prompts.{gate, scan, session_accepted}
use codex_hosts.Sudo.Frames.Wire.{wires, session-wires}
use codex_hosts.Sudo.Frames.Total.{feed_total}

-- what the tests compute with
protocol : Unit {0}
unfolding session feed drive turn opened asked named plain next_marker valid_name
    valid_sudo_username from_utf8 new
protocol = tt

abbrev nonce : Bytes
nonce = codes "n1"

abbrev prompt : Bytes
prompt = codes "\u{1e}CH_SUDO_AUTH_n1:bob\u{1f}"

-- The prompt and the ready marker are cut across packets.
abbrev packets : List Bytes
packets =
    codes "warn\n"
    ∷ take 9 prompt
    ∷ (drop 9 prompt ++ codes "\u{1e}CH_SUDO_")
    ∷ codes "READY_n1\u{1f}done"
    ∷ codes "more"
    ∷ []

abbrev frames : List Frame
frames =
    output (codes "warn\n")
    ∷ authenticate (codes "bob")
    ∷ ready
    ∷ output (codes "done")
    ∷ output (codes "more")
    ∷ []

abbrev finished : AuthProtocol
finished = record {
  auth = codes "\u{1e}CH_SUDO_AUTH_n1:";
  ready = codes "\u{1e}CH_SUDO_READY_n1\u{1f}";
  pending = [];
  ready_seen = true;
  prompted = true;
}

session_run : session (new nonce) packets ≡ some (ok frames, finished)
unfolding protocol
session_run = refl

-- a second prompt and a blank name are refused
session_refused :
    (session (new nonce) (prompt ∷ prompt ∷ [])
      ≡ some (err auth_repeated, record finished { pending = prompt; ready_seen = false }))
    × (session (new nonce) (codes "\u{1e}CH_SUDO_AUTH_n1: \u{1f}" ∷ [])
        ≡ some (
          err protocol_failed,
          record finished {
            pending = codes "\u{1e}CH_SUDO_AUTH_n1: \u{1f}";
            ready_seen = false;
            prompted = false;
          },
        ))
unfolding protocol
session_refused = (refl, refl)

session_accepted_example : scan (gate (new nonce)) frames ≡ some (gate finished)
session_accepted_example = session_accepted packets (new nonce) finished frames session_run

session-wires_example : wires (new nonce) frames ++ [] ≡ [] ++ concat packets
unfolding new
session-wires_example = session-wires packets (new nonce) finished frames session_run (λ e. refl)

feed_total_example :
    (x : Result Failure (List Frame) × AuthProtocol) × (feed (new nonce) prompt ≡ some x)
feed_total_example = feed_total (new nonce) prompt
