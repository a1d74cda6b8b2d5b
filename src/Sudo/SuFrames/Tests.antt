-- ===== src/Sudo/SuFrames/Tests.antt =====
-- A concrete session of su, cut across packets.
use codex_hosts.Prelude.{◌≤◌, ◌≡◌, refl, true, some, List, [], ◌∷◌, Bytes, codes, ok, All}
use codex_hosts.Sudo.Frames.{Frame, output, authenticate, ready}
use codex_hosts.Sudo.SuFrames.{SuProtocol, new, turn, act, drive, feed, session}
use codex_hosts.Sudo.SuFrames.Asking.{requests, IsFor, session-asks_once}

-- what the tests compute with
computed : Unit {0}
unfolding session feed drive act turn new
computed = tt

abbrev packets : List Bytes
packets =
    codes "\u{1e}CH_SU_BEGIN_n1\u{1f}Pass"
    ∷ codes "word: "
    ∷ codes "\u{1e}CH_SU_READY_n1\u{1f}hi"
    ∷ []

abbrev frames : List Frame
frames = authenticate (codes "bob") ∷ ready ∷ output (codes "hi") ∷ []

abbrev over : SuProtocol
over = record {
  begin = codes "\u{1e}CH_SU_BEGIN_n1\u{1f}";
  ready = codes "\u{1e}CH_SU_READY_n1\u{1f}";
  target = codes "bob";
  pending = [];
  begun = true;
  prompted = true;
  line_start = true;
  ready_seen = true;
}

session_run : session (new (codes "n1") (codes "bob")) packets ≡ some (ok frames, over)
unfolding computed
session_run = refl

session-asks_once_example : (requests frames ≤ 1) × All (IsFor (codes "bob")) frames
session-asks_once_example =
    session-asks_once (codes "n1") (codes "bob") packets frames over session_run
