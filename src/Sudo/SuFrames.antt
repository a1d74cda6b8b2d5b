-- ===== src/Sudo/SuFrames.antt =====
-- src/su.rs, `AuthProtocol`: the stream of su's diagnostics, cut into output, one password request and
-- the mark that the program starts. The end of a turn is told apart from the fuel's end.
pub mod Asking
pub mod Total
mod Tests
use codex_hosts.Prelude.{
  ℕ, zero, suc, ◌+◌, Bool, true, false, not, ◌&&◌, ◌||◌, Option, none, some, List, [], ◌∷◌, ◌++◌,
  if◌then◌else◌, ◌==◌, Bytes, Text, codes, starts_with, length, drop, Result, ok, err, String,
}
use codex_hosts.Sudo.Frames.{Frame, output, authenticate, ready}

pub record SuProtocol : Type 0 where
  pub begin : Bytes
  pub ready : Bytes
  pub target : Text
  pub pending : Bytes
  pub begun : Bool
  pub prompted : Bool
  pub line_start : Bool
  pub ready_seen : Bool

pub new : Bytes → Text → SuProtocol
new nonce target = record {
  begin = codes "\u{1e}CH_SU_BEGIN_" ++ nonce ++ 0x1f ∷ [];
  ready = codes "\u{1e}CH_SU_READY_" ++ nonce ++ 0x1f ∷ [];
  target = target;
  pending = [];
  begun = false;
  prompted = false;
  line_start = true;
  ready_seen = false;
}

abbrev pub password_prompt : Bytes
password_prompt = codes "Password: "

pub data Turn : Type 0 where
  begins starts asks repeats waits passes : Turn

-- what one round of the loop does at the rest of the bytes, which is not empty
pub turn : SuProtocol → Bytes → Turn
turn s rest =
    if not s.begun && starts_with rest s.begin
    then begins
    else if s.begun && starts_with rest s.ready
    then starts
    else if s.begun && s.line_start && starts_with rest password_prompt
    then (if s.prompted then repeats else asks)
    else if not s.begun && starts_with s.begin rest
        || s.begun && starts_with s.ready rest
        || s.begun && s.line_start && starts_with password_prompt rest
    then waits
    else passes

-- `last_mut`: a byte of output goes to the output that follows it, if one does
abbrev pub join_output : ℕ → List Frame → List Frame
join_output b (output bytes ∷ frames) = output (b ∷ bytes) ∷ frames
join_output b frames = output (b ∷ []) ∷ frames

abbrev pub after_ready : Bytes → List Frame
after_ready [] = ready ∷ []
after_ready (b ∷ rest) = ready ∷ output (b ∷ rest) ∷ []

abbrev pub ends_line : ℕ → Bool
ends_line b = b == b'\n' || b == b'\r'

abbrev pub Outcome : Type 0
Outcome = Option (Result String (List Frame) × SuProtocol)

abbrev pub prepend : (List Frame → List Frame) → Outcome → Outcome
prepend f none = none
prepend f (some (ok frames, s)) = some (ok (f frames), s)
prepend f (some (err e, s)) = some (err e, s)

-- the round, with the rounds that follow it
pub act : (SuProtocol → Bytes → Outcome) → Turn → SuProtocol → ℕ → Bytes → Outcome
act later begins s b rest =
    later (record s { begun = true; line_start = true }) (drop (length s.begin) (b ∷ rest))
act later starts s b rest = some (
  ok (after_ready (drop (length s.ready) (b ∷ rest))),
  record s { ready_seen = true; pending = [] },
)
act later asks s b rest =
    prepend (λ frames. authenticate s.target ∷ frames)
      (later (record s { prompted = true; line_start = true })
        (drop (length password_prompt) (b ∷ rest)))
act later repeats s b rest = some (err "SU_AUTH_REPEATED", record s { pending = [] })
act later waits s b rest = some (ok [], record s { pending = b ∷ rest })
act later passes s b rest =
    prepend (join_output b) (later (record s { line_start = ends_line b }) rest)

-- The loop, on fuel; `none` means that the fuel ran out.
pub drive : ℕ → SuProtocol → Bytes → Outcome
drive zero s rest = none
drive (suc fuel) s [] = some (ok [], record s { pending = [] })
drive (suc fuel) s (b ∷ rest) = act (drive fuel) (turn s (b ∷ rest)) s b rest

-- One round more than there are bytes is enough where a marker is not empty.
pub feed : SuProtocol → Bytes → Outcome
feed s packet =
    if s.ready_seen
    then some (ok (output packet ∷ []), s)
    else drive (2 + length (s.pending ++ packet)) s (s.pending ++ packet)

abbrev pub then_session : (SuProtocol → Outcome) → Outcome → Outcome
then_session later none = none
then_session later (some (err e, s)) = some (err e, s)
then_session later (some (ok frames, s)) = prepend (λ more. frames ++ more) (later s)

-- The packets of a session.
pub session : SuProtocol → List Bytes → Outcome
session s [] = some (ok [], s)
session s (packet ∷ packets) = then_session (λ t. session t packets) (feed s packet)
