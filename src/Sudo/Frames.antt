-- ===== src/Sudo/Frames.antt =====
-- src/sudo.rs, `AuthProtocol`: the markers that the remote side writes to stderr are cut out of
-- the byte stream, packet by packet. A `String` of the source is kept as its UTF-8 bytes here.
pub mod Rules
pub mod Prompts
pub mod Wire
pub mod Total
mod Tests
use codex_hosts.Prelude.{
  ℕ, zero, suc, ◌+◌, Bool, true, false, not, ◌&&◌, ◌||◌, Option, none, some, List, [], ◌∷◌, ◌++◌,
  if◌then◌else◌, ltb, leb, ◌==◌, Bytes, Text, codes, starts_with, position, is_empty, length, take,
  drop, any, Result, ok, err,
}
use codex_hosts.Text.{from_utf8}
use codex_hosts.Model.{valid_sudo_username}

pub data Frame : Type 0 where
  output authenticate : Bytes → Frame
  ready : Frame

pub record AuthProtocol : Type 0 where
  pub auth : Bytes
  pub ready : Bytes
  pub pending : Bytes
  pub ready_seen : Bool
  pub prompted : Bool

pub data Failure : Type 0 where
  protocol_failed auth_repeated : Failure

abbrev pub name_max : ℕ
name_max = 1024

-- the `filter` on the bytes between the marker and 0x1f
pub valid_name : Bytes → Bool
unfolding valid_sudo_username from_utf8
valid_name bytes = elim (from_utf8 bytes) [
  | none ↦ false
  | some name ↦ valid_sudo_username name && leb (length bytes) name_max
]

pub new : Bytes → AuthProtocol
new nonce = record {
  auth = 0x1e ∷ codes "CH_SUDO_AUTH_" ++ nonce ++ b':' ∷ [];
  ready = 0x1e ∷ codes "CH_SUDO_READY_" ++ nonce ++ 0x1f ∷ [];
  pending = [];
  ready_seen = false;
  prompted = false;
}

-- One round of the loop in `feed`: `next` continues it, `stop` is a `break`, `fail` returns `Err`.
pub data Turn : Type 0 where
  next : Frame → AuthProtocol → Turn
  stop : List Frame → AuthProtocol → Turn
  fail : Failure → AuthProtocol → Turn

pub opened : AuthProtocol → Turn
opened s =
    if is_empty s.pending
    then stop (ready ∷ []) s
    else stop (ready ∷ output s.pending ∷ []) (record s { pending = [] })

pub named : AuthProtocol → ℕ → Bytes → Turn
named s end name =
    if not (valid_name name)
    then fail protocol_failed s
    else if s.prompted
    then fail auth_repeated s
    else next (authenticate name)
        (record s { prompted = true; pending = drop (length s.auth + end + 1) s.pending })

pub asked : AuthProtocol → Bytes → Turn
asked s rest = elim (position 0x1f rest) [
  | some end ↦ named s end (take end rest)
  | none ↦ if ltb name_max (length rest) then fail protocol_failed s else stop [] s
]

-- where the next possible marker begins, the first byte skipped
pub next_marker : Bytes → ℕ
next_marker [] = 0
next_marker (b ∷ rest) = elim (position 0x1e rest) [ none ↦ suc (length rest) | some i ↦ suc i ]

pub plain : AuthProtocol → Turn
plain s =
    let n = next_marker s.pending in
    next (output (take n s.pending)) (record s { pending = drop n s.pending })

pub turn : AuthProtocol → Turn
turn s =
    if starts_with s.pending s.ready
    then opened (record s { pending = drop (length s.ready) s.pending; ready_seen = true })
    else if starts_with s.pending s.auth
    then asked s (drop (length s.auth) s.pending)
    else if starts_with s.auth s.pending || starts_with s.ready s.pending
    then stop [] s
    else plain s

abbrev pub Outcome : Type 0
Outcome = Option (Result Failure (List Frame) × AuthProtocol)

abbrev pub prepend : Frame → Outcome → Outcome
prepend f (some (ok fs, s)) = some (ok (f ∷ fs), s)
prepend f r = r

-- The loop, on fuel; `none` means that the fuel ran out.
pub drive : ℕ → AuthProtocol → Outcome
drive zero s = none
drive (suc fuel) s = elim (turn s) [
  | next f s' ↦ prepend f (drive fuel s')
  | stop fs s' ↦ some (ok fs, s')
  | fail e s' ↦ some (err e, s')
]

pub feed : AuthProtocol → Bytes → Outcome
feed s bytes =
    let s' = record s { pending = s.pending ++ bytes } in
    let result = drive (suc (length s'.pending)) s' in
    if s.ready_seen then some (ok (output bytes ∷ []), s) else result

pub finish : AuthProtocol → Bytes × AuthProtocol
finish s = (s.pending, record s { pending = [] })

abbrev pub append : List Frame → Outcome → Outcome
append fs (some (ok gs, s)) = some (ok (fs ++ gs), s)
append fs r = r

abbrev pub after : Outcome → (AuthProtocol → Outcome) → Outcome
after (some (ok fs, s)) k = append fs (k s)
after r k = r

-- The packets of one channel, fed in turn until one of them fails.
pub session : AuthProtocol → List Bytes → Outcome
session s [] = some (ok [], s)
session s (packet ∷ packets) = after (feed s packet) (λ s'. session s' packets)
