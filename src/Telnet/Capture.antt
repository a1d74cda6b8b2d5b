-- ===== src/Telnet/Capture.antt =====
-- src/telnet.rs: reading the server until a prompt, until it is quiet, or until the end marker. What
-- the server does is a list of reads; the lossy decoding of bytes into text is an argument.
mod Marker
mod Outcomes
mod Tests
pub mod Statuses
use codex_hosts.Model.{is_some}
use codex_hosts.Prelude.{
  ℕ, suc, ◌+◌, ◌-◌, Bool, true, false, not, ◌&&◌, Option, none, some, List, [], ◌∷◌, ◌++◌,
  if◌then◌else◌, ltb, leb, ◌==◌, Bytes, Text, codes, starts_with, length, take, drop, any, String,
  ◌*◌, ◌^◌, contains, is_empty,
}
use codex_hosts.Text.{to_ascii_lowercase}
use codex_hosts.Telnet.Parser.{ParserState, consume}

abbrev pub max_capture_bytes : ℕ
max_capture_bytes = 1024 * 1024

-- One `read`: bytes, and whether an answer to them can be written; the end of the stream, an error,
-- or a wait that runs out.
pub data Read : Type 0 where
  chunk : Bool → Bytes → Read
  closed broken quiet : Read

-- The connection: the parser, the transcript, and all that has been written to the server.
pub record Link : Type 0 where
  pub parser : ParserState
  pub transcript : Bytes
  pub sent : Bytes

-- What a wait ends with; `waiting` where the server has done nothing more yet.
pub data Wait {ℓ} (A : Type ℓ) : Type ℓ where
  done : A → Link → List Read → Wait A
  failed : String → Link → Wait A
  waiting : Link → Wait A

-- parse, answer and append to the transcript up to its limit
pub absorb : Link → Bytes → Link
absorb l bytes =
    let p = consume l.parser bytes in
    let room = max_capture_bytes - length l.transcript in
    record l {
      parser = p.state;
      sent = l.sent ++ p.replies;
      transcript = l.transcript ++ take room p.text;
    }

-- the parser answers, and the answer cannot be written
pub unanswered : Bool → Link → Bytes → Bool
unanswered writable l bytes = not writable && not (is_empty (consume l.parser bytes).replies)

abbrev pub is_full : Link → Bool
is_full l = leb max_capture_bytes (length l.transcript)

abbrev login_failure_texts : List Text
login_failure_texts =
    codes "login incorrect" ∷ codes "authentication failed" ∷ codes "access denied" ∷ []

pub login_failed : Text → Bool
login_failed t = let lower = to_ascii_lowercase t in any (contains lower) login_failure_texts

-- `find_bytes`, for a needle that is not empty; `windows(n).position(..)` is `find_in`
pub find_in : Bytes → Bytes → Option ℕ
find_in [] needle = none
find_in (b ∷ bytes) needle =
    let later = find_in bytes needle in
    if starts_with (b ∷ bytes) needle
    then some 0
    else elim later [ none ↦ none | some i ↦ some (suc i) ]

pub find_bytes : Bytes → Bytes → ℕ → Option ℕ
find_bytes haystack needle from =
    if ltb (length haystack) from
    then none
    else elim (find_in (drop from haystack) needle) [ none ↦ none | some i ↦ some (from + i) ]

-- `replacen(pattern, "", 1)`
pub without_first : Text → Text → Text
without_first t pattern = elim (find_in t pattern) [
  | none ↦ t
  | some i ↦ take i t ++ drop (i + length pattern) t
]

abbrev pub is_digit : ℕ → Bool
is_digit b = leb b'0' b && leb b b'9'

pub leading_digits : Bytes → Bytes
leading_digits [] = []
leading_digits (b ∷ rest) = let more = leading_digits rest in if is_digit b then b ∷ more else []

pub value_from : ℕ → Bytes → ℕ
value_from n [] = n
value_from n (d ∷ ds) = value_from (n * 10 + (d - b'0')) ds

-- `parse::<i32>` of a run of digits
pub parse_i32 : Bytes → Option ℕ
parse_i32 [] = none
parse_i32 (d ∷ ds) = let n = value_from 0 (d ∷ ds) in if ltb n (2 ^ 31) then some n else none

pub end_status : Bytes → ℕ → Bytes → Bool → Option (Option ℕ)
end_status transcript end_at marker is_closed =
    let rest = drop (end_at + length marker) transcript in
    let digits = leading_digits rest in
    if length digits == length rest && not is_closed then none else some (parse_i32 digits)

abbrev pub at_marker : Option ℕ → (ℕ → Option (Option ℕ)) → Option (Option ℕ)
at_marker none k = none
at_marker (some at) k = k at

pub record Markers : Type 0 where
  pub begin : Text
  pub end : Text

module _ (lossy : Bytes → Text) where
  unfoldable pub read_until : List Text → Link → List Read → Wait (Unit {0})
  read_until needles l [] = waiting l
  read_until needles l (closed ∷ reads) = failed "TELNET_CLOSED" l
  read_until needles l (broken ∷ reads) = failed "TELNET_READ_FAILED" l
  read_until needles l (quiet ∷ reads) = read_until needles l reads
  read_until needles l (chunk writable bytes ∷ reads) =
      let l' = absorb l bytes in
      let more = read_until needles l' reads in
      let lower = to_ascii_lowercase (lossy l'.transcript) in
      if unanswered writable l bytes
      then failed "TELNET_WRITE_FAILED" l
      else if any (λ n. contains lower (to_ascii_lowercase n)) needles
      then done tt l' reads
      else if is_full l'
      then failed "OUTPUT_LIMIT" l'
      else more

  pub wait_for_shell : Link → List Read → Wait (Unit {0})
  wait_for_shell l [] = waiting l
  wait_for_shell l (closed ∷ reads) = failed "TELNET_CLOSED" l
  wait_for_shell l (broken ∷ reads) = failed "TELNET_READ_FAILED" l
  wait_for_shell l (quiet ∷ reads) = done tt l reads
  wait_for_shell l (chunk writable bytes ∷ reads) =
      let l' = absorb l bytes in
      let more = wait_for_shell l' reads in
      if unanswered writable l bytes
      then failed "TELNET_WRITE_FAILED" l
      else if login_failed (lossy l'.transcript)
      then failed "AUTH_FAILED" l'
      else more

  -- the locals of `read_until_output`
  pub record Capture : Type 0 where
    pub link : Link
    pub begin_seen : Bool
    pub end_search_from : ℕ
    pub end_at : Option ℕ

  module _ (request : Text) (markers : Markers) where
    -- the search for the end marker, from where the last one stopped
    pub searched : Capture → Link → Capture
    searched c l = elim c.end_at [
      | some at ↦ record c { link = l }
      | none ↦ record c {
        link = l;
        end_at = find_bytes l.transcript markers.end c.end_search_from;
        end_search_from = length l.transcript - (length markers.end - 1);
      }
    ]

    pub status : Capture → Bool → Option (Option ℕ)
    status c is_closed =
        at_marker c.end_at (λ at. end_status c.link.transcript at markers.end is_closed)

    -- what the server said besides the echo of the request
    pub server_said : Capture → Text
    server_said c =
        without_first (to_ascii_lowercase (lossy c.link.transcript)) (to_ascii_lowercase request)

    pub begin_at : Capture → Option ℕ
    begin_at c = find_in (server_said c) (to_ascii_lowercase markers.begin)

    pub rejected : Capture → Bool
    rejected c =
        login_failed
          (elim (begin_at c) [ none ↦ server_said c | some at ↦ take at (server_said c) ])

    pub watched : Capture → Capture
    watched c = if c.begin_seen then c else record c { begin_seen = is_some (begin_at c) }

    pub read_until_output : Capture → List Read → Wait (Option ℕ)
    read_until_output c [] = waiting c.link
    read_until_output c (closed ∷ reads) = elim (status c true) [
      | some code ↦ done code c.link reads
      | none ↦ failed "TELNET_CLOSED" c.link
    ]
    read_until_output c (broken ∷ reads) = failed "TELNET_READ_FAILED" c.link
    read_until_output c (quiet ∷ reads) = read_until_output c reads
    read_until_output c (chunk writable bytes ∷ reads) =
        let c' = searched c (absorb c.link bytes) in
        let more = read_until_output (watched c') reads in
        if unanswered writable c.link bytes
        then failed "TELNET_WRITE_FAILED" c.link
        else elim (status c' false) [
          | some code ↦ done code c'.link reads
          | none ↦
              if not c'.begin_seen && rejected c'
              then failed "AUTH_FAILED" c'.link
              else if is_full c'.link
              then failed "OUTPUT_LIMIT" c'.link
              else more
        ]
