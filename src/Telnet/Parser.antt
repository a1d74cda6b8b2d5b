-- ===== src/Telnet/Parser.antt =====
-- src/telnet.rs, `TelnetParser`: Telnet commands are cut out of the stream, and every option is
-- refused.
mod Tests
pub mod Streams
use codex_hosts.Prelude.{
  ℕ, ◌≡◌, refl, inl, inr, ◌⊎◌, Bool, ◌||◌, [], ◌∷◌, ◌++◌, if◌then◌else◌, ◌==◌, Bytes, arith,
  Bool-cases, append_assoc,
}

abbrev pub iac : ℕ
iac = 255

abbrev pub dont : ℕ
dont = 254

abbrev pub do_it : ℕ
do_it = 253

abbrev pub wont : ℕ
wont = 252

abbrev pub will : ℕ
will = 251

abbrev pub sb : ℕ
sb = 250

abbrev pub se : ℕ
se = 240

pub data ParserState : Type 0 where
  in_data command subnegotiation subnegotiation_command : ParserState
  option : ℕ → ParserState

pub record Parsed : Type 0 where
  pub state : ParserState
  pub text : Bytes
  pub replies : Bytes

abbrev pub moved : ParserState → Parsed
moved s = record { state = s; text = []; replies = [] }

abbrev pub wrote : ℕ → Parsed
wrote b = record { state = in_data; text = b ∷ []; replies = [] }

abbrev pub is_option_command : ℕ → Bool
is_option_command b = b == do_it || b == dont || b == will || b == wont

abbrev pub refusal : ℕ → ℕ
refusal c = if c == do_it || c == dont then wont else dont

-- the `match` on the state, for one byte
unfoldable pub step : ParserState → ℕ → Parsed
step in_data b = if b == iac then moved command else wrote b
step command b =
    if b == iac
    then wrote iac
    else if is_option_command b
    then moved (option b)
    else if b == sb
    then moved subnegotiation
    else moved in_data
step (option c) b = record { state = in_data; text = []; replies = iac ∷ refusal c ∷ b ∷ [] }
step subnegotiation b = if b == iac then moved subnegotiation_command else moved subnegotiation
step subnegotiation_command b = if b == se then moved in_data else moved subnegotiation

abbrev pub before : Parsed → Parsed → Parsed
before p q = record { state = q.state; text = p.text ++ q.text; replies = p.replies ++ q.replies }

unfoldable pub consume : ParserState → Bytes → Parsed
consume s [] = moved s
consume s (b ∷ bytes) = let p = step s b in before p (consume p.state bytes)

-- What the parser writes and answers does not depend on how the stream is cut into packets.
pub consume-append :
    (s : ParserState) (a b : Bytes)
    → consume s (a ++ b) ≡ before (consume s a) (consume (consume s a).state b)
unfolding consume
consume-append s [] b = refl
consume-append s (x ∷ a) b = simp (consume-append (step s x).state a b, append_assoc)

-- Data as a Telnet sender writes it: a byte 255 is doubled.
pub escape : Bytes → Bytes
escape [] = []
escape (b ∷ bytes) = let rest = escape bytes in if b == iac then iac ∷ iac ∷ rest else b ∷ rest

-- Data that a sender has escaped comes out unchanged, and nothing is answered.
pub consume-escape :
    (bytes : Bytes)
    → consume in_data (escape bytes) ≡ record { state = in_data; text = bytes; replies = [] }
unfolding consume escape step
consume-escape [] = refl
consume-escape (b ∷ bytes) = ground (arith, consume-escape bytes)

-- Answers that refuse: WONT or DONT, for one option each.
pub data AreRefusals : Bytes → Type 0 where
  nil : AreRefusals []
  cons :
      (answer opt : ℕ) (rest : Bytes)
      → (answer ≡ wont) ⊎ (answer ≡ dont)
      → AreRefusals rest
      → AreRefusals (iac ∷ answer ∷ opt ∷ rest)

refusal_cases : (c : ℕ) → (refusal c ≡ wont) ⊎ (refusal c ≡ dont)
refusal_cases c = elim (Bool-cases (c == do_it || c == dont)) [
  | inl e ↦ inl (rw e)
  | inr e ↦ inr (rw e)
]

step-replies :
    (s : ParserState) (b : ℕ) (rest : Bytes)
    → AreRefusals rest
    → AreRefusals ((step s b).replies ++ rest)
unfolding step
step-replies (option c) b rest h = cons (refusal c) b rest (refusal_cases c) h
step-replies in_data b rest h =
    let silent : (step in_data b).replies ≡ [] = ground arith in rw silent h
step-replies command b rest h =
    let silent : (step command b).replies ≡ [] = ground arith in rw silent h
step-replies subnegotiation b rest h =
    let silent : (step subnegotiation b).replies ≡ [] = ground arith in rw silent h
step-replies subnegotiation_command b rest h =
    let silent : (step subnegotiation_command b).replies ≡ [] = ground arith in rw silent h

-- Whatever the server sends, from whatever state, each answer refuses one option: the client never
-- agrees to one and never asks for one.
pub consume-replies : (s : ParserState) (bytes : Bytes) → AreRefusals (consume s bytes).replies
unfolding consume
consume-replies s [] = nil
consume-replies s (b ∷ bytes) =
    step-replies s b (consume (step s b).state bytes).replies
      (consume-replies (step s b).state bytes)
