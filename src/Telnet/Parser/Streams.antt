-- ===== src/Telnet/Parser/Streams.antt =====
-- What a Telnet server says, as RFC 854 puts it together, and what the parser makes of it.
use codex_hosts.Prelude.{
  ℕ, ◌<◌, ◌≡◌, refl, sym, ap, ◌∙◌, List, [], ◌∷◌, ◌++◌, if◌then◌else◌, ◌==◌, Bytes, concat, arith,
  All,
}
use codex_hosts.Telnet.Parser.{
  ParserState, in_data, subnegotiation, Parsed, moved, before, step, consume, consume-append,
}

pub data Verb : Type 0 where
  asks_will asks_wont asks_do asks_dont : Verb

-- a byte of data; a command without an option; a request about an option; a subnegotiation
pub data Item : Type 0 where
  byte simple : ℕ → Item
  asks : Verb → ℕ → Item
  sub : Bytes → Item

abbrev verb_byte : Verb → ℕ
verb_byte asks_will = 251
verb_byte asks_wont = 252
verb_byte asks_do = 253
verb_byte asks_dont = 254

-- 255 is doubled, in data and in a subnegotiation
abbrev doubled : Bytes → Bytes
doubled [] = []
doubled (b ∷ bytes) = let rest = doubled bytes in if b == 255 then 255 ∷ 255 ∷ rest else b ∷ rest

abbrev written : Item → Bytes
written (byte b) = doubled (b ∷ [])
written (simple c) = 255 ∷ c ∷ []
written (asks v o) = 255 ∷ verb_byte v ∷ o ∷ []
written (sub payload) = 255 ∷ 250 ∷ (doubled payload ++ 255 ∷ 240 ∷ [])

abbrev pub written_all : List Item → Bytes
written_all [] = []
written_all (i ∷ items) = written i ++ written_all items

-- a command without an option is none of WILL, WONT, DO, DONT, SB and IAC
abbrev pub IsItem : Item → Type 0
IsItem (simple c) = c < 250
IsItem _ = Unit

abbrev data_of : Item → Bytes
data_of (byte b) = b ∷ []
data_of _ = []

-- the answer that refuses: DONT to WILL and WONT, WONT to DO and DONT
abbrev answer_to : Item → Bytes
answer_to (asks asks_will o) = 255 ∷ 254 ∷ o ∷ []
answer_to (asks asks_wont o) = 255 ∷ 254 ∷ o ∷ []
answer_to (asks asks_do o) = 255 ∷ 252 ∷ o ∷ []
answer_to (asks asks_dont o) = 255 ∷ 252 ∷ o ∷ []
answer_to _ = []

abbrev pub data_all : List Item → Bytes
data_all [] = []
data_all (i ∷ items) = data_of i ++ data_all items

abbrev pub answers : List Item → Bytes
answers [] = []
answers (i ∷ items) = answer_to i ++ answers items

-- one packet after the other
pub consume_all : ParserState → List Bytes → Parsed
consume_all s [] = moved s
consume_all s (p ∷ packets) = let r = consume s p in before r (consume_all r.state packets)

consume_all-concat :
    (s : ParserState) (packets : List Bytes) → consume_all s packets ≡ consume s (concat packets)
unfolding consume_all consume
consume_all-concat s [] = refl
consume_all-concat s (p ∷ packets) =
    ap (before (consume s p)) (consume_all-concat (consume s p).state packets)
    ∙ sym (consume-append s p (concat packets))

inside_sub :
    (payload : Bytes) → consume subnegotiation (doubled payload ++ 255 ∷ 240 ∷ []) ≡ moved in_data
unfolding consume step
inside_sub [] = refl
inside_sub (b ∷ payload) = ground (arith, inside_sub payload)

item-read :
    (i : Item)
    → IsItem i
    → consume in_data (written i)
      ≡ record { state = in_data; text = data_of i; replies = answer_to i }
unfolding consume step
item-read (byte b) h = ground arith
item-read (simple c) h = ground arith
item-read (asks asks_will o) h = refl
item-read (asks asks_wont o) h = refl
item-read (asks asks_do o) h = refl
item-read (asks asks_dont o) h = refl
item-read (sub payload) h = rw (inside_sub payload) refl

items-read :
    (items : List Item)
    → All IsItem items
    → consume in_data (written_all items)
      ≡ record { state = in_data; text = data_all items; replies = answers items }
unfolding consume
items-read [] h = refl
items-read (i ∷ items) (k, h) =
    consume-append in_data (written i) (written_all items)
    ∙ rw (item-read i k, items-read items h) refl

-- Any sequence of data bytes, commands, requests about options and subnegotiations, written as Telnet
-- writes them (255 doubled) and cut into packets anywhere: what comes out is just the data, in order,
-- and each request is refused, once and in order, with DONT for WILL and WONT and with WONT for DO and
-- DONT; nothing else is answered, and the parser is back at data.
pub consume_all-stream :
    (items : List Item) (packets : List Bytes)
    → All IsItem items
    → concat packets ≡ written_all items
    → consume_all in_data packets
      ≡ record { state = in_data; text = data_all items; replies = answers items }
consume_all-stream items packets h e =
    consume_all-concat in_data packets ∙ ap (consume in_data) e ∙ items-read items h
