-- ===== src/Telnet/Parser/Tests.antt =====
-- The Telnet parser on concrete bytes.
use codex_hosts.Prelude.{◌≡◌, refl, List, [], ◌∷◌, Bytes, arith}
use codex_hosts.Telnet.Parser.{in_data}
use codex_hosts.Telnet.Parser.Streams.{
  Item, byte, simple, asks, sub, asks_do, data_all, answers, consume_all, consume_all-stream,
}

abbrev items : List Item
items = byte 65 ∷ asks asks_do 1 ∷ byte 255 ∷ sub (24 ∷ 255 ∷ []) ∷ simple 241 ∷ byte 66 ∷ []

-- cut inside a request, a doubled byte and a subnegotiation
abbrev packets : List Bytes
packets =
    (65 ∷ 255 ∷ 253 ∷ [])
    ∷ (1 ∷ 255 ∷ [])
    ∷ (255 ∷ 255 ∷ 250 ∷ 24 ∷ 255 ∷ [])
    ∷ (255 ∷ 255 ∷ 240 ∷ 255 ∷ 241 ∷ 66 ∷ [])
    ∷ []

consume_all-stream_example :
    consume_all in_data packets
    ≡ record { state = in_data; text = data_all items; replies = answers items }
consume_all-stream_example =
    consume_all-stream items packets (tt, (tt, (tt, (tt, (omega arith, (tt, tt)))))) refl
