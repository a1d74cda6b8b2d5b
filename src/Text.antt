-- ===== src/Text.antt =====
-- What the code uses of Rust's `str` and `char`: white space, trimming, ASCII case, controls and
-- the strict UTF-8 decoder of `std::str::from_utf8`. A text is the list of its code points.
pub mod Trims
pub mod Kept
use codex_hosts.Prelude.{
  ℕ, zero, suc, ◌+◌, ◌-◌, ◌*◌, Bool, ◌&&◌, ◌||◌, Option, none, some, [], ◌∷◌, if◌then◌else◌, ◌==◌,
  leb, Bytes, Text, is_empty, ◌=ᵗ◌, map,
}

abbrev pub within : ℕ → ℕ → ℕ → Bool
within lo hi c = leb lo c && leb c hi

-- `char::is_whitespace`, the White_Space property of Unicode
unfoldable pub is_whitespace : ℕ → Bool
is_whitespace c =
    within 9 13 c
    || c == 32
    || c == 0x85
    || c == 0xa0
    || c == 0x1680
    || within 0x2000 0x200a c
    || c == 0x2028
    || c == 0x2029
    || c == 0x202f
    || c == 0x205f
    || c == 0x3000

-- `char::is_control`, the general category Cc
unfoldable pub is_control : ℕ → Bool
is_control c = leb c 31 || within 127 159 c

pub trim_start : Text → Text
trim_start [] = []
trim_start (c ∷ s) = let rest = trim_start s in if is_whitespace c then rest else c ∷ s

pub trim_end : Text → Text
trim_end [] = []
trim_end (c ∷ s) =
    let rest = trim_end s in if is_whitespace c && is_empty rest then [] else c ∷ rest

unfoldable pub trim : Text → Text
unfolding trim_start trim_end is_whitespace
trim s = trim_end (trim_start s)

-- `to_ascii_lowercase`
unfoldable pub lower_char : ℕ → ℕ
lower_char c = if within b'A' b'Z' c then c + 32 else c

unfoldable pub to_ascii_lowercase : Text → Text
unfolding lower_char
to_ascii_lowercase s = map lower_char s

unfoldable pub eq_ignore_ascii_case : Text → Text → Bool
unfolding to_ascii_lowercase
eq_ignore_ascii_case a b = to_ascii_lowercase a =ᵗ to_ascii_lowercase b

-- `str::len`: the bytes of the text in UTF-8
abbrev pub char_len : ℕ → ℕ
char_len c = if leb c 0x7f then 1 else if leb c 0x7ff then 2 else if leb c 0xffff then 3 else 4

unfoldable pub byte_len : Text → ℕ
byte_len [] = 0
byte_len (c ∷ s) = char_len c + byte_len s

-- The decoder between two bytes: at the start of a character, or with `need` more continuation
-- bytes to come, the next of them within `lo` and `hi`.
pub data Decoder : Type 0 where
  start bad : Decoder
  more : (need lo hi acc : ℕ) → Decoder

lead : ℕ → Decoder
lead b =
    if within 0xc2 0xdf b
    then more 0 0x80 0xbf (b - 0xc0)
    else if b == 0xe0
    then more 1 0xa0 0xbf 0
    else if within 0xe1 0xec b || within 0xee 0xef b
    then more 1 0x80 0xbf (b - 0xe0)
    else if b == 0xed
    then more 1 0x80 0x9f 13
    else if b == 0xf0
    then more 2 0x90 0xbf 0
    else if within 0xf1 0xf3 b
    then more 2 0x80 0xbf (b - 0xf0)
    else if b == 0xf4
    then more 2 0x80 0x8f 4
    else bad

abbrev push : Option ℕ → Option Text → Option Text
push (some c) (some s) = some (c ∷ s)
push none r = r
push _ none = none

decode_step : Decoder → ℕ → Decoder × Option ℕ
unfolding lead
decode_step start b = if leb b 0x7f then (start, some b) else (lead b, none)
decode_step bad b = (bad, none)
decode_step (more zero lo hi acc) b =
    if within lo hi b then (start, some (acc * 64 + (b - 0x80))) else (bad, none)
decode_step (more (suc n) lo hi acc) b =
    if within lo hi b then (more n 0x80 0xbf (acc * 64 + (b - 0x80)), none) else (bad, none)

decode : Decoder → Bytes → Option Text
unfolding decode_step
decode start [] = some []
decode _ [] = none
decode d (b ∷ bytes) = let (d', c) = decode_step d b in push c (decode d' bytes)

-- `std::str::from_utf8`; `none` where the bytes are not UTF-8
unfoldable pub from_utf8 : Bytes → Option Text
unfolding decode
from_utf8 bytes = decode start bytes
