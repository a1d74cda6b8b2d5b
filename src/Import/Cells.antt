-- ===== src/Import/Cells.antt =====
-- src/import.rs: cells that a spreadsheet must not take for formulas, and the lines that it puts before
-- the table.
mod Tests
use codex_hosts.Prelude.{
  ℕ, suc, ◌≡◌, ◌≢◌, refl, Bool, false, not, ◌&&◌, ◌||◌, Option, none, some, [], ◌∷◌, ◌++◌,
  if◌then◌else◌, ◌==◌, Bytes, Text, codes, starts_with, position, take, drop, arith, ==_ne,
}
use codex_hosts.Text.{eq_ignore_ascii_case, to_ascii_lowercase}
use codex_hosts.Text.{to_ascii_lowercase}

abbrev pub first_is : (ℕ → Bool) → Text → Bool
first_is p [] = false
first_is p (c ∷ _) = p c

abbrev pub starts_formula : ℕ → Bool
starts_formula c = c == b'=' || c == b'+' || c == b'-' || c == b'@' || c == b'\t' || c == b'\r'

abbrev pub is_guarded : ℕ → Bool
is_guarded c = c == b'\'' || starts_formula c

pub excel_safe_cell : Text → Text
excel_safe_cell value = if first_is is_guarded value then b'\'' ∷ value else value

pub decode_excel_safe_cell : Text → Text
decode_excel_safe_cell [] = []
decode_excel_safe_cell (c ∷ rest) =
    if c == b'\'' && first_is is_guarded rest then rest else c ∷ rest

abbrev without_cr : Bytes → Bytes
without_cr [] = []
without_cr (b ∷ []) = if b == b'\r' then [] else b ∷ []
without_cr (b ∷ c ∷ bytes) = b ∷ without_cr (c ∷ bytes)

abbrev pub bom : Bytes
bom = 0xef ∷ 0xbb ∷ 0xbf ∷ []

abbrev pub strip_bom : Bytes → Bytes
strip_bom bytes = if starts_with bytes bom then drop 3 bytes else bytes

-- the line "sep=x", which names the delimiter x
pub named_delimiter : Bytes → Option ℕ
named_delimiter (s ∷ e ∷ p ∷ q ∷ d ∷ []) =
    if eq_ignore_ascii_case (s ∷ e ∷ p ∷ q ∷ []) (codes "sep=")
      && not (d == b'\r' || d == b'\n' || d == b'"')
    then some d
    else none
named_delimiter _ = none

abbrev from_line : Bytes → ℕ → Option ℕ → Bytes × ℕ
from_line bytes at none = (bytes, b',')
from_line bytes at (some d) = (drop (suc at) bytes, d)

abbrev from_end : Bytes → Option ℕ → Bytes × ℕ
from_end bytes none = (bytes, b',')
from_end bytes (some at) = from_line bytes at (named_delimiter (without_cr (take at bytes)))

-- the table behind the prefix, and its delimiter
pub strip_excel_prefix : Bytes → Bytes × ℕ
strip_excel_prefix bytes = let b = strip_bom bytes in from_end b (position b'\n' b)

-- A cell that has been guarded is read back as it was, whatever it holds, and as guarded it begins with
-- nothing that a spreadsheet takes for a formula.
pub decode_excel_safe_cell-excel_safe_cell :
    (value : Text)
    → (decode_excel_safe_cell (excel_safe_cell value) ≡ value)
      × (first_is starts_formula (excel_safe_cell value) ≡ false)
unfolding decode_excel_safe_cell excel_safe_cell
decode_excel_safe_cell-excel_safe_cell [] = (refl, refl)
decode_excel_safe_cell-excel_safe_cell (c ∷ value) = (ground arith, ground arith)

-- A table that begins with a byte-order mark and a line that names its delimiter is read behind that
-- line, with that delimiter, if it is no CR, LF or double quote.
pub strip_excel_prefix-sep :
    (d : ℕ) (table : Bytes)
    → d ≢ b'\r'
    → d ≢ b'\n'
    → d ≢ b'"'
    → strip_excel_prefix (bom ++ codes "sep=" ++ d ∷ codes "\r\n" ++ table) ≡ (table, d)
unfolding strip_excel_prefix named_delimiter eq_ignore_ascii_case to_ascii_lowercase
strip_excel_prefix-sep d table r n q =
    let r' = ==_ne d b'\r' r in
    let n' = ==_ne d b'\n' n in let q' = ==_ne d b'"' q in rw (n', r', n', q') refl
