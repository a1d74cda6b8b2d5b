-- ===== src/Import/Cells/Tests.antt =====
-- Concrete cells and prefixes.
use codex_hosts.Prelude.{◌≡◌, false, codes}
use codex_hosts.Import.Cells.{
  excel_safe_cell, decode_excel_safe_cell, first_is, starts_formula,
  decode_excel_safe_cell-excel_safe_cell,
}

decode_excel_safe_cell-excel_safe_cell_example :
    (decode_excel_safe_cell (excel_safe_cell (codes "=1+1")) ≡ codes "=1+1")
    × (first_is starts_formula (excel_safe_cell (codes "=1+1")) ≡ false)
decode_excel_safe_cell-excel_safe_cell_example =
    decode_excel_safe_cell-excel_safe_cell (codes "=1+1")
