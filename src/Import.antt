-- ===== src/Import.antt =====
-- src/import.rs: the host table as a spreadsheet reads and writes it.
pub mod Cells
