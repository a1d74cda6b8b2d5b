-- ===== src/Bw.antt =====
-- src/bw: the addresses in the items of a password manager, and the calls of its command-line tool.
pub mod HostUri
pub mod Policy
