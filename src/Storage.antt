-- ===== src/Storage.antt =====
-- src/storage.rs: the file of saved hosts, its backup, and the writes that replace it.
pub mod Disk
pub mod Store
pub mod Ends
pub mod Atomic
pub mod Saved
pub mod Recovered
mod Tests
