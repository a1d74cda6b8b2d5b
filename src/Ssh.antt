-- ===== src/Ssh.antt =====
-- src/ssh.rs: the client's SSH sessions.
pub mod Key
pub mod Pool
pub mod Lease
