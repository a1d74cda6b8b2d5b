-- ===== src/Telnet.antt =====
-- src/telnet.rs: the Telnet client.
pub mod Parser
pub mod Capture
pub mod Session
