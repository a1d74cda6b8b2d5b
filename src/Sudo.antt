-- ===== src/Sudo.antt =====
-- src/sudo.rs and src/su.rs: running a program as another user over SSH.
pub mod Frames
pub mod Redactor
pub mod Quoting
pub mod Launch
pub mod Passwords
pub mod SuFrames
