-- ===== src/Secrets.antt =====
-- src/temporary_secrets.rs: secrets that are held in memory and given to approved child processes.
pub mod Vault
pub mod Runner
