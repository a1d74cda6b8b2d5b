-- ===== src/Vault.antt =====
-- src/vault_hosts.rs: hosts that password managers describe.
pub mod Hosts
pub mod Accepted
pub mod Served
mod Tests
pub mod Upserts
pub mod Found
pub mod Described
pub mod Fates
