-- ===== src/Quarantine.antt =====
-- backend/engines/scanning/quarantine_manager.py: the vault of neutralised files.
pub mod Bits
pub mod Xor
pub mod Guards
pub mod Vault
pub mod Ops
mod Paths
pub mod Safety
pub mod Lifecycle
pub mod Refusals
mod Tests
pub mod OwnKeys
pub mod Runs
pub mod RoundTrip
pub mod Hashes
