-- ===== src/Contracts.antt =====
-- contracts/src/servicer_vault.rs: the vault on the chain, which counts signed verdicts itself and
-- pays the holders of an asset.
pub mod Types
pub mod Message
pub mod Evidence
pub mod Registry
pub mod Payout
pub mod Vault
pub mod Tests
