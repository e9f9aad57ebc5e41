-- ===== src/Finance.antt =====
-- The crate zentra-finance (crates/zentra-finance/src): the liquidity pool, protocol-owned
-- liquidity, threshold signatures, the cross-chain vault and the quarantine.
pub mod Amm
pub mod Pol
pub mod Tss
pub mod Vault
pub mod Quarantine
pub mod EncryptedMempool
