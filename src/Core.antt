-- ===== src/Core.antt =====
-- zentra-core (crates/zentra-core/src): transactions, blocks, the UTXO set, merkle trees.
pub mod Data
pub mod Tx
pub mod Utxo
pub mod Merkle
pub mod Pow
pub mod Blocks
pub mod Mempool
pub mod Dag
