-- ===== src/Consensus.antt =====
-- zentra-consensus (crates/zentra-consensus/src): emission, GhostDAG, difficulty, lanes, mining and the
-- block validator.
pub mod Emission
pub mod Ghostdag
pub mod Lanes
pub mod Miner
pub mod Validator
pub mod Difficulty
