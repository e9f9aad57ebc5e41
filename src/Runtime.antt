-- ===== src/Runtime.antt =====
-- The crate zentra-runtime (crates/zentra-runtime/src): the gas meter, governance and contract state.
pub mod Gas
pub mod Governance
pub mod State
