-- ===== src/Node.antt =====
-- zentrad (crates/zentrad/src/node.rs): block validation, applying blocks with
-- their merges, checking headers, and following a new tip.
pub mod Validate
pub mod Merges
pub mod Reorganize
pub mod Sync
pub mod Headers
