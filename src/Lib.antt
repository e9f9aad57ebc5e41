-- ===== src/Lib.antt =====
-- Zentra Chain: a block DAG with UTXO transactions, a liquidity pool and a cross-chain vault.
--
-- The parts and how they interact. A node (crates/zentrad/src/node.rs) takes in blocks, checks each on
-- its own, records it in the block graph (crates/zentra-core/src/dag.rs) with its GhostDAG data
-- (crates/zentra-consensus/src/ghostdag.rs), and follows the graph's selected tip: it validates the
-- transactions of the selected chain's blocks against the UTXO set (crates/zentra-core/src/utxo.rs) and
-- applies them, with the reward of the emission schedule (crates/zentra-consensus/src/emission.rs) as
-- the bound of a coinbase. Transactions wait in the mempool (crates/zentra-core/src/mempool.rs). The
-- crate crates/zentra-finance keeps a constant-product pool, protocol-owned liquidity that feeds it,
-- and the vault that mints zUSD against deposits signed by validators.
--
-- The files:
--   Prelude          shared names, results, machine words, lists, hash maps, digits, sorted lists, XOR
--   Types            crates/zentra-types/src: constants, amounts, addresses, codes
--   Core/Data, Tx, Blocks   crates/zentra-core/src/transaction.rs, header.rs, block.rs
--   Core/Pow         target_from_bits and meets_difficulty of crates/zentra-core/src/header.rs
--   Core/Utxo        crates/zentra-core/src/utxo.rs
--   Core/Merkle      crates/zentra-core/src/merkle.rs, and build_merkle_tree of
--                    crates/zentra-runtime/src/state.rs
--   Core/Mempool     crates/zentra-core/src/mempool.rs
--   Core/Dag         crates/zentra-core/src/dag.rs
--   Consensus/Emission, Ghostdag, Difficulty, Lanes, Miner, Validator   the files of these names
--                    in crates/zentra-consensus/src
--   Node/Validate    validate_block_self_contained and validate_block_transactions of
--                    crates/zentrad/src/node.rs
--   Node/Merges      apply_block_with_merges of the same file
--   Node/Reorganize  get_selected_chain and reorganize of the same file
--   Node/Headers     calculate_expected_difficulty and validate_block_header of the same file
--   Node/Sync        crates/zentrad/src/sync.rs
--   Finance          crates/zentra-finance/src: amm.rs, pol.rs, tss.rs, vault.rs, quarantine.rs,
--                    encrypted_mempool.rs
--   Runtime/Gas, State, Governance   crates/zentra-runtime/src/gas.rs, state.rs, governance.rs
--   Tests            concrete runs, and the witnesses of the results
--
-- State is passed explicitly, and a call is one step, also for the mempool, whose code locks its maps
-- one access at a time (Core/Mempool/Overlap has two calls that overlap). An operation takes the state
-- before its call and returns the state after it, also on an error where the code has written by then.
-- A function keeps the name it has in the code. Hash maps are association lists, hashes are numbers in
-- big-endian order. A word is a native number, and its operations saturate, are checked or wrap as the
-- code's do; arithmetic without a check wraps, as the release profile has it. A panic is an outcome of
-- its own where code can reach one. Loops are recursion on the list they walk, or on fuel. The fuel is
-- the bound of the code's own loop (the halvings of the emission), or exceeds what falls in every
-- round: the length of a merkle level, the x of the square root, the blue score along the selected
-- chain and along the walk for the expected difficulty, the bytes that a keystream still lacks.
--
-- Serialisation (borsh), Blake2b-256, SHA-256 and Ed25519 are parameters: the records Crypto and
-- Ed25519, and an argument.
--
-- Not modelled: networking, RPC, storage, the wallet and the user interfaces, which move data and
-- decide nothing about the chain; the WASM engine; and the bookkeeping round a reorganisation
-- (accept_external_block, connect_block).
pub mod Prelude
pub mod Types
pub mod Core
pub mod Consensus
pub mod Finance
pub mod Runtime
pub mod Node
mod Tests
