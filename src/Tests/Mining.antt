-- ===== src/Tests/Mining.antt =====
-- Runs of the miner and of the block validator, and the witnesses of their results.
use zentra_chain.Prelude
use zentra_chain.Prelude.Words
use zentra_chain.Core.Blocks
use zentra_chain.Core.Tx
use zentra_chain.Core.Merkle
use zentra_chain.Core.Pow
use zentra_chain.Consensus.Emission
use zentra_chain.Consensus.Lanes
use zentra_chain.Consensus.Miner
use zentra_chain.Consensus.Validator
use zentra_chain.Prelude.{
  ℕ, ◌+◌, ◌≡◌, ◌≤◌, ◌<◌, refl, Bool, true, false, none, some, List, [], ◌∷◌, All, ok, arith,
}
use zentra_chain.Types.{LaneId, NetworkType}
use zentra_chain.Core.Data.{Block, Header, Transaction, standard}
use zentra_chain.Core.Tx.{is_coinbase, total_output_amount}
use zentra_chain.Core.Blocks.{validate_merkle_root}
use zentra_chain.Consensus.Emission.{block_reward}
use zentra_chain.Consensus.Lanes.{verify_block_pow, pow_meets_target, target_of}
use zentra_chain.Consensus.Miner.{Miner, Event, look, work, build_block_template, mine_block}
use zentra_chain.Consensus.Miner.Mined.{mine_block-verify_block_pow}
use zentra_chain.Consensus.Validator.{check_coinbase, fold_fees, validate_block}
use zentra_chain.Consensus.Validator.Signed.{IsSigned, validate_block-IsSigned}
use mathlib.Core.Logic.{◌⊎◌}
use zentra_chain.Node.Validate.{check_reward}
use zentra_chain.Tests.Data.{toy, alice, coinbase_tx, spending_tx, block_header}
use zentra_chain.Tests.Chain.{devnet_emission}

-- A digest of one byte.
abbrev toy_digest : List ℕ → List ℕ
toy_digest bytes = 9 ∷ []

abbrev asic : Miner
asic = record { lane = LaneId.btc_asic; address = alice; share_target = none; coinbase_tag = [] }

-- A block on top of block 9, with a target of 32.
abbrev template : Block
template =
    build_block_template toy toy_digest asic (9 ∷ []) [] 0x0120_0000 40 40 0 devnet_emission 0

-- Two threads: the second one is stopped before it hashes, the first one finds nonce 0.
abbrev events : List Event
events = look 0 true ∷ work 0 ∷ look 1 true ∷ []

finds : (mine_block toy toy_digest asic none 2 events template).0 ≡ true
unfolding mine_block Miner.run Miner.step Miner.start Miner.spawn Lanes.compute_pow_hash
    Lanes.double_sha256 Prelude.value target_of Pow.target_from_bits build_block_template
    Pow.place_small Prelude.zeros
finds = refl

mine_block-verify_block_pow_example :
    (b : Block) × ((mine_block toy toy_digest asic none 2 events template).1 ≡ b)
    × (verify_block_pow toy toy_digest b.header ≡ ok tt)
    × (validate_merkle_root toy b ≡ true)
    × (check_reward toy NetworkType.devnet devnet_emission 40 b.transactions 0 ≡ ok tt)
    × ((fold_fees 0 [] < 0) ⊎ (check_coinbase devnet_emission 40 b.transactions ≡ ok tt))
mine_block-verify_block_pow_example =
    mine_block-verify_block_pow toy toy_digest asic (9 ∷ []) [] 0x0120_0000 40 40 0 devnet_emission
      0 none 2 events NetworkType.devnet finds

-- The sample block on the ASIC lane, with a target of 32.
abbrev header : Header
header = record block_header { lane_id = LaneId.btc_asic; bits = 0x0120_0000 }

abbrev reward_tx : Transaction
reward_tx = record coinbase_tx { outputs = standard alice 4_000_000_000 [] ∷ [] }

accepts :
    validate_block toy toy_digest
      (record { header = header; transactions = reward_tx ∷ spending_tx ∷ [] })
      devnet_emission
      40
    ≡ ok tt
unfolding validate_block Blocks.validate_block_basic Blocks.validate_header_basic Blocks.size_bytes
    validate_merkle_root Blocks.block_merkle_root Merkle.compute_merkle_root Merkle.root_loop
    Merkle.pairs Merkle.pad Merkle.combine Merkle.hash_bytes Tx.to_le_bytes Tx.txid
    Blocks.validate_each Tx.validate_basic Tx.amount verify_block_pow Lanes.compute_pow_hash
    Lanes.double_sha256 Lanes.header_work target_of Lanes.with_nonce Pow.target_from_bits
    Pow.place_small Pow.put_at Prelude.value Prelude.zeros check_coinbase block_reward
    Emission.emit_loop Emission.shr Emission.total_emitted_at_height Validator.fold_fee_outputs
    fold_fees Validator.validate_after_coinbase Validator.validate_transaction
    Validator.validate_transactions Tx.fold_amounts is_coinbase Tx.signing_hash total_output_amount
    Tx.verify_inputs Tx.verify_signatures Words.saturating_add Words.saturating_mul Emission.new
accepts = refl

validate_block-IsSigned_example :
    (is_coinbase reward_tx ≡ true)
    × (total_output_amount reward_tx
        ≤ block_reward devnet_emission 40 + fold_fees 0 (spending_tx ∷ []))
    × All (IsSigned toy) (spending_tx ∷ [])
    × (pow_meets_target toy toy_digest header (target_of header.bits) ≡ true)
validate_block-IsSigned_example =
    validate_block-IsSigned toy toy_digest header reward_tx (spending_tx ∷ []) devnet_emission 40
      accepts
