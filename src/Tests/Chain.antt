-- ===== src/Tests/Chain.antt =====
-- Runs and witnesses on the small chain.
use zentra_chain.Prelude.Words
use zentra_chain.Node.Validate
use zentra_chain.Core.Blocks
use zentra_chain.Prelude.{
  ◌+◌, ◌≤◌, ◌<◌, ◌≡◌, ◌≢◌, refl, Bool, true, false, List, [], ◌∷◌, ok, All, arith, some,
}
use zentra_chain.Prelude.Words.{u64_max}
use zentra_chain.Tests.Data.{toy, sample_block, before_block, coinbase_tx, spending_tx, alice}
use zentra_chain.Types.{Hash, NetworkType, max_supply_zents}
use zentra_chain.Core.Tx
use zentra_chain.Core.Merkle
use zentra_chain.Core.Merkle.{
  build_merkle_tree, compute_merkle_root, compute_merkle_proof, verify_merkle_proof,
}
use zentra_chain.Core.Merkle.Inclusion
use zentra_chain.Core.Merkle.Agreement
use zentra_chain.Core.Utxo
use zentra_chain.Core.Utxo.{
  UtxoSet, BlockUndoData, apply_block, disconnect_block, get_balance, get_spendable_balance,
  is_mature,
}
use zentra_chain.Core.Utxo.Undo.{SameSet, burned_by, IsFresh}
use zentra_chain.Core.Utxo.Value.{value}
use zentra_chain.Core.Utxo.Rollback
use zentra_chain.Consensus.Emission
use zentra_chain.Consensus.Emission.{block_reward, total_emitted_at_height, shr}
use zentra_chain.Consensus.Emission.Supply
use zentra_chain.Consensus.Emission.Supply.{rewards_below}
use zentra_chain.Node.Validate.{validate_block_transactions}
use zentra_chain.Node.Validate.NoInflation

abbrev pub devnet_emission : Emission.EmissionSchedule
devnet_emission = Emission.new NetworkType.devnet

-- The sample block is valid on the sample set.
runs :
    validate_block_transactions toy NetworkType.devnet devnet_emission sample_block before_block
    ≡ ok tt
unfolding validate_block_transactions Blocks.validate_merkle_root Blocks.block_merkle_root
    compute_merkle_root Merkle.root_loop Merkle.pairs Merkle.pad Merkle.combine Merkle.hash_bytes
    Tx.to_le_bytes Tx.txid Validate.check_txs Validate.check_tx Tx.is_coinbase
    Validate.check_spending Tx.verify_signatures Tx.verify_inputs block_reward Emission.emit_loop
    shr total_emitted_at_height Tx.amount Tx.fold_amounts Tx.from_public_key Tx.signing_hash
    Tx.total_output_amount Validate.check_inputs Validate.check_reward Validate.find_value
    Validate.record_outputs Words.saturating_add Words.saturating_mul Emission.new
runs = refl

pub block-IsFresh : All (λ tx. IsFresh toy tx before_block.utxos) sample_block.transactions
unfolding Tx.txid
block-IsFresh = (λ k e. ground (arith, e), (λ k e. ground (arith, e), tt))

validate_no_inflation_example :
    (undo : BlockUndoData) × (after : UtxoSet) × (apply_block toy sample_block 40 before_block
      ≡ (ok undo, after))
    × (value after.utxos + burned_by toy sample_block.transactions
        ≤ value before_block.utxos + block_reward devnet_emission 40)
validate_no_inflation_example =
    NoInflation.validate_no_inflation toy NetworkType.devnet devnet_emission sample_block
      before_block block-IsFresh (omega arith, (omega arith, tt)) runs

abbrev pub sample_undo : BlockUndoData
sample_undo = record {
  txs_undo =
      record { inputs_undo = [] }
      ∷ record {
        inputs_undo =
            record { amount = 100; address = alice; block_height = 3; is_coinbase = false } ∷ [];
      }
      ∷ [];
  merge_coinbases = [];
}

abbrev pub after_block : UtxoSet
after_block = (apply_block toy sample_block 40 before_block).1

applies : apply_block toy sample_block 40 before_block ≡ (ok sample_undo, after_block)
unfolding apply_block Utxo.apply_transactions Utxo.apply_transaction Utxo.spend_inputs
    Utxo.add_outputs Tx.txid
applies = refl

pub ids_differ : Tx.txid toy spending_tx ≢ Tx.txid toy coinbase_tx
unfolding Tx.txid
ids_differ h = omega (arith, h)

disconnect-apply_example :
    (n : UtxoSet) × (disconnect_block toy sample_block sample_undo after_block ≡ (ok tt, n))
    × SameSet n before_block
disconnect-apply_example =
    Rollback.disconnect-apply toy sample_block 40 sample_undo before_block after_block applies
      (block-IsFresh.0, (ids_differ, tt), (block-IsFresh.1.0, tt, tt)) (omega arith)

rewards-lt-max_supply_example :
    (rewards_below devnet_emission 3 ≡ total_emitted_at_height devnet_emission 3)
    × (rewards_below devnet_emission 3 < max_supply_zents)
rewards-lt-max_supply_example = Supply.rewards-lt-max_supply NetworkType.devnet 3

verify-compute_proof_example :
    (p : List (Hash × Bool)) × (compute_merkle_proof toy (1001 ∷ 1002 ∷ 1003 ∷ []) 2 ≡ some p)
    × (verify_merkle_proof toy (compute_merkle_root toy (1001 ∷ 1002 ∷ 1003 ∷ [])) 1003 p ≡ true)
verify-compute_proof_example =
    Inclusion.verify-compute_proof toy (1001 ∷ 1002 ∷ 1003 ∷ []) 2 1003 refl

build_merkle_tree-compute_merkle_root_example :
    build_merkle_tree toy (1001 ∷ 1002 ∷ 1003 ∷ [])
    ≡ compute_merkle_root toy (1001 ∷ 1002 ∷ 1003 ∷ [])
build_merkle_tree-compute_merkle_root_example =
    Agreement.build_merkle_tree-compute_merkle_root toy (1001 ∷ 1002 ∷ 1003 ∷ [])
