-- ===== src/Tests/Merging.antt =====
-- Runs and witnesses of merged coinbases.
use zentra_chain.Core.Blocks
use zentra_chain.Core.Tx
use zentra_chain.Core.Utxo
use zentra_chain.Prelude.{
  not, ◌≡◌, refl, true, false, none, some, [], ◌∷◌, ok, arith, ◌==◌, if◌then◌else◌,
}
use zentra_chain.Prelude.Map.{get, contains_key}
use zentra_chain.Tests.Data.{toy, sample_block, before_block, alice, bob, coinbase_tx, block_header}
use zentra_chain.Tests.Chain.{block-IsFresh, ids_differ}
use zentra_chain.Core.Data.{OutPoint, out_point_key, Block, standard}
use zentra_chain.Core.Utxo.{
  UtxoSet, UtxoEntry, BlockUndoData, disconnect_block, apply_merge_coinbase, remove_all,
}
use zentra_chain.Core.Utxo.Undo.{SameSet}
use zentra_chain.Core.Utxo.Merging.{listed}
use zentra_chain.Core.Utxo.Recredit
use zentra_chain.Core.Utxo.Recredit.{held_or}
use zentra_chain.Consensus.Ghostdag.{Lookup}
use zentra_chain.Node.Merges
use zentra_chain.Node.Merges.{apply_block_with_merges}

-- A block beside the sample block, and the sample block's data, which merge it.
abbrev side_block : Block
side_block = record {
  header = record block_header { nonce = 11; blue_score = 39 };
  transactions = record coinbase_tx { lock_time = 1003; outputs = standard bob 50 [] ∷ [] } ∷ [];
}

abbrev merging : Lookup
merging h =
    if h == 10
    then some (record {
      blue_score = 40;
      blue_work = 40;
      selected_parent = 9;
      mergeset_blues = 11 ∷ [];
      mergeset_reds = [];
    })
    else none

abbrev merged : BlockUndoData
merged = record {
  txs_undo =
      record { inputs_undo = [] }
      ∷ record {
        inputs_undo =
            record { amount = 100; address = alice; block_height = 3; is_coinbase = false } ∷ [];
      }
      ∷ [];
  merge_coinbases = record { tx_hash = 1003; index = 0 } ∷ [];
}

abbrev after_merge : UtxoSet
after_merge =
    (apply_block_with_merges toy ((11, side_block) ∷ []) merging sample_block before_block).1

merges :
    apply_block_with_merges toy ((11, side_block) ∷ []) merging sample_block before_block
    ≡ (ok merged, after_merge)
unfolding apply_block_with_merges Utxo.apply_block Utxo.apply_transactions Utxo.apply_transaction
    Utxo.spend_inputs Utxo.add_outputs Tx.txid Merges.credit_merges Blocks.hash apply_merge_coinbase
merges = refl

created_absent :
    (k : OutPoint) → listed k merged.merge_coinbases ≡ true → get k before_block.utxos ≡ none
created_absent k h = ground (arith, h)

disconnect-apply_block_with_merges_example :
    (n : UtxoSet) × (disconnect_block toy sample_block merged after_merge ≡ (ok tt, n))
    × SameSet n before_block
disconnect-apply_block_with_merges_example =
    Merges.disconnect-apply_block_with_merges toy ((11, side_block) ∷ []) merging sample_block
      merged before_block after_merge merges
      (block-IsFresh.0, (ids_differ, tt), (block-IsFresh.1.0, tt, tt)) created_absent (omega arith)

abbrev credited : OutPoint
credited = record { tx_hash = 1003; index = 0 }

credits : listed credited (apply_merge_coinbase toy side_block 39 before_block).0 ≡ true
unfolding apply_merge_coinbase Tx.is_coinbase Tx.txid
credits = refl

-- The set after a transaction spent the credited output for one of Alice's.
abbrev spent_set : UtxoSet
spent_set = record before_block {
  utxos =
      (
        record { tx_hash = 2000; index = 0 },
        record { amount = 50; address = alice; block_height = 140; is_coinbase = false },
      )
      ∷ before_block.utxos;
}

apply_merge_coinbase-again_example :
    (e : UtxoEntry) × (get credited (apply_merge_coinbase toy side_block 39 before_block).1.utxos
      ≡ some e)
    × (listed credited (apply_merge_coinbase toy side_block 150 spent_set).0
        ≡ not (contains_key credited spent_set.utxos))
    × (get credited (apply_merge_coinbase toy side_block 150 spent_set).1.utxos
        ≡ held_or (get credited spent_set.utxos) (some (record e { block_height = 150 })))
apply_merge_coinbase-again_example =
    Recredit.apply_merge_coinbase-again toy side_block 39 150 before_block spent_set credited
      credits
