-- ===== src/Tests/Pool.antt =====
-- Runs and witnesses of the mempool.
use zentra_chain.Core.Mempool
use zentra_chain.Core.Tx
use zentra_chain.Prelude.{◌≡◌, refl, [], ◌∷◌, ok}
use zentra_chain.Tests.Data.{toy, spending_tx}
use zentra_chain.Core.Tx.{txid}
use zentra_chain.Core.Mempool.{Mempool, new_pool, add_transaction}
use zentra_chain.Core.Mempool.Invariant.{IsValid}
use zentra_chain.Core.Data.{Transaction, OutPoint}
use zentra_chain.Core.Mempool.Reached.{Call, Reached, Reached-IsValid}

abbrev filled : Mempool
filled = record {
  transactions =
      (1002, record { transaction = spending_tx; fee = 10; fee_rate = 10; added_at = 5 }) ∷ [];
  priority_index = record { rate = 10; id = 1002 } ∷ [];
  spent_outpoints = (record { tx_hash = 77; index = 0 }, 1002) ∷ [];
  max_size = 4;
}

adds : add_transaction toy 5 spending_tx 10 (new_pool 4) ≡ ok filled
unfolding add_transaction Tx.is_coinbase Tx.txid Mempool.index_insert Mempool.claim_inputs
adds = refl

abbrev reached : Reached toy 4 filled
reached = Reached.next Reached.start (Call.added 5 spending_tx 10 adds)

Reached-IsValid_example : IsValid filled
Reached-IsValid_example = Reached-IsValid toy 4 filled reached

-- Another transaction that spends the same output.
abbrev rival_tx : Transaction
rival_tx = record spending_tx { lock_time = 1003 }

abbrev rival_filled : Mempool
rival_filled = record {
  transactions =
      (1003, record { transaction = rival_tx; fee = 20; fee_rate = 20; added_at = 6 }) ∷ [];
  priority_index = record { rate = 20; id = 1003 } ∷ [];
  spent_outpoints = (record { tx_hash = 77; index = 0 }, 1003) ∷ [];
  max_size = 4;
}

-- The outpoint that both spend.
abbrev contested : OutPoint
contested = record { tx_hash = 77; index = 0 }
