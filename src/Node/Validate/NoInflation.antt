-- ===== src/Node/Validate/NoInflation.antt =====
-- node.rs and utxo.rs: a block that passes `validate_block_transactions`, against applying it.
use zentra_chain.Prelude.{
  ℕ, suc, ◌+◌, ◌≤◌, ◌≡◌, refl, false, not, List, [], ◌∷◌, ok, >>=-eq-ok, fail_if-ok, All,
  if◌then◌else◌, arith,
}
use zentra_chain.Prelude.Words.{u64_max, saturating_add-le}
use zentra_chain.Types.{NetworkType}
use zentra_chain.Core.Data.{Transaction, out_point_key, Block, Crypto}
use zentra_chain.Core.Tx.{is_coinbase, total_output_amount}
use zentra_chain.Core.Blocks.{validate_merkle_root}
use zentra_chain.Core.Utxo.{
  Utxos, UtxoSet, TxUndoData, BlockUndoData, apply_transactions, apply_block,
}
use zentra_chain.Core.Utxo.Undo.{IsFresh, burned_by}
use zentra_chain.Core.Utxo.Value.{value}
use zentra_chain.Consensus.Emission.{EmissionSchedule, block_reward}
use zentra_chain.Node.Validate.{
  BlockError, Progress, check_position, check_tx, check_txs, check_reward,
  validate_block_transactions,
}
use zentra_chain.Node.Validate.Simulation.{Agrees, Agrees-start}
use zentra_chain.Core.Utxo.Applying.{apply_transactions-cons}
use zentra_chain.Node.Validate.Soundness.{outputs_sum, fold_amounts_exact, check_tx-Sound}

-- The outputs of the coinbase transactions of a list.
abbrev pub coinbase_outputs : List Transaction → ℕ
coinbase_outputs [] = 0
coinbase_outputs (tx ∷ txs) = (if is_coinbase tx then outputs_sum tx else 0) + coinbase_outputs txs

module _ (c : Crypto) (network : NetworkType) (height : ℕ) (utxo : Utxos) where
  -- The same for a list of transactions.
  record AllSound (txs : List Transaction) (p q : Progress) (s : UtxoSet) : Type 0 where
    undos : List TxUndoData
    after : UtxoSet
    applied : apply_transactions c txs height s ≡ (ok undos, after)
    balanced :
        value after.utxos + burned_by c txs + q.total_fees
        ≤ value s.utxos + p.total_fees + coinbase_outputs txs

  check_txs-AllSound :
      (i : ℕ) (txs : List Transaction) (p q : Progress) (s : UtxoSet)
      → All (λ tx. IsFresh c tx utxo) txs
      → All (λ tx. outputs_sum tx ≤ u64_max) txs
      → check_txs c network height utxo i txs p ≡ ok q
      → Agrees utxo p.spent p.created s.utxos
      → AllSound txs p q s
  unfolding check_txs apply_transactions
  check_txs-AllSound i [] p q s fresh fits h agrees =
      let same : q ≡ p = cc in
      record { undos = []; after = s; applied = refl; balanced = rw same (omega arith) }
  check_txs-AllSound i (tx ∷ txs) p q s fresh fits h agrees =
      let (mid, first, later) = >>=-eq-ok (check_tx c network height utxo i tx p) _ h in
      let one = check_tx-Sound c network height utxo i tx p mid s fresh.0 fits.0 first agrees in
      let rest = check_txs-AllSound (suc i) txs mid q one.after fresh.1 fits.1 later one.agrees in
      record {
        undos = one.undo ∷ rest.undos;
        after = rest.after;
        applied =
            apply_transactions-cons c tx txs height s one.after rest.after one.undo rest.undos
              one.applied rest.applied;
        balanced = omega (arith, one.balanced, rest.balanced);
      }

  -- After the first place there is no coinbase.
  no_later_coinbase :
      (i : ℕ) (txs : List Transaction) (p q : Progress)
      → check_txs c network height utxo (suc i) txs p ≡ ok q
      → coinbase_outputs txs ≡ 0
  unfolding check_txs check_tx
  no_later_coinbase i [] p q h = refl
  no_later_coinbase i (tx ∷ txs) p q h =
      let (mid, first, later) = >>=-eq-ok (check_tx c network height utxo (suc i) tx p) _ h in
      let (placed, at_place, h') = >>=-eq-ok (check_position (suc i) (is_coinbase tx)) _ first in
      let plain : is_coinbase tx ≡ false = ground (arith, at_place) in
      rw plain (omega (arith, no_later_coinbase (suc i) txs mid q later))

  coinbase_outputs-le :
      (txs : List Transaction) (p q : Progress) (emission : EmissionSchedule)
      → All (λ tx. outputs_sum tx ≤ u64_max) txs
      → check_txs c network height utxo 0 txs p ≡ ok q
      → check_reward c network emission height txs q.total_fees ≡ ok tt
      → coinbase_outputs txs ≤ block_reward emission height + q.total_fees
  unfolding check_txs check_reward total_output_amount
  coinbase_outputs-le [] p q emission fits h paid = omega arith
  coinbase_outputs-le (tx ∷ txs) p q emission fits h paid =
      let (mid, first, later) = >>=-eq-ok (check_tx c network height utxo 0 tx p) _ h in
      let none_later = no_later_coinbase 0 txs mid q later in
      ground (
        arith,
        none_later,
        fold_amounts_exact 0 tx.outputs,
        fits.0,
        saturating_add-le u64_max (block_reward emission height) q.total_fees,
      )

-- A block that passes `validate_block_transactions` on a set is applied to that set at its own
-- height without an error, and what the set is worth afterwards, together with what the block burns,
-- is at most what it was worth before and the block reward. This is for blocks none of whose
-- outpoints is in the set yet, and none of whose transactions has outputs above the u64 range.
pub validate_no_inflation :
    (c : Crypto) (network : NetworkType) (emission : EmissionSchedule) (b : Block) (s : UtxoSet)
    → All (λ tx. IsFresh c tx s.utxos) b.transactions
    → All (λ tx. outputs_sum tx ≤ u64_max) b.transactions
    → validate_block_transactions c network emission b s ≡ ok tt
    → (undo : BlockUndoData) × (after : UtxoSet) × (apply_block c b b.header.blue_score s
        ≡ (ok undo, after))
      × (value after.utxos + burned_by c b.transactions
          ≤ value s.utxos + block_reward emission b.header.blue_score)
unfolding validate_block_transactions apply_block
validate_no_inflation c network emission b s fresh fits h =
    let height = b.header.blue_score in
    let start : Progress = record { spent = []; created = []; total_fees = 0 } in
    let (merkle, h') = fail_if-ok (not (validate_merkle_root c b)) BlockError.merkle_mismatch _ h in
    let (p, checked, paid) =
      >>=-eq-ok (check_txs c network height s.utxos 0 b.transactions start) _ h' in
    let sound =
      check_txs-AllSound c network height s.utxos 0 b.transactions start p s fresh fits checked
        (Agrees-start s.utxos) in
    (
      record { txs_undo = sound.undos; merge_coinbases = [] },
      sound.after,
      ground (arith, sound.applied),
      omega (
        arith,
        sound.balanced,
        coinbase_outputs-le c network height s.utxos b.transactions start p emission fits checked
            paid,
      ),
    )
