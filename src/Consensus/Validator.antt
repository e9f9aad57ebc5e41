-- ===== src/Consensus/Validator.antt =====
-- validator.rs: `BlockValidator`, the block check of the consensus crate. Error texts are left out.
pub mod Signed
use zentra_chain.Prelude.{
  ℕ, Bool, true, false, not, ◌&&◌, List, [], ◌∷◌, ltb, if◌then◌else◌, ok, ◌>>◌, fail_if,
  ZentraError, ZentraResult,
}
use zentra_chain.Prelude.Words
use zentra_chain.Prelude.Words.{u64_max}
use zentra_chain.Types.{BurnType}
use zentra_chain.Types.Amount.{Amount}
use zentra_chain.Core.Data.{TxOutput, standard, burn, Transaction, Block, Crypto}
use zentra_chain.Core.Tx.{is_coinbase, total_output_amount, validate_basic, verify_signatures}
use zentra_chain.Core.Blocks.{validate_block_basic, validate_merkle_root}
use zentra_chain.Consensus.Emission.{EmissionSchedule, block_reward}
use zentra_chain.Consensus.Lanes.{verify_block_pow}

-- The fee that an output counts as: a burn of the type FeeBurn.
abbrev fee_of : TxOutput → Amount
fee_of (burn v BurnType.fee_burn) = v
fee_of _ = 0

unfoldable pub fold_fee_outputs : Amount → List TxOutput → Amount
fold_fee_outputs acc [] = acc
fold_fee_outputs acc (o ∷ os) = fold_fee_outputs (Words.saturating_add u64_max acc (fee_of o)) os

-- The fees of the transactions after the first.
unfoldable pub fold_fees : Amount → List Transaction → Amount
fold_fees acc [] = acc
fold_fees acc (tx ∷ txs) =
    fold_fees (Words.saturating_add u64_max acc (fold_fee_outputs 0 tx.outputs)) txs

unfoldable pub check_coinbase : EmissionSchedule → ℕ → List Transaction → ZentraResult (Unit {0})
check_coinbase emission height [] = ok tt
check_coinbase emission height (tx ∷ txs) =
    if is_coinbase tx
    then fail_if
        (ltb (Words.saturating_add u64_max (block_reward emission height) (fold_fees 0 txs))
          (total_output_amount tx))
        ZentraError.block_validation
    else ok tt

module _ (c : Crypto) where
  unfoldable pub validate_transaction : Transaction → ZentraResult (Unit {0})
  validate_transaction tx = do
    validate_basic tx
    if is_coinbase tx then ok tt else verify_signatures c tx

  unfoldable pub validate_transactions : List Transaction → ZentraResult (Unit {0})
  validate_transactions [] = ok tt
  validate_transactions (tx ∷ txs) = validate_transaction tx >> validate_transactions txs

  -- The last loop: a coinbase in the first place is passed over.
  unfoldable pub validate_after_coinbase : List Transaction → ZentraResult (Unit {0})
  validate_after_coinbase [] = ok tt
  validate_after_coinbase (tx ∷ txs) =
      if is_coinbase tx
      then validate_transactions txs
      else validate_transaction tx >> validate_transactions txs

  unfoldable pub validate_block :
      (List ℕ → List ℕ) → Block → EmissionSchedule → ℕ → ZentraResult (Unit {0})
  validate_block sha256 b emission height = do
    validate_block_basic c b
    verify_block_pow c sha256 b.header
    fail_if (not (validate_merkle_root c b)) ZentraError.invalid_merkle_root
    check_coinbase emission height b.transactions
    validate_after_coinbase b.transactions
