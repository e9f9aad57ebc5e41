-- ===== src/Node/Validate.antt =====
-- node.rs: `validate_block_self_contained` and `validate_block_transactions`. A `HashSet` is a map
-- to the unit type. Error messages become the constructors of `BlockError`.
pub mod Simulation
pub mod Inputs
pub mod Soundness
pub mod NoInflation
use zentra_chain.Prelude.{
  ℕ, suc, ◌+◌, ◌-◌, ◌%◌, Bool, true, false, not, ◌&&◌, Option, none, some, List, [], ◌∷◌, ltb, ◌==◌,
  length, Result, ok, err, ◌>>=◌, ◌>>◌, fail_if, is_ok, if◌then◌else◌,
}
use zentra_chain.Prelude.Words
use zentra_chain.Prelude.Words.{u64_max}
use zentra_chain.Prelude.Map.{Map, get, insert, contains_key}
use zentra_chain.Types.{Hash, Address, address_eq, NetworkType}
use zentra_chain.Core.Data.{
  TxInput, TxOutput, standard, burn, Transaction, OutPoint, out_point_key, spends, Block, Crypto,
}
use zentra_chain.Core.Tx.{
  is_coinbase, txid, verify_signatures, from_public_key, fold_amounts, total_output_amount,
}
use zentra_chain.Core.Blocks.{validate_merkle_root}
use zentra_chain.Core.Utxo.{Utxos, UtxoEntry, UtxoSet, out_point, coinbase_maturity}
use zentra_chain.Consensus.Emission.{EmissionSchedule, block_reward}

pub data BlockError : Type 0 where
  merkle_mismatch no_transactions first_not_coinbase extra_coinbase bad_signature : BlockError
  double_spend_in_block immature_coinbase input_not_found not_owned : BlockError
  outputs_exceed_inputs coinbase_too_large : BlockError

abbrev pub Spends : Type 0
Spends = Map OutPoint (Unit {0})

-- outpoint ↦ (amount, owner)
abbrev pub Created : Type 0
Created = Map OutPoint (ℕ × Address)

-- Where the coinbase may stand: lines 965-966 and 997-998.
abbrev pub check_position : ℕ → Bool → Result BlockError (Unit {0})
check_position i cb = do
  fail_if ((i == 0) && not cb) BlockError.first_not_coinbase
  fail_if (ltb 0 i && cb) BlockError.extra_coinbase

unfoldable pub check_seen : List TxInput → Spends → Result BlockError Spends
check_seen [] seen = ok seen
check_seen (i ∷ is) seen = do
  fail_if (contains_key (spends i) seen) BlockError.double_spend_in_block
  check_seen is (insert (spends i) tt seen)

-- The value and the owner of the output that an input spends: lines 1009-1020.
unfoldable pub find_value : OutPoint → Utxos → Created → ℕ → Result BlockError (ℕ × Address)
find_value op utxo created height = elim (get op utxo) [
  | some e ↦
      if e.is_coinbase && ltb height (Words.saturating_add u64_max e.block_height coinbase_maturity)
      then err BlockError.immature_coinbase
      else ok (e.amount, e.address)
  | none ↦ elim (get op created) [ some va ↦ ok va | none ↦ err BlockError.input_not_found ]
]

-- Records a transaction's standard outputs: lines 1042-1047.
unfoldable pub record_outputs : Hash → ℕ → List TxOutput → Created → Created
record_outputs t idx [] m = m
record_outputs t idx (standard a v script ∷ os) m =
    record_outputs t (suc idx) os (insert (out_point t idx) (v, a) m)
record_outputs t idx (burn v b ∷ os) m = record_outputs t (suc idx) os m

-- What the loop over the transactions carries.
pub record Progress : Type 0 where
  pub spent : Spends
  pub created : Created
  pub total_fees : ℕ

module _ (c : Crypto) (network : NetworkType) where
  unfoldable pub self_contained_loop : ℕ → List Transaction → Spends → Result BlockError (Unit {0})
  self_contained_loop i [] seen = ok tt
  self_contained_loop i (tx ∷ txs) seen = do
    check_position i (is_coinbase tx)
    seen' ←
        if is_coinbase tx
        then ok seen
        else if is_ok (verify_signatures c tx)
        then check_seen tx.inputs seen
        else err BlockError.bad_signature
    self_contained_loop (suc i) txs seen'

  unfoldable pub validate_block_self_contained : Block → Result BlockError (Unit {0})
  validate_block_self_contained b = do
    fail_if (not (validate_merkle_root c b)) BlockError.merkle_mismatch
    fail_if (length b.transactions == 0) BlockError.no_transactions
    self_contained_loop 0 b.transactions []

  -- The loop over a transaction's inputs: the sum of their values, and the outpoints spent.
  unfoldable pub check_inputs :
      ℕ → Utxos → Created → List TxInput → Spends → ℕ → Result BlockError (ℕ × Spends)
  check_inputs height utxo created [] spent sum = ok (sum, spent)
  check_inputs height utxo created (i ∷ is) spent sum = do
    fail_if (contains_key (spends i) spent) BlockError.double_spend_in_block
    va ← find_value (spends i) utxo created height
    fail_if (not (address_eq (from_public_key c i.public_key network) va.1)) BlockError.not_owned
    check_inputs height utxo created is (insert (spends i) tt spent)
        (Words.saturating_add u64_max sum va.0)

  -- Lines 1000-1039 for one transaction that is not the coinbase.
  unfoldable pub check_spending : ℕ → Utxos → Transaction → Progress → Result BlockError Progress
  check_spending height utxo tx p = do
    fail_if (not (is_ok (verify_signatures c tx))) BlockError.bad_signature
    checked ← check_inputs height utxo p.created tx.inputs p.spent 0
    fail_if (ltb checked.0 (fold_amounts 0 tx.outputs)) BlockError.outputs_exceed_inputs
    ok (record p {
      spent = checked.1;
      total_fees =
          Words.saturating_add u64_max p.total_fees (checked.0 - fold_amounts 0 tx.outputs);
    })

  unfoldable pub check_tx : ℕ → Utxos → ℕ → Transaction → Progress → Result BlockError Progress
  check_tx height utxo i tx p = do
    check_position i (is_coinbase tx)
    q ← if is_coinbase tx then ok p else check_spending height utxo tx p
    ok (record q { created = record_outputs (txid c tx) 0 tx.outputs q.created })

  unfoldable pub check_txs :
      ℕ → Utxos → ℕ → List Transaction → Progress → Result BlockError Progress
  check_txs height utxo i [] p = ok p
  check_txs height utxo i (tx ∷ txs) p = do
    q ← check_tx height utxo i tx p
    check_txs height utxo (suc i) txs q

  -- The coinbase reward check: lines 1050-1063.
  unfoldable pub check_reward :
      EmissionSchedule → ℕ → List Transaction → ℕ → Result BlockError (Unit {0})
  check_reward emission height [] fees = ok tt
  check_reward emission height (cb ∷ txs) fees =
      if is_coinbase cb
      then fail_if
          (ltb (Words.saturating_add u64_max (block_reward emission height) fees)
            (total_output_amount cb))
          BlockError.coinbase_too_large
      else ok tt

  unfoldable pub validate_block_transactions :
      EmissionSchedule → Block → UtxoSet → Result BlockError (Unit {0})
  validate_block_transactions emission b s = do
    fail_if (not (validate_merkle_root c b)) BlockError.merkle_mismatch
    p ←
        check_txs b.header.blue_score s.utxos 0 b.transactions
          (record { spent = []; created = []; total_fees = 0 })
    check_reward emission b.header.blue_score b.transactions p.total_fees
