-- ===== src/Core/Utxo.antt =====
-- utxo.rs: the set of unspent outputs, applying a block to it and disconnecting it again. A method
-- returns its result and the set, also on an error, since what was written stays written.
-- `idx as u32` is written out as `% u32_mod`. Log lines are left out.
pub mod Spending
pub mod Outputs
pub mod Undo
pub mod Applying
pub mod Merging
pub mod Recredit
pub mod Rollback
pub mod Value
pub mod Balance
use zentra_chain.Prelude.{
  ℕ, suc, ◌+◌, ◌-◌, ◌%◌, ◌^◌, Bool, true, false, not, ◌||◌, ◌&&◌, Option, none, some, List, [], ◌∷◌,
  ◌++◌, ◌==◌, leb, length, if◌then◌else◌, Result, ok, err, ZentraError, ZentraResult, keep,
}
use zentra_chain.Prelude.Words
use zentra_chain.Prelude.Words.{u64_max}
use zentra_chain.Prelude.Map.{Map, get, insert, remove, contains_key}
use zentra_chain.Types.{Hash, Address, address_eq}
use zentra_chain.Types.Amount.{Amount}
use zentra_chain.Core.Data.{
  TxInput, TxOutput, standard, burn, Transaction, OutPoint, out_point_key, spends, Block, Crypto,
}
use zentra_chain.Core.Tx.{is_coinbase, txid}

abbrev pub coinbase_maturity : ℕ
coinbase_maturity = 10

abbrev pub u32_mod : ℕ
u32_mod = 4_294_967_296

pub record UtxoEntry : Type 0 where
  pub amount : Amount
  pub address : Address
  pub block_height : ℕ
  pub is_coinbase : Bool

pub record TxUndoData : Type 0 where
  pub inputs_undo : List UtxoEntry

pub record BlockUndoData : Type 0 where
  pub txs_undo : List TxUndoData
  pub merge_coinbases : List OutPoint

abbrev pub Utxos : Type 0
Utxos = Map OutPoint UtxoEntry

pub record UtxoSet : Type 0 where
  pub utxos : Utxos
  pub total_burned : Amount

-- `UtxoSet::new`
abbrev pub empty_set : UtxoSet
empty_set = record { utxos = []; total_burned = 0 }

-- `OutPoint::new(txid, idx as u32)`
abbrev pub out_point : Hash → ℕ → OutPoint
out_point t idx = record { tx_hash = t; index = idx % u32_mod }

abbrev pub prepend : {A : Type 0} → A → ZentraResult (List A) → ZentraResult (List A)
prepend e (ok es) = ok (e ∷ es)
prepend e (err x) = err x

-- The first loop of `apply_transaction`: removes the spent outputs and returns them.
unfoldable pub spend_inputs : List TxInput → Utxos → ZentraResult (List UtxoEntry) × Utxos
spend_inputs [] m = (ok [], m)
spend_inputs (i ∷ is) m = elim (get (spends i) m) [
  | none ↦ (err ZentraError.double_spend, m)
  | some e ↦ let (r, m') = spend_inputs is (remove (spends i) m) in (prepend e r, m')
]

-- The second loop: standard outputs enter the set, burns are only counted.
unfoldable pub add_outputs : Hash → ℕ → Bool → ℕ → List TxOutput → UtxoSet → UtxoSet
add_outputs t height cb idx [] s = s
add_outputs t height cb idx (standard a v script ∷ os) s =
    add_outputs t height cb (suc idx) os (record s {
      utxos =
          insert (out_point t idx)
            (record { amount = v; address = a; block_height = height; is_coinbase = cb }) s.utxos;
    })
add_outputs t height cb idx (burn v b ∷ os) s =
    add_outputs t height cb (suc idx) os
      (record s { total_burned = Words.saturating_add u64_max s.total_burned v })

-- `disconnect_block`, step 1 for one transaction.
unfoldable pub remove_outputs : Hash → ℕ → List TxOutput → UtxoSet → UtxoSet
remove_outputs t idx [] s = s
remove_outputs t idx (standard a v script ∷ os) s =
    remove_outputs t (suc idx) os (record s { utxos = remove (out_point t idx) s.utxos })
remove_outputs t idx (burn v b ∷ os) s =
    remove_outputs t (suc idx) os (record s { total_burned = s.total_burned - v })

-- Step 2: `inputs.iter().zip(&inputs_undo)`.
unfoldable pub restore_inputs : List TxInput → List UtxoEntry → Utxos → Utxos
restore_inputs [] es m = m
restore_inputs (i ∷ is) [] m = m
restore_inputs (i ∷ is) (e ∷ es) m = restore_inputs is es (insert (spends i) e m)

-- Step 3.
unfoldable pub remove_all : List OutPoint → Utxos → Utxos
remove_all [] m = m
remove_all (o ∷ os) m = remove_all os (remove o m)

module _ (c : Crypto) where
  -- On an error the inputs before the missing one stay spent.
  unfoldable pub apply_transaction : Transaction → ℕ → UtxoSet → ZentraResult TxUndoData × UtxoSet
  unfolding is_coinbase
  apply_transaction tx height s =
      let (r, m) = if is_coinbase tx then (ok [], s.utxos) else spend_inputs tx.inputs s.utxos in
      elim r [
        | err e ↦ (err e, record s { utxos = m })
        | ok es ↦ (
          ok (record { inputs_undo = es }),
          add_outputs (txid c tx) height (is_coinbase tx) 0 tx.outputs (record s { utxos = m }),
        )
      ]

  unfoldable pub apply_transactions :
      List Transaction → ℕ → UtxoSet → ZentraResult (List TxUndoData) × UtxoSet
  apply_transactions [] height s = (ok [], s)
  apply_transactions (tx ∷ txs) height s =
      let (r, s') = apply_transaction tx height s in
      elim r [
        | err e ↦ (err e, s')
        | ok u ↦ let (us, s'') = apply_transactions txs height s' in (prepend u us, s'')
      ]

  unfoldable pub apply_block : Block → ℕ → UtxoSet → ZentraResult BlockUndoData × UtxoSet
  apply_block b height s =
      let (r, s') = apply_transactions b.transactions height s in
      elim r [
        | err e ↦ (err e, s')
        | ok us ↦ (ok (record { txs_undo = us; merge_coinbases = [] }), s')
      ]

  abbrev merge_outputs : Hash → ℕ → ℕ → List TxOutput → Utxos → List OutPoint × Utxos
  merge_outputs t height idx [] m = ([], m)
  merge_outputs t height idx (burn v b ∷ os) m = merge_outputs t height (suc idx) os m
  merge_outputs t height idx (standard a v script ∷ os) m =
      let present = merge_outputs t height (suc idx) os m in
      let absent = merge_outputs t height (suc idx) os (
        insert (out_point t idx)
          (record { amount = v; address = a; block_height = height; is_coinbase = true }) m) in
      if contains_key (out_point t idx) m then present else (out_point t idx ∷ absent.0, absent.1)

  abbrev merge_first : List Transaction → ℕ → UtxoSet → List OutPoint × UtxoSet
  merge_first [] height s = ([], s)
  merge_first (cb ∷ txs) height s =
      if is_coinbase cb
      then (let (created, m) = merge_outputs (txid c cb) height 0 cb.outputs s.utxos in
          (created, record s { utxos = m }))
      else ([], s)

  -- Credits the coinbase of a blue merge block.
  unfoldable pub apply_merge_coinbase : Block → ℕ → UtxoSet → List OutPoint × UtxoSet
  apply_merge_coinbase b height s = merge_first b.transactions height s

  unfoldable pub undo_transaction : Transaction → TxUndoData → UtxoSet → UtxoSet
  undo_transaction tx u s =
      let s' = remove_outputs (txid c tx) 0 tx.outputs s in
      record s' { utxos = restore_inputs tx.inputs u.inputs_undo s'.utxos }

  -- `zip(..).rev()`: the last transaction is undone first.
  unfoldable pub undo_transactions : List Transaction → List TxUndoData → UtxoSet → UtxoSet
  undo_transactions [] us s = s
  undo_transactions (tx ∷ txs) [] s = s
  undo_transactions (tx ∷ txs) (u ∷ us) s = undo_transaction tx u (undo_transactions txs us s)

  unfoldable pub disconnect_block :
      Block → BlockUndoData → UtxoSet → ZentraResult (Unit {0}) × UtxoSet
  disconnect_block b undo s =
      if length b.transactions == length undo.txs_undo
      then (let s' = undo_transactions b.transactions undo.txs_undo s in
          (ok tt, record s' { utxos = remove_all undo.merge_coinbases s'.utxos }))
      else (err ZentraError.database, s)

-- `fold(Amount::ZERO, saturating_add)` over the entries that pass a filter.
unfoldable pub fold_balance : (UtxoEntry → Bool) → Amount → Utxos → Amount
fold_balance p acc [] = acc
fold_balance p acc ((o, e) ∷ m) =
    fold_balance p (if p e then Words.saturating_add u64_max acc e.amount else acc) m

abbrev pub is_mature : ℕ → UtxoEntry → Bool
is_mature current e =
    not e.is_coinbase || leb (Words.saturating_add u64_max e.block_height coinbase_maturity) current

unfoldable pub get_balance : Address → UtxoSet → Amount
get_balance a s = fold_balance (λ e. address_eq e.address a) 0 s.utxos

unfoldable pub get_spendable_balance : Address → ℕ → UtxoSet → Amount
get_spendable_balance a current s =
    fold_balance (λ e. address_eq e.address a && is_mature current e) 0 s.utxos

unfoldable pub get_spendable_utxos : Address → ℕ → UtxoSet → Utxos
get_spendable_utxos a current s =
    keep (λ e. address_eq e.1.address a && is_mature current e.1) s.utxos
