-- ===== src/Core/Utxo/Applying.antt =====
-- What a successful `apply_transaction` did, read off its result.
use zentra_chain.Prelude.{
  ℕ, ◌≡◌, refl, true, false, List, [], ◌∷◌, arith, ok, err, Bool-cases, ◌⊎◌, inl, inr, ZentraResult,
}
use zentra_chain.Core.Data.{TxInput, Transaction, Crypto}
use zentra_chain.Core.Tx.{is_coinbase, txid}
use zentra_chain.Core.Utxo.{
  UtxoEntry, UtxoSet, Utxos, TxUndoData, spend_inputs, restore_inputs, add_outputs,
  apply_transaction, apply_transactions,
}

pub restore_nothing : (is : List TxInput) (m : Utxos) → restore_inputs is [] m ≡ m
unfolding restore_inputs
restore_nothing [] m = refl
restore_nothing (i ∷ is) m = refl

-- What a successful `apply_transaction` did.
pub record Applied (c : Crypto) (tx : Transaction) (height : ℕ) (u : TxUndoData) (s s' : UtxoSet)
    : Type 0 where
  pub kept : Utxos
  pub spent :
      ((is_coinbase tx ≡ true) × (u.inputs_undo ≡ []) × (kept ≡ s.utxos))
      ⊎ ((is_coinbase tx ≡ false) × (spend_inputs tx.inputs s.utxos ≡ (ok u.inputs_undo, kept)))
  pub added :
      s' ≡ add_outputs (txid c tx) height (is_coinbase tx) 0 tx.outputs (record s { utxos = kept })

module _ (c : Crypto) where
  Applied-spending :
      (tx : Transaction) (height : ℕ) (u : TxUndoData) (s s' : UtxoSet)
      (r : ZentraResult (List UtxoEntry)) (m : Utxos)
      → is_coinbase tx ≡ false
      → spend_inputs tx.inputs s.utxos ≡ (r, m)
      → apply_transaction c tx height s ≡ (ok u, s')
      → Applied c tx height u s s'
  unfolding apply_transaction
  Applied-spending tx height u s s' (ok es) m plain e h = record {
    kept = m;
    spent = inr (plain, ground arith);
    added = ground arith;
  }
  Applied-spending tx height u s s' (err x) m plain e h = absurd (ground arith)

  pub apply-Applied :
      (tx : Transaction) (height : ℕ) (u : TxUndoData) (s s' : UtxoSet)
      → apply_transaction c tx height s ≡ (ok u, s')
      → Applied c tx height u s s'
  unfolding apply_transaction
  apply-Applied tx height u s s' h = elim (Bool-cases (is_coinbase tx)) [
    | inl cb ↦ record { kept = s.utxos; spent = inl (cb, ground arith, refl); added = ground arith }
    | inr plain ↦
        Applied-spending tx height u s s' (spend_inputs tx.inputs s.utxos).0
          (spend_inputs tx.inputs s.utxos).1 plain refl h
  ]

-- A first transaction and the rest, run one after the other.
pub apply_transactions-cons :
    (c : Crypto) (tx : Transaction) (txs : List Transaction) (height : ℕ) (s mid after : UtxoSet)
    (u : TxUndoData) (us : List TxUndoData)
    → apply_transaction c tx height s ≡ (ok u, mid)
    → apply_transactions c txs height mid ≡ (ok us, after)
    → apply_transactions c (tx ∷ txs) height s ≡ (ok (u ∷ us), after)
unfolding apply_transactions
apply_transactions-cons c tx txs height s mid after u us first later = ground (arith, first, later)
