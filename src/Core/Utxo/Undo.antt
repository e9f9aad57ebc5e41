-- ===== src/Core/Utxo/Undo.antt =====
-- utxo.rs: undoing a transaction, and sets with the same entries.
use zentra_chain.Prelude.{
  ℕ, ◌+◌, ◌≤◌, ◌≡◌, ◌≢◌, ◌∙◌, Bool, none, List, [], ◌∷◌, arith, ok, All, Bool-cases, inl, inr,
}
use zentra_chain.Prelude.Words.{u64_max}
use zentra_chain.Prelude.Map.{get, remove}
use zentra_chain.Prelude.Map.Laws.{get-remove}
use zentra_chain.Core.Data.{TxInput, Transaction, OutPoint, out_point_key, spends, Crypto}
use zentra_chain.Core.Tx.{txid}
use zentra_chain.Core.Utxo.{
  UtxoEntry, UtxoSet, Utxos, TxUndoData, spend_inputs, restore_inputs, add_outputs, remove_outputs,
  undo_transaction,
}
use zentra_chain.Core.Utxo.Spending.{get-restore_ext, spend-Spent}
use zentra_chain.Core.Utxo.Outputs.{
  creates, creates_hash, burns, get-remove_outputs, get-add_outputs, total_burned-remove_outputs,
  total_burned-add_outputs,
}

-- Two sets with the same entries and the same burn counter. The order of a map's entries is
-- unspecified, so this is what a caller can observe.
pub record SameSet (s n : UtxoSet) : Type 0 where
  pub same_utxos : (k : OutPoint) → get k s.utxos ≡ get k n.utxos
  pub same_burned : s.total_burned ≡ n.total_burned

pub SameSet-trans : {s n p : UtxoSet} → SameSet s n → SameSet n p → SameSet s p
SameSet-trans h g = record {
  same_utxos = λ k. h.same_utxos k ∙ g.same_utxos k;
  same_burned = h.same_burned ∙ g.same_burned;
}

-- Spending brings no output into the set.
pub get-spend_absent :
    (k : OutPoint) (is : List TxInput) (es : List UtxoEntry) (m m' : Utxos)
    → spend_inputs is m ≡ (ok es, m')
    → get k m ≡ none
    → get k m' ≡ none
unfolding spend_inputs
get-spend_absent k [] es m m' h a = cc
get-spend_absent k (i ∷ is) es m m' h a =
    let s = spend-Spent i is es m m' h in
    get-spend_absent k is s.rest (remove (spends i) m) m' s.later
      (ground (arith, get-remove (spends i) k m))

module _ (c : Crypto) where
  -- No entry of the map names an output of the transaction.
  abbrev pub IsFresh : Transaction → Utxos → Type 0
  IsFresh tx m = (k : OutPoint) → k.tx_hash ≡ txid c tx → get k m ≡ none

  -- The transactions have pairwise different ids, and the map holds no entry of any index under them.
  abbrev pub AllFresh : List Transaction → Utxos → Type 0
  AllFresh [] m = Unit
  AllFresh (tx ∷ txs) m = IsFresh tx m × All (λ t. txid c t ≢ txid c tx) txs × AllFresh txs m

  abbrev pub burned_by : List Transaction → ℕ
  burned_by [] = 0
  burned_by (tx ∷ txs) = burns tx.outputs + burned_by txs

  pub undo_transaction-SameSet :
      (tx : Transaction) (u : TxUndoData) (s n : UtxoSet)
      → SameSet s n
      → SameSet (undo_transaction c tx u s) (undo_transaction c tx u n)
  unfolding undo_transaction
  undo_transaction-SameSet tx u s n h = record {
    same_utxos = λ k.
        get-restore_ext k tx.inputs u.inputs_undo (remove_outputs (txid c tx) 0 tx.outputs s).utxos
          (remove_outputs (txid c tx) 0 tx.outputs n).utxos
          (ground (
            arith,
            get-remove_outputs k (txid c tx) 0 tx.outputs s,
            get-remove_outputs k (txid c tx) 0 tx.outputs n,
            h.same_utxos k,
          ));
    same_burned = ground (
      arith,
      total_burned-remove_outputs (txid c tx) 0 tx.outputs s,
      total_burned-remove_outputs (txid c tx) 0 tx.outputs n,
      h.same_burned,
    );
  }

  -- What the transaction put in is taken out again.
  get-remove-add :
      (k : OutPoint) (tx : Transaction) (height : ℕ) (cb : Bool) (s : UtxoSet)
      → (k.tx_hash ≡ txid c tx → get k s.utxos ≡ none)
      → get k
          (remove_outputs
            (txid c tx)
            0
            tx.outputs
            (add_outputs (txid c tx) height cb 0 tx.outputs s)).utxos
        ≡ get k s.utxos
  get-remove-add k tx height cb s fresh =
      let added = add_outputs (txid c tx) height cb 0 tx.outputs s in
      elim (Bool-cases (creates k (txid c tx) 0 tx.outputs)) [
        | inl made ↦ ground (
          arith,
          get-remove_outputs k (txid c tx) 0 tx.outputs added,
          fresh (creates_hash k (txid c tx) 0 tx.outputs made),
        )
        | inr other ↦ ground (
          arith,
          get-remove_outputs k (txid c tx) 0 tx.outputs added,
          get-add_outputs k (txid c tx) height cb 0 tx.outputs s other,
        )
      ]

  pub undo-apply_parts :
      (tx : Transaction) (height : ℕ) (cb : Bool) (es : List UtxoEntry) (m : Utxos) (s : UtxoSet)
      → ((k : OutPoint) → get k (restore_inputs tx.inputs es m) ≡ get k s.utxos)
      → ((k : OutPoint) → k.tx_hash ≡ txid c tx → get k m ≡ none)
      → s.total_burned + burns tx.outputs ≤ u64_max
      → SameSet
          (undo_transaction c tx
            (record { inputs_undo = es })
            (add_outputs (txid c tx) height cb 0 tx.outputs (record s { utxos = m })))
          s
  unfolding undo_transaction
  undo-apply_parts tx height cb es m s restored fresh fits =
      let mid : UtxoSet = record s { utxos = m } in
      let added = add_outputs (txid c tx) height cb 0 tx.outputs mid in
      record {
        same_utxos = λ k.
            get-restore_ext k tx.inputs es (remove_outputs (txid c tx) 0 tx.outputs added).utxos m
              (get-remove-add k tx height cb mid (fresh k))
            ∙ restored k;
        same_burned = omega (
          arith,
          total_burned-remove_outputs (txid c tx) 0 tx.outputs added,
          total_burned-add_outputs (txid c tx) height cb 0 tx.outputs mid fits,
        );
      }
