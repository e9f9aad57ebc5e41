-- ===== src/Core/Utxo/Merging.antt =====
-- What crediting merged coinbases adds to a set, and taking it out again.
use zentra_chain.Prelude.{
  ℕ, suc, ◌≡◌, refl, Bool, true, false, ◌||◌, none, List, [], ◌∷◌, ◌++◌, any, arith, if◌then◌else◌,
  Bool-cases, inl, inr,
}
use zentra_chain.Prelude.Map.{get, insert, remove, contains_key}
use zentra_chain.Prelude.Map.Laws.{get-insert, get-remove}
use zentra_chain.Types.{Hash}
use zentra_chain.Core.Data.{
  TxOutput, standard, burn, Transaction, OutPoint, out_point_eq, out_point_eq_iff, out_point_key,
  Block, Crypto,
}
use zentra_chain.Core.Tx.{is_coinbase, txid}
use zentra_chain.Core.Utxo.{
  UtxoEntry, UtxoSet, Utxos, TxUndoData, out_point, merge_outputs, merge_first,
  apply_merge_coinbase, remove_all, remove_outputs, undo_transaction, undo_transactions,
}
use zentra_chain.Core.Utxo.Spending.{get-restore_ext}
use zentra_chain.Core.Utxo.Outputs.{get-remove_outputs, total_burned-remove_outputs}

abbrev pub listed : OutPoint → List OutPoint → Bool
listed k os = any (λ o. out_point_eq o k) os

pub get-remove_all :
    (k : OutPoint) (os : List OutPoint) (m : Utxos)
    → get k (remove_all os m) ≡ (if listed k os then none else get k m)
unfolding remove_all
get-remove_all k [] m = refl
get-remove_all k (o ∷ os) m = ground (arith, get-remove_all k os (remove o m), get-remove o k m)

listed-append :
    (k : OutPoint) (os ps : List OutPoint) → listed k (os ++ ps) ≡ (listed k os || listed k ps)
listed-append k [] ps = refl
listed-append k (o ∷ os) ps = ground (arith, listed-append k os ps)

-- The second map has the outpoints in addition, none of which was in the first.
pub record Extra (created : List OutPoint) (m n : Utxos) : Type 0 where
  pub outside : (k : OutPoint) → listed k created ≡ false → get k n ≡ get k m
  pub inside : (k : OutPoint) → listed k created ≡ true → get k m ≡ none

pub Extra-none : (m : Utxos) → Extra [] m m
Extra-none m = record { outside = λ k h. refl; inside = λ k h. cc }

pub Extra-append :
    (os ps : List OutPoint) (m n p : Utxos) → Extra os m n → Extra ps n p → Extra (os ++ ps) m p
Extra-append os ps m n p a b = record {
  outside = λ k h. ground (arith, h, listed-append k os ps, a.outside k, b.outside k);
  inside = λ k h. ground (arith, h, listed-append k os ps, a.outside k, a.inside k, b.inside k);
}

Extra-insert :
    (o : OutPoint) (e : UtxoEntry) (m : Utxos)
    → contains_key o m ≡ false
    → Extra (o ∷ []) m (insert o e m)
Extra-insert o e m absent = record {
  outside = λ k h. ground (arith, h, get-insert o k e m);
  inside = λ k h.
      let same : o ≡ k = (out_point_eq_iff o k).0 (ground (arith, h)) in
      let gone : get o m ≡ none = ground (arith, absent) in rw same at gone;
}

module _ (c : Crypto) where
  merge_outputs-Extra :
      (t : Hash) (height idx : ℕ) (os : List TxOutput) (m : Utxos)
      → Extra (merge_outputs c t height idx os m).0 m (merge_outputs c t height idx os m).1
  merge_outputs-Extra t height idx [] m = Extra-none m
  merge_outputs-Extra t height idx (burn v b ∷ os) m = merge_outputs-Extra t height (suc idx) os m
  merge_outputs-Extra t height idx (standard a v script ∷ os) m =
      elim (Bool-cases (contains_key (out_point t idx) m)) [
        | inl present ↦ rw present (merge_outputs-Extra t height (suc idx) os m)
        | inr absent ↦
            let e : UtxoEntry = record {
              amount = v;
              address = a;
              block_height = height;
              is_coinbase = true;
            } in
            let n = insert (out_point t idx) e m in
            rw absent (
              Extra-append (out_point t idx ∷ []) (merge_outputs c t height (suc idx) os n).0 m n
                (merge_outputs c t height (suc idx) os n).1
                (Extra-insert (out_point t idx) e m absent)
                (merge_outputs-Extra t height (suc idx) os n))
      ]

  merge_first-Extra :
      (txs : List Transaction) (height : ℕ) (s : UtxoSet)
      → Extra (merge_first c txs height s).0 s.utxos (merge_first c txs height s).1.utxos
  merge_first-Extra [] height s = Extra-none s.utxos
  merge_first-Extra (cb ∷ txs) height s = elim (Bool-cases (is_coinbase cb)) [
    | inl first ↦ rw first (merge_outputs-Extra (txid c cb) height 0 cb.outputs s.utxos)
    | inr other ↦ rw other (Extra-none s.utxos)
  ]

  pub apply_merge_coinbase-Extra :
      (b : Block) (height : ℕ) (s : UtxoSet)
      → Extra
          (apply_merge_coinbase c b height s).0
          s.utxos
          (apply_merge_coinbase c b height s).1.utxos
  unfolding apply_merge_coinbase
  apply_merge_coinbase-Extra b height s = merge_first-Extra b.transactions height s

  merge_first-burned :
      (txs : List Transaction) (height : ℕ) (s : UtxoSet)
      → (merge_first c txs height s).1.total_burned ≡ s.total_burned
  merge_first-burned [] height s = refl
  merge_first-burned (cb ∷ txs) height s = ground arith

  pub apply_merge_coinbase-burned :
      (b : Block) (height : ℕ) (s : UtxoSet)
      → (apply_merge_coinbase c b height s).1.total_burned ≡ s.total_burned
  unfolding apply_merge_coinbase
  apply_merge_coinbase-burned b height s = merge_first-burned b.transactions height s

  get-undo_transaction :
      (k : OutPoint) (tx : Transaction) (u : TxUndoData) (s n : UtxoSet)
      → get k s.utxos ≡ get k n.utxos
      → get k (undo_transaction c tx u s).utxos ≡ get k (undo_transaction c tx u n).utxos
  unfolding undo_transaction
  get-undo_transaction k tx u s n h =
      get-restore_ext k tx.inputs u.inputs_undo (remove_outputs (txid c tx) 0 tx.outputs s).utxos
        (remove_outputs (txid c tx) 0 tx.outputs n).utxos
        (ground (
          arith,
          get-remove_outputs k (txid c tx) 0 tx.outputs s,
          get-remove_outputs k (txid c tx) 0 tx.outputs n,
          h,
        ))

  -- Undoing transactions reads an outpoint's entry at that outpoint only.
  pub get-undo_transactions :
      (k : OutPoint) (txs : List Transaction) (us : List TxUndoData) (s n : UtxoSet)
      → get k s.utxos ≡ get k n.utxos
      → get k (undo_transactions c txs us s).utxos ≡ get k (undo_transactions c txs us n).utxos
  unfolding undo_transactions
  get-undo_transactions k [] us s n h = h
  get-undo_transactions k (tx ∷ txs) [] s n h = h
  get-undo_transactions k (tx ∷ txs) (u ∷ us) s n h =
      get-undo_transaction k tx u (undo_transactions c txs us s) (undo_transactions c txs us n)
        (get-undo_transactions k txs us s n h)

  pub burned-undo_transactions :
      (txs : List Transaction) (us : List TxUndoData) (s n : UtxoSet)
      → s.total_burned ≡ n.total_burned
      → (undo_transactions c txs us s).total_burned ≡ (undo_transactions c txs us n).total_burned
  unfolding undo_transactions undo_transaction
  burned-undo_transactions [] us s n h = h
  burned-undo_transactions (tx ∷ txs) [] s n h = h
  burned-undo_transactions (tx ∷ txs) (u ∷ us) s n h = ground (
    arith,
    burned-undo_transactions txs us s n h,
    total_burned-remove_outputs (txid c tx) 0 tx.outputs (undo_transactions c txs us s),
    total_burned-remove_outputs (txid c tx) 0 tx.outputs (undo_transactions c txs us n),
  )
