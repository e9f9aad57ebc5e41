-- ===== src/Core/Utxo/Rollback.antt =====
-- utxo.rs: `disconnect_block` after `apply_block`.
use zentra_chain.Prelude.{
  ℕ, ◌+◌, ◌≤◌, ◌≡◌, ◌≢◌, refl, sym, ap, ◌∙◌, none, List, [], ◌∷◌, arith, ok, err, All, Bool-cases,
  inl, inr, ZentraResult, length,
}
use zentra_chain.Prelude.Words.{u64_max}
use zentra_chain.Prelude.Map.{get}
use zentra_chain.Core.Data.{Transaction, OutPoint, out_point_key, Crypto, Block}
use zentra_chain.Core.Tx.{is_coinbase, txid}
use zentra_chain.Core.Utxo.{
  UtxoSet, TxUndoData, BlockUndoData, prepend, apply_transaction, apply_transactions, apply_block,
  undo_transaction, undo_transactions, disconnect_block, remove_all,
}
use zentra_chain.Core.Utxo.Spending.{get-restore_spend}
use zentra_chain.Core.Utxo.Outputs.{
  creates, creates_hash, burns, get-add_outputs, total_burned-add_outputs,
}
use zentra_chain.Core.Utxo.Undo.{
  SameSet, SameSet-trans, get-spend_absent, IsFresh, AllFresh, burned_by, undo_transaction-SameSet,
  undo-apply_parts,
}
use zentra_chain.Core.Utxo.Applying.{Applied, apply-Applied, restore_nothing}

-- What a successful run over at least one transaction did.
pub record Stepped (c : Crypto) (tx : Transaction) (txs : List Transaction) (height : ℕ)
    (us : List TxUndoData) (s s' : UtxoSet) : Type 0 where
  pub undo : TxUndoData
  pub rest : List TxUndoData
  pub mid : UtxoSet
  pub first : apply_transaction c tx height s ≡ (ok undo, mid)
  pub later : apply_transactions c txs height mid ≡ (ok rest, s')
  pub split : us ≡ undo ∷ rest

module _ (c : Crypto) where
  Stepped-rest :
      (tx : Transaction) (txs : List Transaction) (height : ℕ) (us : List TxUndoData)
      (s s' mid n : UtxoSet) (u : TxUndoData) (r : ZentraResult (List TxUndoData))
      → apply_transaction c tx height s ≡ (ok u, mid)
      → apply_transactions c txs height mid ≡ (r, n)
      → ◌≡◌ {A = ZentraResult (List TxUndoData) × UtxoSet} (prepend u r, n) (ok us, s')
      → Stepped c tx txs height us s s'
  Stepped-rest tx txs height us s s' mid n u (ok rest) first later h = record {
    undo = u;
    rest = rest;
    mid = mid;
    first = first;
    later = cc;
    split = cc;
  }
  Stepped-rest tx txs height us s s' mid n u (err x) first later h = absurd (cc)

  Stepped-first :
      (tx : Transaction) (txs : List Transaction) (height : ℕ) (us : List TxUndoData)
      (s s' : UtxoSet) (r : ZentraResult TxUndoData)
      → (apply_transaction c tx height s).0 ≡ r
      → apply_transactions c (tx ∷ txs) height s ≡ (ok us, s')
      → Stepped c tx txs height us s s'
  unfolding apply_transactions
  Stepped-first tx txs height us s s' (ok u) first h =
      let mid = (apply_transaction c tx height s).1 in
      Stepped-rest tx txs height us s s' mid (apply_transactions c txs height mid).1 u
        (apply_transactions c txs height mid).0
        (ap (λ x. (x, (apply_transaction c tx height s).1)) first) refl
        (rw (first, apply_transactions) at h)
  Stepped-first tx txs height us s s' (err x) first h = absurd (ground arith)

  pub apply-Stepped :
      (tx : Transaction) (txs : List Transaction) (height : ℕ) (us : List TxUndoData)
      (s s' : UtxoSet)
      → apply_transactions c (tx ∷ txs) height s ≡ (ok us, s')
      → Stepped c tx txs height us s s'
  apply-Stepped tx txs height us s s' h =
      Stepped-first tx txs height us s s' (apply_transaction c tx height s).0 refl h

  undo-apply :
      (tx : Transaction) (height : ℕ) (u : TxUndoData) (s s' : UtxoSet)
      → Applied c tx height u s s'
      → IsFresh c tx s.utxos
      → s.total_burned + burns tx.outputs ≤ u64_max
      → SameSet (undo_transaction c tx u s') s
  undo-apply tx height u s s' a fresh fits = elim a.spent [
    | inl (cb, none_spent, same) ↦ rw a.added (
        undo-apply_parts c tx height (is_coinbase tx) u.inputs_undo a.kept s
          (λ k. rw (none_spent, same, restore_nothing)) (λ k e. rw same (fresh k e)) fits)
    | inr (plain, spent) ↦ rw a.added (
        undo-apply_parts c tx height (is_coinbase tx) u.inputs_undo a.kept s
          (λ k. get-restore_spend k tx.inputs u.inputs_undo s.utxos a.kept spent)
          (λ k e. get-spend_absent k tx.inputs u.inputs_undo s.utxos a.kept spent (fresh k e)) fits)
  ]

  -- A transaction adds no outpoint of another transaction id.
  get-apply_absent :
      (k : OutPoint) (tx : Transaction) (height : ℕ) (u : TxUndoData) (s s' : UtxoSet)
      → Applied c tx height u s s'
      → k.tx_hash ≢ txid c tx
      → get k s.utxos ≡ none
      → get k s'.utxos ≡ none
  get-apply_absent k tx height u s s' a other absent =
      elim (Bool-cases (creates k (txid c tx) 0 tx.outputs)) [
        | inl made ↦ absurd (other (creates_hash k (txid c tx) 0 tx.outputs made))
        | inr not_made ↦
            let gone : get k a.kept ≡ none = elim a.spent [
              | inl (cb, none_spent, same) ↦ rw same absent
              | inr (plain, spent) ↦
                  get-spend_absent k tx.inputs u.inputs_undo s.utxos a.kept spent absent
            ] in
            rw a.added (
              get-add_outputs k (txid c tx) height (is_coinbase tx) 0 tx.outputs
                (record s { utxos = a.kept }) not_made
              ∙ gone)
      ]

  AllFresh-apply :
      (txs : List Transaction) (tx : Transaction) (height : ℕ) (u : TxUndoData) (s s' : UtxoSet)
      → Applied c tx height u s s'
      → All (λ t. txid c t ≢ txid c tx) txs
      → AllFresh c txs s.utxos
      → AllFresh c txs s'.utxos
  AllFresh-apply [] tx height u s s' a others fresh = tt
  AllFresh-apply (t ∷ txs) tx height u s s' a others fresh = (
    λ k e. get-apply_absent k tx height u s s' a (λ same. others.0 (sym e ∙ same)) (fresh.0 k e),
    fresh.1,
    AllFresh-apply txs tx height u s s' a others.1 fresh.2,
  )

  total_burned-apply :
      (tx : Transaction) (height : ℕ) (u : TxUndoData) (s s' : UtxoSet)
      → Applied c tx height u s s'
      → s.total_burned + burns tx.outputs ≤ u64_max
      → s'.total_burned ≡ s.total_burned + burns tx.outputs
  total_burned-apply tx height u s s' a fits = rw a.added (
      total_burned-add_outputs (txid c tx) height (is_coinbase tx) 0 tx.outputs
        (record s { utxos = a.kept }) fits)

  pub length-apply :
      (txs : List Transaction) (height : ℕ) (us : List TxUndoData) (s s' : UtxoSet)
      → apply_transactions c txs height s ≡ (ok us, s')
      → length txs ≡ length us
  unfolding apply_transactions
  length-apply [] height us s s' h = ground arith
  length-apply (tx ∷ txs) height us s s' h =
      let st = apply-Stepped tx txs height us s s' h in
      ground (arith, length-apply txs height st.rest st.mid s' st.later, st.split)

  pub undo-apply_all :
      (txs : List Transaction) (height : ℕ) (us : List TxUndoData) (s s' : UtxoSet)
      → apply_transactions c txs height s ≡ (ok us, s')
      → AllFresh c txs s.utxos
      → s.total_burned + burned_by c txs ≤ u64_max
      → SameSet (undo_transactions c txs us s') s
  unfolding undo_transactions apply_transactions
  undo-apply_all [] height us s s' h fresh fits =
      let same : s' ≡ s = cc in
      record {
        same_utxos = λ k. ap (λ (n : UtxoSet). get k n.utxos) same;
        same_burned = ap (λ (n : UtxoSet). n.total_burned) same;
      }
  undo-apply_all (tx ∷ txs) height us s s' h fresh fits =
      let st = apply-Stepped tx txs height us s s' h in
      let a = apply-Applied c tx height st.undo s st.mid st.first in
      let grown = total_burned-apply tx height st.undo s st.mid a (omega arith) in
      let back =
        undo-apply_all txs height st.rest st.mid s' st.later
          (AllFresh-apply txs tx height st.undo s st.mid a fresh.1 fresh.2)
          (omega (arith, grown)) in
      rw st.split (
        SameSet-trans
          (undo_transaction-SameSet c tx st.undo (undo_transactions c txs st.rest s') st.mid back)
          (undo-apply tx height st.undo s st.mid a fresh.0 (omega arith)))

  pub blocks_undo :
      (b : Block) (height : ℕ) (undo : BlockUndoData) (s s' : UtxoSet)
      → apply_block c b height s ≡ (ok undo, s')
      → (apply_transactions c b.transactions height s ≡ (ok undo.txs_undo, s'))
        × (undo.merge_coinbases ≡ [])
  unfolding apply_block
  blocks_undo b height undo s s' h = ground arith

  -- A block that was applied can be disconnected, and this gives the entries and the burn counter back,
  -- if its transactions have pairwise different ids, the set held no entry of any index under one of
  -- these ids, and the counter and all the burns of the block together fit a u64.
  pub disconnect-apply :
      (b : Block) (height : ℕ) (undo : BlockUndoData) (s s' : UtxoSet)
      → apply_block c b height s ≡ (ok undo, s')
      → AllFresh c b.transactions s.utxos
      → s.total_burned + burned_by c b.transactions ≤ u64_max
      → (n : UtxoSet) × (disconnect_block c b undo s' ≡ (ok tt, n)) × SameSet n s
  unfolding disconnect_block remove_all
  disconnect-apply b height undo s s' h fresh fits =
      let (ran, none_merged) = blocks_undo b height undo s s' h in
      (
        undo_transactions c b.transactions undo.txs_undo s',
        ground (arith, length-apply b.transactions height undo.txs_undo s s' ran),
        undo-apply_all b.transactions height undo.txs_undo s s' ran fresh fits,
      )
