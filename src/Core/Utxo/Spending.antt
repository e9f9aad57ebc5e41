-- ===== src/Core/Utxo/Spending.antt =====
-- Spending the inputs of a transaction and restoring them.
use zentra_chain.Prelude.{
  ◌≡◌, refl, ◌∙◌, none, some, List, [], ◌∷◌, ok, err, Bool-cases, Option-cases, inl, inr, arith,
  ZentraResult,
}
use zentra_chain.Prelude.Map.{get, insert, remove}
use zentra_chain.Prelude.Map.Laws.{get-insert, get-remove}
use zentra_chain.Core.Data.{
  TxInput, OutPoint, out_point_eq, out_point_eq_iff, out_point_key, spends,
}
use zentra_chain.Core.Utxo.{UtxoEntry, Utxos, spend_inputs, restore_inputs, prepend}

-- Restoring looks at the map only at the key that is asked for.
pub get-restore_ext :
    (k : OutPoint) (is : List TxInput) (es : List UtxoEntry) (m n : Utxos)
    → get k m ≡ get k n
    → get k (restore_inputs is es m) ≡ get k (restore_inputs is es n)
unfolding restore_inputs
get-restore_ext k [] es m n h = h
get-restore_ext k (i ∷ is) [] m n h = h
get-restore_ext k (i ∷ is) (e ∷ es) m n h =
    get-restore_ext k is es (insert (spends i) e m) (insert (spends i) e n)
      (ground (arith, get-insert (spends i) k e m, get-insert (spends i) k e n))

-- What a successful run over at least one input did.
pub record Spent (i : TxInput) (is : List TxInput) (es : List UtxoEntry) (m m' : Utxos)
    : Type 0 where
  pub entry : UtxoEntry
  pub rest : List UtxoEntry
  pub found : get (spends i) m ≡ some entry
  pub split : es ≡ entry ∷ rest
  pub later : spend_inputs is (remove (spends i) m) ≡ (ok rest, m')

spend_rest :
    (i : TxInput) (is : List TxInput) (es : List UtxoEntry) (m m' : Utxos) (e : UtxoEntry)
    (r : ZentraResult (List UtxoEntry)) (n : Utxos)
    → get (spends i) m ≡ some e
    → spend_inputs is (remove (spends i) m) ≡ (r, n)
    → ◌≡◌ {A = ZentraResult (List UtxoEntry) × Utxos} (prepend e r, n) (ok es, m')
    → Spent i is es m m'
spend_rest i is es m m' e (ok rest) n found later h = record {
  entry = e;
  rest = rest;
  found = found;
  split = cc;
  later = cc;
}
spend_rest i is es m m' e (err x) n found later h = absurd (cc)

pub spend-Spent :
    (i : TxInput) (is : List TxInput) (es : List UtxoEntry) (m m' : Utxos)
    → spend_inputs (i ∷ is) m ≡ (ok es, m')
    → Spent i is es m m'
unfolding spend_inputs
spend-Spent i is es m m' h = elim (Option-cases (get (spends i) m)) [
  | inl e ↦ absurd (ground arith)
  | inr (v, e) ↦
      spend_rest i is es m m' v (spend_inputs is (remove (spends i) m)).0
        (spend_inputs is (remove (spends i) m)).1 e refl (rw (e, spend_inputs) at h)
]

-- An output that is not in the set is none of those that were spent.
pub get-restore_absent :
    (k : OutPoint) (is : List TxInput) (es : List UtxoEntry) (m m' n : Utxos)
    → spend_inputs is m ≡ (ok es, m')
    → get k m ≡ none
    → get k (restore_inputs is es n) ≡ get k n
unfolding restore_inputs
get-restore_absent k [] es m m' n h a = refl
get-restore_absent k (i ∷ is) [] m m' n h a = refl
get-restore_absent k (i ∷ is) (e ∷ es) m m' n h a =
    let s = spend-Spent i is (e ∷ es) m m' h in
    let later : spend_inputs is (remove (spends i) m) ≡ (ok es, m') = cc (s.later, s.split) in
    let gone : get k (remove (spends i) m) ≡ none = ground (arith, get-remove (spends i) k m) in
    get-restore_absent k is es (remove (spends i) m) m' (insert (spends i) e n) later gone
    ∙ ground (arith, s.found, get-insert (spends i) k e n, out_point_eq_iff (spends i) k)

-- Spending and then restoring gives every lookup back.
pub get-restore_spend :
    (k : OutPoint) (is : List TxInput) (es : List UtxoEntry) (m m' : Utxos)
    → spend_inputs is m ≡ (ok es, m')
    → get k (restore_inputs is es m') ≡ get k m
unfolding restore_inputs spend_inputs
get-restore_spend k [] es m m' h = cc
get-restore_spend k (i ∷ is) [] m m' h = absurd (let s = spend-Spent i is [] m m' h in cc s.split)
get-restore_spend k (i ∷ is) (e ∷ es) m m' h =
    let s = spend-Spent i is (e ∷ es) m m' h in
    let later : spend_inputs is (remove (spends i) m) ≡ (ok es, m') = cc (s.later, s.split) in
    let found : get (spends i) m ≡ some e = cc (s.found, s.split) in
    elim (Bool-cases (out_point_eq (spends i) k)) [
      | inl same ↦
          get-restore_absent k is es (remove (spends i) m) m' (insert (spends i) e m') later
            (ground (arith, get-remove (spends i) k m))
          ∙ ground (arith, get-insert (spends i) k e m', (out_point_eq_iff (spends i) k).0 same)
      | inr other ↦
          get-restore_ext k is es (insert (spends i) e m') m'
            (ground (arith, get-insert (spends i) k e m'))
          ∙ get-restore_spend k is es (remove (spends i) m) m' later
          ∙ ground (arith, get-remove (spends i) k m)
    ]
