-- ===== src/Core/Utxo/Value.antt =====
-- The value in the set: what its entries are worth in total, and what spending and adding do to it.
use zentra_chain.Prelude.{
  ℕ, suc, ◌+◌, ◌≤◌, ◌≡◌, Bool, List, [], ◌∷◌, ok, arith, sum_by, if◌then◌else◌, Bool-cases, inl,
  inr,
}
use zentra_chain.Prelude.Words
use zentra_chain.Prelude.Words.{u64_max, saturating_add-le, saturating_add_exact}
use zentra_chain.Prelude.Map.{insert, remove}
use zentra_chain.Prelude.Map.Laws.{total, total-remove-get_le, total-insert_le}
use zentra_chain.Types.{Hash}
use zentra_chain.Core.Data.{TxInput, TxOutput, standard, burn, out_point_key, spends}
use zentra_chain.Core.Utxo.{
  UtxoEntry, Utxos, UtxoSet, spend_inputs, add_outputs, out_point, fold_balance,
}
use zentra_chain.Core.Utxo.Spending.{spend-Spent}
use zentra_chain.Core.Utxo.Outputs.{pays}

-- The sum of all amounts in the set.
abbrev pub value : Utxos → ℕ
value m = total (λ e. e.amount) m

abbrev pub worth : List UtxoEntry → ℕ
worth es = sum_by (λ e. e.amount) es

-- What was spent has left the set.
pub value-spend_le :
    (is : List TxInput) (es : List UtxoEntry) (m m' : Utxos)
    → spend_inputs is m ≡ (ok es, m')
    → value m' + worth es ≤ value m
unfolding spend_inputs
value-spend_le [] es m m' h = ground arith
value-spend_le (i ∷ is) es m m' h =
    let s = spend-Spent i is es m m' h in
    rw s.split (
      omega (
        arith,
        value-spend_le is s.rest (remove (spends i) m) m' s.later,
        total-remove-get_le (λ (e : UtxoEntry). e.amount) (spends i) s.entry m s.found,
      ))

-- Adding outputs raises the value by no more than the standard outputs pay.
pub value-add_outputs_le :
    (t : Hash) (height : ℕ) (cb : Bool) (idx : ℕ) (os : List TxOutput) (s : UtxoSet)
    → value (add_outputs t height cb idx os s).utxos ≤ value s.utxos + pays os
unfolding add_outputs
value-add_outputs_le t height cb idx [] s = omega arith
value-add_outputs_le t height cb idx (standard a v script ∷ os) s =
    let e : UtxoEntry = record {
      amount = v;
      address = a;
      block_height = height;
      is_coinbase = cb;
    } in
    omega (
      arith,
      value-add_outputs_le t height cb (suc idx) os
          (record s { utxos = insert (out_point t idx) e s.utxos }),
      total-insert_le (λ (x : UtxoEntry). x.amount) (out_point t idx) e s.utxos,
    )
value-add_outputs_le t height cb idx (burn v b ∷ os) s =
    value-add_outputs_le t height cb (suc idx) os
      (record s { total_burned = Words.saturating_add u64_max s.total_burned v })

-- The amounts of the entries that pass a test.
abbrev pub held : (UtxoEntry → Bool) → Utxos → ℕ
held p m = total (λ e. if p e then e.amount else 0) m

pub fold_balance-held :
    (p : UtxoEntry → Bool) (acc : ℕ) (m : Utxos)
    → acc + held p m ≤ u64_max
    → fold_balance p acc m ≡ acc + held p m
unfolding fold_balance
fold_balance-held p acc [] h = omega arith
fold_balance-held p acc ((o, e) ∷ m) h = elim (Bool-cases (p e)) [
  | inl passes ↦
      let h' = rw passes at h in
      let exact = saturating_add_exact u64_max acc e.amount (omega arith) in
      rw (passes, exact) (omega (arith, fold_balance-held p (acc + e.amount) m (omega arith)))
  | inr fails ↦
      let h' = rw fails at h in rw fails (omega (arith, fold_balance-held p acc m (omega arith)))
]
