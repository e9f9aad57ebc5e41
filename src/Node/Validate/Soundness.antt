-- ===== src/Node/Validate/Soundness.antt =====
-- node.rs and utxo.rs: a transaction that the validator accepts, against applying it.
use zentra_chain.Prelude.{
  ℕ, ◌+◌, ◌-◌, ◌≤◌, ◌≡◌, true, false, not, List, [], ◌∷◌, ok, >>=-eq-ok, fail_if-ok, is_ok, ltb,
  if◌then◌else◌, arith, Bool-cases, inl, inr,
}
use zentra_chain.Prelude.Words
use zentra_chain.Prelude.Words.{u64_max, saturating_add-le, saturating_add_exact}
use zentra_chain.Types.{NetworkType}
use zentra_chain.Core.Data.{TxOutput, standard, burn, Transaction, out_point_key, Crypto}
use zentra_chain.Core.Tx.{amount, is_coinbase, txid, fold_amounts, verify_signatures}
use zentra_chain.Core.Utxo.{Utxos, UtxoSet, TxUndoData, add_outputs, apply_transaction}
use zentra_chain.Core.Utxo.Outputs.{burns, pays}
use zentra_chain.Core.Utxo.Undo.{IsFresh}
use zentra_chain.Core.Utxo.Value.{value, value-spend_le, value-add_outputs_le}
use zentra_chain.Node.Validate.{
  BlockError, Progress, Spends, check_position, check_inputs, check_spending, check_tx,
  record_outputs,
}
use zentra_chain.Node.Validate.Simulation.{Agrees, Agrees-outputs}
use zentra_chain.Node.Validate.Inputs.{Spendable, check_inputs-Spendable}

-- The true sum of a transaction's outputs, where the code's sum saturates.
abbrev pub outputs_sum : Transaction → ℕ
outputs_sum tx = pays tx.outputs + burns tx.outputs

pub fold_amounts_exact :
    (acc : ℕ) (os : List TxOutput)
    → acc + (pays os + burns os) ≤ u64_max
    → fold_amounts acc os ≡ acc + (pays os + burns os)
unfolding fold_amounts amount
fold_amounts_exact acc [] h = omega arith
fold_amounts_exact acc (standard a v script ∷ os) h =
    rw (saturating_add_exact u64_max acc v (omega arith))
      (omega (arith, fold_amounts_exact (acc + v) os (omega arith)))
fold_amounts_exact acc (burn v b ∷ os) h =
    rw (saturating_add_exact u64_max acc v (omega arith))
      (omega (arith, fold_amounts_exact (acc + v) os (omega arith)))

module _ (c : Crypto) (network : NetworkType) (height : ℕ) (utxo : Utxos) where
  -- What accepting one transaction guarantees of applying it.
  pub record Sound (tx : Transaction) (p q : Progress) (s : UtxoSet) : Type 0 where
    pub undo : TxUndoData
    pub after : UtxoSet
    pub applied : apply_transaction c tx height s ≡ (ok undo, after)
    pub agrees : Agrees utxo q.spent q.created after.utxos
    pub balanced :
        value after.utxos + burns tx.outputs + q.total_fees
        ≤ value s.utxos + p.total_fees + (if is_coinbase tx then outputs_sum tx else 0)

  Sound-coinbase :
      (tx : Transaction) (p : Progress) (s : UtxoSet)
      → is_coinbase tx ≡ true
      → IsFresh c tx utxo
      → Agrees utxo p.spent p.created s.utxos
      → Sound tx p (record p { created = record_outputs (txid c tx) 0 tx.outputs p.created }) s
  unfolding apply_transaction
  Sound-coinbase tx p s cb fresh agrees = record {
    undo = record { inputs_undo = [] };
    after = add_outputs (txid c tx) height true 0 tx.outputs s;
    applied = ground arith;
    agrees =
        Agrees-outputs utxo p.spent p.created (txid c tx) height true 0 tx.outputs s fresh agrees;
    balanced = rw cb (omega (arith, value-add_outputs_le (txid c tx) height true 0 tx.outputs s));
  }

  Sound-spending :
      (tx : Transaction) (p : Progress) (s : UtxoSet) (r : ℕ × Spends)
      → is_coinbase tx ≡ false
      → IsFresh c tx utxo
      → outputs_sum tx ≤ u64_max
      → Spendable c network height utxo p.created tx.inputs r 0 s.utxos
      → fold_amounts 0 tx.outputs ≤ r.0
      → Sound tx p
          (record {
            spent = r.1;
            created = record_outputs (txid c tx) 0 tx.outputs p.created;
            total_fees =
                Words.saturating_add u64_max p.total_fees (r.0 - fold_amounts 0 tx.outputs);
          })
          s
  unfolding apply_transaction
  Sound-spending tx p s r plain fresh fits sp covered =
      let mid : UtxoSet = record s { utxos = sp.left } in
      record {
        undo = record { inputs_undo = sp.entries };
        after = add_outputs (txid c tx) height false 0 tx.outputs mid;
        applied = ground (arith, sp.spent);
        agrees =
            Agrees-outputs utxo r.1 p.created (txid c tx) height false 0 tx.outputs mid fresh
              sp.agrees;
        balanced = rw plain (
            omega (
              arith,
              value-add_outputs_le (txid c tx) height false 0 tx.outputs mid,
              value-spend_le tx.inputs sp.entries s.utxos sp.left sp.spent,
              sp.counted,
              fold_amounts_exact 0 tx.outputs (omega arith),
              saturating_add-le u64_max p.total_fees (r.0 - fold_amounts 0 tx.outputs),
            ));
      }

  check_spending-Sound :
      (tx : Transaction) (p q : Progress) (s : UtxoSet)
      → is_coinbase tx ≡ false
      → IsFresh c tx utxo
      → outputs_sum tx ≤ u64_max
      → check_spending c network height utxo tx p ≡ ok q
      → Agrees utxo p.spent p.created s.utxos
      → Sound tx p (record q { created = record_outputs (txid c tx) 0 tx.outputs q.created }) s
  unfolding check_spending
  check_spending-Sound tx p q s plain fresh fits h agrees =
      let (signed, h') =
        fail_if-ok (not (is_ok (verify_signatures c tx))) BlockError.bad_signature _ h in
      let (r, checked, h'') =
        >>=-eq-ok (check_inputs c network height utxo p.created tx.inputs p.spent 0) _ h' in
      let (covered, done) =
        fail_if-ok (ltb r.0 (fold_amounts 0 tx.outputs)) BlockError.outputs_exceed_inputs _ h'' in
      let same : q ≡ record p {
        spent = r.1;
        total_fees = Words.saturating_add u64_max p.total_fees (r.0 - fold_amounts 0 tx.outputs);
      } =
        cc done in
      rw same (
        Sound-spending tx p s r plain fresh fits
          (check_inputs-Spendable c network height utxo p.created tx.inputs p.spent 0 s.utxos r
            checked agrees)
          (ground (arith, covered)))

  -- A transaction that the validator accepts is applied, and hands on no more than it took in.
  pub check_tx-Sound :
      (i : ℕ) (tx : Transaction) (p q : Progress) (s : UtxoSet)
      → IsFresh c tx utxo
      → outputs_sum tx ≤ u64_max
      → check_tx c network height utxo i tx p ≡ ok q
      → Agrees utxo p.spent p.created s.utxos
      → Sound tx p q s
  unfolding check_tx
  check_tx-Sound i tx p q s fresh fits h agrees =
      let (placed, at_place, h') = >>=-eq-ok (check_position i (is_coinbase tx)) _ h in
      let (mid, ran, done) =
        >>=-eq-ok (if is_coinbase tx then ok p else check_spending c network height utxo tx p) _
          h' in
      let same : q ≡ record mid { created = record_outputs (txid c tx) 0 tx.outputs mid.created } =
        cc done in
      elim (Bool-cases (is_coinbase tx)) [
        | inl cb ↦
            let kept : mid ≡ p = cc (rw cb at ran) in
            rw (same, kept) (Sound-coinbase tx p s cb fresh agrees)
        | inr plain ↦
            rw same (check_spending-Sound tx p mid s plain fresh fits (rw plain at ran) agrees)
      ]
