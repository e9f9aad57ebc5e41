-- ===== src/Node/Validate/Inputs.antt =====
-- node.rs: the inputs that the validator accepts, against spending them.
use zentra_chain.Prelude.{
  ℕ, ◌+◌, ◌≤◌, ◌≡◌, refl, true, false, List, [], ◌∷◌, ok, >>=-eq-ok, fail_if-ok, arith, not,
}
use zentra_chain.Prelude.Words
use zentra_chain.Prelude.Words.{u64_max, saturating_add-le}
use zentra_chain.Prelude.Map.{insert, remove, contains_key}
use zentra_chain.Types.{Address, address_eq, NetworkType}
use zentra_chain.Core.Data.{TxInput, out_point_key, spends, Crypto}
use zentra_chain.Core.Tx.{from_public_key}
use zentra_chain.Core.Utxo.{UtxoEntry, Utxos, spend_inputs}
use zentra_chain.Core.Utxo.Value.{worth}
use zentra_chain.Node.Validate.{BlockError, Spends, Created, find_value, check_inputs}
use zentra_chain.Node.Validate.Simulation.{Agrees, Agrees-spend, offered-find_value}

module _ (c : Crypto) (network : NetworkType) (height : ℕ) (utxo : Utxos) (created : Created) where
  -- What an accepted input passed.
  record Accepted (i : TxInput) (is : List TxInput) (spent : Spends) (sum : ℕ) (r : ℕ × Spends)
      : Type 0 where
    found : ℕ × Address
    unspent : contains_key (spends i) spent ≡ false
    value_found : find_value (spends i) utxo created height ≡ ok found
    owned : address_eq (from_public_key c i.public_key network) found.1 ≡ true
    rest :
        check_inputs c network height utxo created is
          (insert (spends i) tt spent)
          (Words.saturating_add u64_max sum found.0)
        ≡ ok r

  check-Accepted :
      (i : TxInput) (is : List TxInput) (spent : Spends) (sum : ℕ) (r : ℕ × Spends)
      → check_inputs c network height utxo created (i ∷ is) spent sum ≡ ok r
      → Accepted i is spent sum r
  unfolding check_inputs
  check-Accepted i is spent sum r h =
      let (unspent, h') =
        fail_if-ok (contains_key (spends i) spent) BlockError.double_spend_in_block _ h in
      let (va, found, h'') = >>=-eq-ok (find_value (spends i) utxo created height) _ h' in
      let (owner, rest) =
        fail_if-ok (not (address_eq (from_public_key c i.public_key network) va.1))
          BlockError.not_owned _ h'' in
      record {
        found = va;
        unspent = unspent;
        value_found = found;
        owned = ground arith;
        rest = rest;
      }

  -- A run of `spend_inputs` that goes with a run of the validator.
  pub record Spendable (is : List TxInput) (r : ℕ × Spends) (sum : ℕ) (m : Utxos) : Type 0 where
    pub entries : List UtxoEntry
    pub left : Utxos
    pub spent : spend_inputs is m ≡ (ok entries, left)
    pub agrees : Agrees utxo r.1 created left
    pub counted : r.0 ≤ sum + worth entries

  pub check_inputs-Spendable :
      (is : List TxInput) (spent : Spends) (sum : ℕ) (m : Utxos) (r : ℕ × Spends)
      → check_inputs c network height utxo created is spent sum ≡ ok r
      → Agrees utxo spent created m
      → Spendable is r sum m
  unfolding check_inputs spend_inputs
  check_inputs-Spendable [] spent sum m r h agrees =
      let e : r ≡ (sum, spent) = cc in
      record {
        entries = [];
        left = m;
        spent = refl;
        agrees = rw e agrees;
        counted = rw e (omega arith);
      }
  check_inputs-Spendable (i ∷ is) spent sum m r h agrees =
      let a = check-Accepted i is spent sum r h in
      let (e, found, worth_it) =
        agrees (spends i) a.found.0 a.unspent
          (offered-find_value (spends i) utxo created height a.found a.value_found) in
      let s =
        check_inputs-Spendable is (insert (spends i) tt spent)
          (Words.saturating_add u64_max sum a.found.0) (remove (spends i) m) r a.rest
          (Agrees-spend utxo spent created m (spends i) agrees) in
      record {
        entries = e ∷ s.entries;
        left = s.left;
        spent = rw (found, spend_inputs, s.spent);
        agrees = s.agrees;
        counted = omega (arith, s.counted, worth_it, saturating_add-le u64_max sum a.found.0);
      }
