-- ===== src/Core/Utxo/Outputs.antt =====
-- The outputs of a transaction entering the set and leaving it.
use zentra_chain.Prelude.{
  ℕ, suc, ◌+◌, ◌-◌, ◌≤◌, ◌≡◌, refl, ◌∙◌, Bool, true, false, none, List, [], ◌∷◌, ◌||◌, arith,
  if◌then◌else◌,
}
use zentra_chain.Prelude.Words
use zentra_chain.Prelude.Words.{u64_max}
use zentra_chain.Prelude.Map.{get, insert, remove}
use zentra_chain.Prelude.Map.Laws.{get-insert, get-remove}
use zentra_chain.Types.{Hash}
use zentra_chain.Core.Data.{
  TxOutput, standard, burn, OutPoint, out_point_eq, out_point_eq_iff, out_point_key,
}
use zentra_chain.Core.Utxo.{UtxoEntry, UtxoSet, add_outputs, remove_outputs, out_point}

-- Whether an outpoint names one of the standard outputs.
abbrev pub creates : OutPoint → Hash → ℕ → List TxOutput → Bool
creates k t idx [] = false
creates k t idx (standard a v script ∷ os) =
    out_point_eq (out_point t idx) k || creates k t (suc idx) os
creates k t idx (burn v b ∷ os) = creates k t (suc idx) os

-- What the outputs burn and what they hand on.
abbrev pub burns : List TxOutput → ℕ
burns [] = 0
burns (standard a v script ∷ os) = burns os
burns (burn v b ∷ os) = v + burns os

abbrev pub pays : List TxOutput → ℕ
pays [] = 0
pays (standard a v script ∷ os) = v + pays os
pays (burn v b ∷ os) = pays os

pub creates_hash :
    (k : OutPoint) (t : Hash) (idx : ℕ) (os : List TxOutput)
    → creates k t idx os ≡ true
    → k.tx_hash ≡ t
creates_hash k t idx [] h = absurd (ground arith)
creates_hash k t idx (standard a v script ∷ os) h =
    ground (arith, creates_hash k t (suc idx) os, out_point_eq_iff (out_point t idx) k)
creates_hash k t idx (burn v b ∷ os) h = creates_hash k t (suc idx) os h

pub get-remove_outputs :
    (k : OutPoint) (t : Hash) (idx : ℕ) (os : List TxOutput) (s : UtxoSet)
    → get k (remove_outputs t idx os s).utxos ≡ (if creates k t idx os then none else get k s.utxos)
unfolding remove_outputs
get-remove_outputs k t idx [] s = refl
get-remove_outputs k t idx (standard a v script ∷ os) s = ground (
  arith,
  get-remove_outputs k t (suc idx) os (record s { utxos = remove (out_point t idx) s.utxos }),
  get-remove (out_point t idx) k s.utxos,
)
get-remove_outputs k t idx (burn v b ∷ os) s =
    get-remove_outputs k t (suc idx) os (record s { total_burned = s.total_burned - v })

pub get-add_outputs :
    (k : OutPoint) (t : Hash) (height : ℕ) (cb : Bool) (idx : ℕ) (os : List TxOutput) (s : UtxoSet)
    → creates k t idx os ≡ false
    → get k (add_outputs t height cb idx os s).utxos ≡ get k s.utxos
unfolding add_outputs
get-add_outputs k t height cb idx [] s h = refl
get-add_outputs k t height cb idx (standard a v script ∷ os) s h =
    let e : UtxoEntry = record {
      amount = v;
      address = a;
      block_height = height;
      is_coinbase = cb;
    } in
    get-add_outputs k t height cb (suc idx) os
      (record s { utxos = insert (out_point t idx) e s.utxos }) (ground arith)
    ∙ ground (arith, get-insert (out_point t idx) k e s.utxos)
get-add_outputs k t height cb idx (burn v b ∷ os) s h =
    get-add_outputs k t height cb (suc idx) os
      (record s { total_burned = Words.saturating_add u64_max s.total_burned v }) h

pub total_burned-remove_outputs :
    (t : Hash) (idx : ℕ) (os : List TxOutput) (s : UtxoSet)
    → (remove_outputs t idx os s).total_burned ≡ s.total_burned - burns os
unfolding remove_outputs
total_burned-remove_outputs t idx [] s = omega arith
total_burned-remove_outputs t idx (standard a v script ∷ os) s =
    total_burned-remove_outputs t (suc idx) os
      (record s { utxos = remove (out_point t idx) s.utxos })
total_burned-remove_outputs t idx (burn v b ∷ os) s = omega (
  arith,
  total_burned-remove_outputs t (suc idx) os (record s { total_burned = s.total_burned - v }),
)

-- Without saturation the counter grows by what the outputs burn.
pub total_burned-add_outputs :
    (t : Hash) (height : ℕ) (cb : Bool) (idx : ℕ) (os : List TxOutput) (s : UtxoSet)
    → s.total_burned + burns os ≤ u64_max
    → (add_outputs t height cb idx os s).total_burned ≡ s.total_burned + burns os
unfolding add_outputs
total_burned-add_outputs t height cb idx [] s h = omega arith
total_burned-add_outputs t height cb idx (standard a v script ∷ os) s h =
    total_burned-add_outputs t height cb (suc idx) os
      (record s {
        utxos =
            insert (out_point t idx)
              (record { amount = v; address = a; block_height = height; is_coinbase = cb }) s.utxos;
      })
      h
total_burned-add_outputs t height cb idx (burn v b ∷ os) s h =
    let exact = Words.saturating_add_exact u64_max s.total_burned v (omega arith) in
    let next = Words.saturating_add u64_max s.total_burned v in
    omega (
      arith,
      exact,
      total_burned-add_outputs t height cb (suc idx) os (record s { total_burned = next })
          (omega (arith, exact)),
    )
