-- ===== src/Core/Mempool/Claims.antt =====
-- mempool.rs: claiming and releasing the outpoints of a transaction's inputs.
use zentra_chain.Prelude.{
  ◌≡◌, refl, Bool, true, false, not, ◌&&◌, none, some, List, [], ◌∷◌, any, if◌then◌else◌, arith,
}
use zentra_chain.Prelude.Map.{Map, get, insert, remove, contains_key}
use zentra_chain.Prelude.Map.Laws.{get-insert, get-remove}
use zentra_chain.Types.{Hash}
use zentra_chain.Core.Data.{
  TxInput, Transaction, OutPoint, out_point_eq, out_point_eq_iff, out_point_key, spends,
}
use zentra_chain.Core.Tx.{is_coinbase}
use zentra_chain.Core.Mempool.{claim_inputs, release_inputs}

abbrev pub spent_by : OutPoint → List TxInput → Bool
spent_by op is = any (λ i. out_point_eq (spends i) op) is

-- The transaction spends the outpoint, and is no coinbase.
abbrev pub claims : Transaction → OutPoint → Bool
claims tx op = not (is_coinbase tx) && spent_by op tx.inputs

pub get-claim_inputs :
    (op : OutPoint) (t : Hash) (is : List TxInput) (m : Map OutPoint Hash)
    → get op (claim_inputs is t m) ≡ (if spent_by op is then some t else get op m)
unfolding claim_inputs
get-claim_inputs op t [] m = refl
get-claim_inputs op t (i ∷ is) m =
    ground (arith, get-claim_inputs op t is (insert (spends i) t m), get-insert (spends i) op t m)

pub get-release_inputs :
    (op : OutPoint) (is : List TxInput) (m : Map OutPoint Hash)
    → get op (release_inputs is m) ≡ (if spent_by op is then none else get op m)
unfolding release_inputs
get-release_inputs op [] m = refl
get-release_inputs op (i ∷ is) m =
    ground (arith, get-release_inputs op is (remove (spends i) m), get-remove (spends i) op m)

-- None of the inputs is claimed, so no outpoint that they spend is.
pub unclaimed :
    (op : OutPoint) (is : List TxInput) (m : Map OutPoint Hash)
    → any (λ i. contains_key (spends i) m) is ≡ false
    → spent_by op is ≡ true
    → get op m ≡ none
unclaimed op [] m h s = cc
unclaimed op (i ∷ is) m h s = ground (arith, unclaimed op is m, out_point_eq_iff (spends i) op)
