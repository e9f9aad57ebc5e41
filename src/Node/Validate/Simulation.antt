-- ===== src/Node/Validate/Simulation.antt =====
-- node.rs and utxo.rs: the validator's view of a block, the set before the block with what was spent and
-- created since, against the set that applying the block's transactions produces.
use zentra_chain.Prelude.{
  ℕ, suc, ◌≡◌, refl, ap, Bool, false, Option, none, some, List, [], ◌∷◌, ok, arith, Bool-cases,
  Option-cases, inl, inr,
}
use zentra_chain.Prelude.Words
use zentra_chain.Prelude.Words.{u64_max, saturating_add-le}
use zentra_chain.Prelude.Map.{get, insert, remove, contains_key}
use zentra_chain.Prelude.Map.Laws.{get-insert, get-remove}
use zentra_chain.Types.{Hash, Address}
use zentra_chain.Core.Data.{
  TxOutput, standard, burn, OutPoint, out_point_eq, out_point_eq_iff, out_point_key,
}
use zentra_chain.Core.Utxo.{UtxoEntry, Utxos, UtxoSet, out_point, add_outputs}
use zentra_chain.Node.Validate.{Spends, Created, find_value, record_outputs}

-- The value that the validator finds at an outpoint, its rules aside.
abbrev pub offered : OutPoint → Utxos → Created → Option ℕ
offered op utxo created = elim (get op utxo) [
  | some e ↦ some e.amount
  | none ↦ elim (get op created) [ some va ↦ some va.0 | none ↦ none ]
]

-- What is offered and not yet spent stands in the set, at the same value.
abbrev pub Agrees : Utxos → Spends → Created → Utxos → Type 0
Agrees utxo spent created m =
    (op : OutPoint) (v : ℕ)
    → contains_key op spent ≡ false
    → offered op utxo created ≡ some v
    → (e : UtxoEntry) × (get op m ≡ some e) × (e.amount ≡ v)

pub offered-find_value :
    (op : OutPoint) (utxo : Utxos) (created : Created) (height : ℕ) (v : ℕ × Address)
    → find_value op utxo created height ≡ ok v
    → offered op utxo created ≡ some v.0
unfolding find_value
offered-find_value op utxo created height v h = ground arith

-- Before the first transaction the view is the set itself.
pub Agrees-start : (m : Utxos) → Agrees m [] [] m
Agrees-start m op v unspent offer = elim (Option-cases (get op m)) [
  | inl gone ↦ absurd (ground (arith, gone))
  | inr (e, found) ↦ (e, found, ground (arith, found))
]

pub Agrees-spend :
    (utxo : Utxos) (spent : Spends) (created : Created) (m : Utxos) (o : OutPoint)
    → Agrees utxo spent created m
    → Agrees utxo (insert o tt spent) created (remove o m)
Agrees-spend utxo spent created m o agrees op v unspent offer =
    let (e, found, same) = agrees op v (ground (arith, get-insert o op tt spent)) offer in
    (e, ground (arith, found, get-insert o op tt spent, get-remove o op m), same)

Agrees-insert :
    (utxo : Utxos) (spent : Spends) (created : Created) (m : Utxos) (o : OutPoint) (a : Address)
    (e : UtxoEntry)
    → get o utxo ≡ none
    → Agrees utxo spent created m
    → Agrees utxo spent (insert o (e.amount, a) created) (insert o e m)
Agrees-insert utxo spent created m o a e fresh agrees op v unspent offer =
    elim (Bool-cases (out_point_eq o op)) [
      | inl same ↦ (
        e,
        ground (arith, get-insert o op e m),
        ground (
          arith,
          get-insert o op (e.amount, a) created,
          (out_point_eq_iff o op).0 same,
          ap (λ x. get x utxo) ((out_point_eq_iff o op).0 same),
        ),
      )
      | inr other ↦
          let (x, found, same) =
            agrees op v unspent (ground (arith, get-insert o op (e.amount, a) created)) in
          (x, ground (arith, found, get-insert o op e m), same)
    ]

-- Recording a transaction's outputs and adding them keeps the agreement.
pub Agrees-outputs :
    (utxo : Utxos) (spent : Spends) (created : Created) (t : Hash) (height : ℕ) (cb : Bool)
    (idx : ℕ) (os : List TxOutput) (s : UtxoSet)
    → ((op : OutPoint) → op.tx_hash ≡ t → get op utxo ≡ none)
    → Agrees utxo spent created s.utxos
    → Agrees utxo spent (record_outputs t idx os created) (add_outputs t height cb idx os s).utxos
unfolding record_outputs add_outputs
Agrees-outputs utxo spent created t height cb idx [] s fresh agrees = agrees
Agrees-outputs utxo spent created t height cb idx (standard a v script ∷ os) s fresh agrees =
    let e : UtxoEntry = record {
      amount = v;
      address = a;
      block_height = height;
      is_coinbase = cb;
    } in
    Agrees-outputs utxo spent (insert (out_point t idx) (v, a) created) t height cb (suc idx) os
      (record s { utxos = insert (out_point t idx) e s.utxos }) fresh
      (Agrees-insert utxo spent created s.utxos (out_point t idx) a e (fresh (out_point t idx) refl)
        agrees)
Agrees-outputs utxo spent created t height cb idx (burn v b ∷ os) s fresh agrees =
    Agrees-outputs utxo spent created t height cb (suc idx) os
      (record s { total_burned = Words.saturating_add u64_max s.total_burned v }) fresh agrees
