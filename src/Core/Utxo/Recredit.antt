-- ===== src/Core/Utxo/Recredit.antt =====
-- utxo.rs: crediting a merged coinbase more than once.
use zentra_chain.Prelude.{
  ℕ, suc, ◌≡◌, refl, Bool, true, false, not, Option, none, some, Option-cases, List, [], ◌∷◌, arith,
  inl, inr, if◌then◌else◌,
}
use zentra_chain.Prelude.Map.{get, insert, contains_key}
use zentra_chain.Prelude.Map.Laws.{get-insert}
use zentra_chain.Types.{Hash}
use zentra_chain.Core.Data.{
  TxOutput, standard, burn, Transaction, OutPoint, out_point_eq, out_point_eq_iff, out_point_key,
  Block, Crypto,
}
use zentra_chain.Core.Tx.{is_coinbase, txid}
use zentra_chain.Core.Utxo.{
  UtxoEntry, UtxoSet, Utxos, out_point, merge_outputs, merge_first, apply_merge_coinbase,
}
use zentra_chain.Core.Utxo.Merging.{listed}

-- The entry that a set holds, or else the given one.
abbrev pub held_or : Option UtxoEntry → Option UtxoEntry → Option UtxoEntry
held_or none e = e
held_or (some held) e = some held

-- Whether there is an entry to credit, and the set holds none.
abbrev creates : Option UtxoEntry → Option UtxoEntry → Bool
creates (some e) none = true
creates _ _ = false

-- The entry of an outpoint among the outputs from an index on.
abbrev entry_at : Hash → ℕ → ℕ → List TxOutput → OutPoint → Option UtxoEntry
entry_at t height idx [] k = none
entry_at t height idx (burn v b ∷ os) k = entry_at t height (suc idx) os k
entry_at t height idx (standard a v script ∷ os) k =
    let rest = entry_at t height (suc idx) os k in
    if out_point_eq (out_point t idx) k
    then some (record { amount = v; address = a; block_height = height; is_coinbase = true })
    else rest

-- At another height the entry differs in its height only.
entry_at_height :
    (t : Hash) (height later idx : ℕ) (os : List TxOutput) (k : OutPoint) (e : UtxoEntry)
    → entry_at t height idx os k ≡ some e
    → entry_at t later idx os k ≡ some (record e { block_height = later })
entry_at_height t height later idx [] k e h = cc
entry_at_height t height later idx (burn v b ∷ os) k e h =
    entry_at_height t height later (suc idx) os k e h
entry_at_height t height later idx (standard a v script ∷ os) k e h =
    ground (arith, h, entry_at_height t height later (suc idx) os k e)

module _ (c : Crypto) where
  get-merge_outputs :
      (t : Hash) (height idx : ℕ) (os : List TxOutput) (m : Utxos) (k : OutPoint)
      → get k (merge_outputs c t height idx os m).1 ≡ held_or (get k m) (entry_at t height idx os k)
  get-merge_outputs t height idx [] m k = ground arith
  get-merge_outputs t height idx (burn v b ∷ os) m k = get-merge_outputs t height (suc idx) os m k
  get-merge_outputs t height idx (standard a v script ∷ os) m k =
      let o = out_point t idx in
      let e : UtxoEntry = record {
        amount = v;
        address = a;
        block_height = height;
        is_coinbase = true;
      } in
      ground (
        arith,
        get-insert o k e m,
        out_point_eq_iff o k,
        get-merge_outputs t height (suc idx) os m k,
        get-merge_outputs t height (suc idx) os (insert o e m) k,
      )

  listed-merge_outputs :
      (t : Hash) (height idx : ℕ) (os : List TxOutput) (m : Utxos) (k : OutPoint)
      → listed k (merge_outputs c t height idx os m).0
        ≡ creates (entry_at t height idx os k) (get k m)
  listed-merge_outputs t height idx [] m k = refl
  listed-merge_outputs t height idx (burn v b ∷ os) m k =
      listed-merge_outputs t height (suc idx) os m k
  listed-merge_outputs t height idx (standard a v script ∷ os) m k =
      let o = out_point t idx in
      let e : UtxoEntry = record {
        amount = v;
        address = a;
        block_height = height;
        is_coinbase = true;
      } in
      ground (
        arith,
        get-insert o k e m,
        out_point_eq_iff o k,
        listed-merge_outputs t height (suc idx) os m k,
        listed-merge_outputs t height (suc idx) os (insert o e m) k,
      )

  -- The entry that crediting a block's first transaction gives to an outpoint.
  abbrev entry_of : List Transaction → ℕ → OutPoint → Option UtxoEntry
  entry_of [] height k = none
  entry_of (cb ∷ txs) height k =
      if is_coinbase cb then entry_at (txid c cb) height 0 cb.outputs k else none

  entry_of_height :
      (txs : List Transaction) (height later : ℕ) (k : OutPoint) (e : UtxoEntry)
      → entry_of txs height k ≡ some e
      → entry_of txs later k ≡ some (record e { block_height = later })
  entry_of_height [] height later k e h = cc
  entry_of_height (cb ∷ txs) height later k e h =
      ground (arith, h, entry_at_height (txid c cb) height later 0 cb.outputs k e)

  get-merge_first :
      (txs : List Transaction) (height : ℕ) (s : UtxoSet) (k : OutPoint)
      → get k (merge_first c txs height s).1.utxos ≡ held_or (get k s.utxos) (entry_of txs height k)
  get-merge_first [] height s k = ground arith
  get-merge_first (cb ∷ txs) height s k =
      ground (arith, get-merge_outputs (txid c cb) height 0 cb.outputs s.utxos k)

  listed-merge_first :
      (txs : List Transaction) (height : ℕ) (s : UtxoSet) (k : OutPoint)
      → listed k (merge_first c txs height s).0 ≡ creates (entry_of txs height k) (get k s.utxos)
  listed-merge_first [] height s k = refl
  listed-merge_first (cb ∷ txs) height s k =
      ground (arith, listed-merge_outputs (txid c cb) height 0 cb.outputs s.utxos k)

  -- Let crediting a merged block to a set create an outpoint, with some entry. Crediting the same block to
  -- any other set, at any height, such as after other blocks were applied, creates the outpoint exactly if
  -- that set does not hold it, so again if it was spent in between; the set then holds the outpoint with
  -- the entry it held before, or else with the created entry at the new height.
  pub apply_merge_coinbase-again :
      (b : Block) (height later : ℕ) (s n : UtxoSet) (k : OutPoint)
      (created : listed k (apply_merge_coinbase c b height s).0 ≡ true)
      → (e : UtxoEntry) × (get k (apply_merge_coinbase c b height s).1.utxos ≡ some e)
        × (listed k (apply_merge_coinbase c b later n).0 ≡ not (contains_key k n.utxos))
        × (get k (apply_merge_coinbase c b later n).1.utxos
            ≡ held_or (get k n.utxos) (some (record e { block_height = later })))
  unfolding apply_merge_coinbase
  apply_merge_coinbase-again b height later s n k created =
      elim (Option-cases (entry_of b.transactions height k)) [
        | inl missing ↦
            absurd (ground (arith, missing, created, listed-merge_first b.transactions height s k))
        | inr (e, found) ↦
            let again = entry_of_height b.transactions height later k e found in
            (
              e,
              ground (
                arith,
                found,
                created,
                get-merge_first b.transactions height s k,
                listed-merge_first b.transactions height s k,
              ),
              ground (arith, again, listed-merge_first b.transactions later n k),
              ground (arith, again, get-merge_first b.transactions later n k),
            )
      ]
