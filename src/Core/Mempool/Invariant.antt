-- ===== src/Core/Mempool/Invariant.antt =====
-- mempool.rs: an invariant of the pool, under each operation taken as one step.
use zentra_chain.Prelude.{
  ℕ, ◌≤◌, ◌<◌, ◌≡◌, ◌↔◌, refl, Bool, true, false, not, ◌&&◌, none, some, List, [], ◌∷◌, leb, ◌==◌,
  ==_iff, length, any, ok, fail_if-ok, ZentraError, arith, Option-cases, inl, inr,
}
use zentra_chain.Prelude.Map.{Map, nat_key, get, contains_key, IsNodup}
use zentra_chain.Prelude.Map.Laws.{
  get-remove, insert-IsNodup, remove-IsNodup, length-remove_le, remove_absent,
}
use zentra_chain.Types.{Hash}
use zentra_chain.Types.Amount.{Amount}
use zentra_chain.Core.Data.{Transaction, OutPoint, out_point_key, spends, Crypto}
use zentra_chain.Core.Tx.{is_coinbase, txid}
use zentra_chain.Core.Mempool.{
  Mempool, MempoolEntry, Rank, fee_rate_of, admit, discard, add_transaction, remove_transaction,
  remove_confirmed, new_pool,
}
use zentra_chain.Core.Mempool.Index.{
  has, IsSorted, has-index_insert, has-index_remove, index_insert-IsSorted, index_remove-IsSorted,
}
use zentra_chain.Core.Mempool.Claims.{claims, get-claim_inputs, get-release_inputs, unclaimed}

-- The rank stands for an entry of the pool.
abbrev pub ranked : Rank → Map Hash MempoolEntry → Bool
ranked k m = elim (get k.id m) [ none ↦ false | some e ↦ e.fee_rate == k.rate ]

-- The outpoint is claimed by the pool's transaction of that id.
abbrev pub claimed_by : Hash → OutPoint → Map Hash MempoolEntry → Bool
claimed_by t op m = elim (get t m) [ none ↦ false | some e ↦ claims e.transaction op ]

pub record IsValid (p : Mempool) : Type 0 where
  pub unique : IsNodup p.transactions
  pub small : length p.transactions ≤ p.max_size
  -- An outpoint is marked as spent exactly for the transaction that spends it.
  pub marks :
      (op : OutPoint) (t : Hash)
      → (get op p.spent_outpoints ≡ some t) ↔ (claimed_by t op p.transactions ≡ true)
  -- The index ranks exactly the transactions of the pool, and is in order.
  pub ranks : (k : Rank) → has k p.priority_index ≡ ranked k p.transactions
  pub sorted : IsSorted p.priority_index

module _ (c : Crypto) where
  -- What the guards of `add_transaction` let through.
  pub add_transaction-ok :
      (now : ℕ) (tx : Transaction) (fee : Amount) (p p' : Mempool)
      → add_transaction c now tx fee p ≡ ok p'
      → (get (txid c tx) p.transactions ≡ none)
        × (length p.transactions < p.max_size)
        × ((not (is_coinbase tx) && any (λ i. contains_key (spends i) p.spent_outpoints) tx.inputs)
            ≡ false)
        × (p' ≡ admit c now tx fee p)
  unfolding add_transaction
  add_transaction-ok now tx fee p p' h =
      let (fresh, h1) =
        fail_if-ok (contains_key (txid c tx) p.transactions) ZentraError.transaction_validation _
          h in
      let (room, h2) =
        fail_if-ok (leb p.max_size (length p.transactions)) ZentraError.transaction_validation _
          h1 in
      let (free, h3) =
        fail_if-ok
          (not (is_coinbase tx) && any (λ i. contains_key (spends i) p.spent_outpoints) tx.inputs)
          ZentraError.transaction_validation _ h2 in
      (ground (arith, fresh), ground (arith, room), free, cc h3)

  admit-marks :
      (now : ℕ) (tx : Transaction) (fee : Amount) (p : Mempool) (op : OutPoint) (t : Hash)
      → get (txid c tx) p.transactions ≡ none
      → (not (is_coinbase tx) && any (λ i. contains_key (spends i) p.spent_outpoints) tx.inputs)
        ≡ false
      → (get op p.spent_outpoints ≡ some t) ↔ (claimed_by t op p.transactions ≡ true)
      → (get op (admit c now tx fee p).spent_outpoints ≡ some t)
        ↔ (claimed_by t op (admit c now tx fee p).transactions ≡ true)
  admit-marks now tx fee p op t fresh free old = (
    λ h. ground (
      arith,
      h,
      old.0,
      fresh,
      get-claim_inputs op (txid c tx) tx.inputs p.spent_outpoints,
      get-remove (txid c tx) t p.transactions,
      ==_iff (txid c tx) t,
    ),
    λ h. ground (
      arith,
      h,
      old.1,
      fresh,
      free,
      get-claim_inputs op (txid c tx) tx.inputs p.spent_outpoints,
      get-remove (txid c tx) t p.transactions,
      unclaimed op tx.inputs p.spent_outpoints,
    ),
  )

  pub add_transaction-IsValid :
      (now : ℕ) (tx : Transaction) (fee : Amount) (p p' : Mempool)
      → add_transaction c now tx fee p ≡ ok p'
      → IsValid p
      → IsValid p'
  add_transaction-IsValid now tx fee p p' h v =
      let (fresh, room, free, same) = add_transaction-ok now tx fee p p' h in
      rw same (record {
        unique =
            insert-IsNodup (txid c tx)
              (record {
                transaction = tx;
                fee = fee;
                fee_rate = fee_rate_of c tx fee;
                added_at = now;
              })
              p.transactions v.unique;
        small = rw (remove_absent (txid c tx) p.transactions fresh) (omega (arith, room));
        marks = λ op t. admit-marks now tx fee p op t fresh free (v.marks op t);
        ranks = λ k. ground (
          arith,
          v.ranks k,
          fresh,
          get-remove (txid c tx) k.id p.transactions,
          has-index_insert k (record { rate = fee_rate_of c tx fee; id = txid c tx })
              p.priority_index,
        );
        sorted = index_insert-IsSorted _ p.priority_index v.sorted;
      })

discard-marks :
    (t : Hash) (e : MempoolEntry) (p : Mempool) (op : OutPoint) (u : Hash)
    → get t p.transactions ≡ some e
    → (get op p.spent_outpoints ≡ some t) ↔ (claimed_by t op p.transactions ≡ true)
    → (get op p.spent_outpoints ≡ some u) ↔ (claimed_by u op p.transactions ≡ true)
    → (get op (discard t e p).spent_outpoints ≡ some u)
      ↔ (claimed_by u op (discard t e p).transactions ≡ true)
discard-marks t e p op u found own old = (
  λ h. ground (
    arith,
    h,
    old.0,
    own.1,
    found,
    get-release_inputs op e.transaction.inputs p.spent_outpoints,
    get-remove t u p.transactions,
    ==_iff t u,
  ),
  λ h. ground (
    arith,
    h,
    old.1,
    own.1,
    found,
    get-release_inputs op e.transaction.inputs p.spent_outpoints,
    get-remove t u p.transactions,
    ==_iff t u,
  ),
)

discard-IsValid :
    (t : Hash) (e : MempoolEntry) (p : Mempool)
    → get t p.transactions ≡ some e
    → IsValid p
    → IsValid (discard t e p)
discard-IsValid t e p found v = record {
  unique = remove-IsNodup t p.transactions v.unique;
  small = omega (arith, length-remove_le t p.transactions, v.small);
  marks = λ op u. discard-marks t e p op u found (v.marks op t) (v.marks op u);
  ranks = λ k.
      ground
        (arith, v.ranks k, get-remove t k.id p.transactions, has-index_remove k t p.priority_index);
  sorted = index_remove-IsSorted t p.priority_index v.sorted;
}

pub remove_transaction-IsValid :
    (t : Hash) (p : Mempool) → IsValid p → IsValid (remove_transaction t p).1
unfolding remove_transaction
remove_transaction-IsValid t p v = elim (Option-cases (get t p.transactions)) [
  | inl out ↦ rw (out, remove_transaction) v
  | inr (e, found) ↦ rw (found, remove_transaction) (discard-IsValid t e p found v)
]

pub remove_confirmed-IsValid :
    (ts : List Hash) (p : Mempool) → IsValid p → IsValid (remove_confirmed ts p)
unfolding remove_confirmed
remove_confirmed-IsValid [] p v = v
remove_confirmed-IsValid (t ∷ ts) p v =
    remove_confirmed-IsValid ts (remove_transaction t p).1 (remove_transaction-IsValid t p v)

pub empty-IsValid : (max_size : ℕ) → IsValid (new_pool max_size)
empty-IsValid max_size = record {
  unique = tt;
  small = omega arith;
  marks = λ op t. (λ h. cc, λ h. cc);
  ranks = λ k. refl;
  sorted = tt;
}
