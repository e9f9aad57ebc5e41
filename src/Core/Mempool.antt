-- ===== src/Core/Mempool.antt =====
-- mempool.rs: the pool of unconfirmed transactions. The ordered map `priority_index` is its list of
-- keys in order, and the time of a call is an argument of it. An operation is modelled as one step. The
-- code does not make it one: its maps are locked one access at a time, so that calls of several threads
-- can overlap between a check and a write (Core/Mempool/Overlap). Log lines are left out.
pub mod Index
pub mod Claims
pub mod Invariant
pub mod Reached
pub mod Overlap
use zentra_chain.Prelude.{
  ℕ, zero, suc, ◌+◌, ◌-◌, ◌/◌, Bool, true, false, not, ◌||◌, ◌&&◌, Option, none, some, List, [],
  ◌∷◌, ltb, leb, ◌==◌, length, any, keep, Result, ok, err, ◌>>=◌, ◌>>◌, fail_if, ZentraError,
  ZentraResult, if◌then◌else◌,
}
use Prim.Native.Nat.{max}
use zentra_chain.Prelude.Map.{Map, nat_key, get, insert, remove, contains_key}
use zentra_chain.Types.{Hash}
use zentra_chain.Types.Amount.{Amount}
use zentra_chain.Core.Data.{TxInput, Transaction, OutPoint, out_point_key, spends, Crypto}
use zentra_chain.Core.Tx.{is_coinbase, txid}

pub record MempoolEntry : Type 0 where
  pub transaction : Transaction
  pub fee : Amount
  pub fee_rate : ℕ
  pub added_at : ℕ

-- `(Reverse(fee_rate), txid)`
pub record Rank : Type 0 where
  pub rate : ℕ
  pub id : Hash

abbrev pub rank_eq : Rank → Rank → Bool
rank_eq a b = (a.rate == b.rate) && (a.id == b.id)

-- The order of the keys: the higher rate first, then the lower hash.
abbrev pub before : Rank → Rank → Bool
before a b = ltb b.rate a.rate || ((a.rate == b.rate) && ltb a.id b.id)

abbrev pub Index : Type 0
Index = List Rank

pub record Mempool : Type 0 where
  pub transactions : Map Hash MempoolEntry
  pub priority_index : Index
  pub spent_outpoints : Map OutPoint Hash
  pub max_size : ℕ

-- `Mempool::new`
abbrev pub new_pool : ℕ → Mempool
new_pool max_size = record {
  transactions = [];
  priority_index = [];
  spent_outpoints = [];
  max_size = max_size;
}

-- `BTreeMap::insert`
unfoldable pub index_insert : Rank → Index → Index
index_insert k [] = k ∷ []
index_insert k (x ∷ xs) =
    let rest = index_insert k xs in
    if rank_eq k x then x ∷ xs else if before k x then k ∷ x ∷ xs else x ∷ rest

-- `retain(|(_, v), _| v != txid)`
unfoldable pub index_remove : Hash → Index → Index
index_remove t xs = keep (λ k. not (k.id == t)) xs

unfoldable pub claim_inputs : List TxInput → Hash → Map OutPoint Hash → Map OutPoint Hash
claim_inputs [] t m = m
claim_inputs (i ∷ is) t m = claim_inputs is t (insert (spends i) t m)

unfoldable pub release_inputs : List TxInput → Map OutPoint Hash → Map OutPoint Hash
release_inputs [] m = m
release_inputs (i ∷ is) m = release_inputs is (remove (spends i) m)

module _ (c : Crypto) where
  abbrev pub fee_rate_of : Transaction → Amount → ℕ
  fee_rate_of tx fee = fee / max (length (c.borsh_tx tx)) 1

  -- The pool after lines 71 to 93.
  abbrev pub admit : ℕ → Transaction → Amount → Mempool → Mempool
  admit now tx fee p = record p {
    transactions =
        insert (txid c tx)
          (record { transaction = tx; fee = fee; fee_rate = fee_rate_of tx fee; added_at = now })
          p.transactions;
    priority_index =
        index_insert (record { rate = fee_rate_of tx fee; id = txid c tx }) p.priority_index;
    spent_outpoints =
        if is_coinbase tx
        then p.spent_outpoints
        else claim_inputs tx.inputs (txid c tx) p.spent_outpoints;
  }

  unfoldable pub add_transaction : ℕ → Transaction → Amount → Mempool → ZentraResult Mempool
  add_transaction now tx fee p = do
    fail_if (contains_key (txid c tx) p.transactions) ZentraError.transaction_validation
    fail_if (leb p.max_size (length p.transactions)) ZentraError.transaction_validation
    fail_if (not (is_coinbase tx) && any (λ i. contains_key (spends i) p.spent_outpoints) tx.inputs)
        ZentraError.transaction_validation
    ok (admit now tx fee p)

-- The pool after lines 101 to 108, which take the entry of an id out.
abbrev pub discard : Hash → MempoolEntry → Mempool → Mempool
discard t e p = record p {
  transactions = remove t p.transactions;
  priority_index = index_remove t p.priority_index;
  spent_outpoints =
      if is_coinbase e.transaction
      then p.spent_outpoints
      else release_inputs e.transaction.inputs p.spent_outpoints;
}

unfoldable pub remove_transaction : Hash → Mempool → Option Transaction × Mempool
remove_transaction t p = elim (get t p.transactions) [
  | none ↦ (none, p)
  | some e ↦ (some e.transaction, discard t e p)
]

unfoldable pub remove_confirmed : List Hash → Mempool → Mempool
remove_confirmed [] p = p
remove_confirmed (t ∷ ts) p = remove_confirmed ts (remove_transaction t p).1

-- The keys of the entries that are older than allowed.
unfoldable pub stale : ℕ → ℕ → Map Hash MempoolEntry → List Hash
stale now max_age [] = []
stale now max_age ((t, e) ∷ m) =
    let rest = stale now max_age m in if ltb max_age (now - e.added_at) then t ∷ rest else rest

unfoldable pub evict_older_than : ℕ → ℕ → Mempool → ℕ × Mempool
evict_older_than now max_age p =
    let ts = stale now max_age p.transactions in (length ts, remove_confirmed ts p)

-- `filter_map` over the first keys.
unfoldable pub pick : ℕ → Index → Map Hash MempoolEntry → List Transaction
pick zero ks m = []
pick (suc n) [] m = []
pick (suc n) (k ∷ ks) m =
    let rest = pick n ks m in elim (get k.id m) [ none ↦ rest | some e ↦ e.transaction ∷ rest ]

unfoldable pub get_transactions_for_block : ℕ → Mempool → List Transaction
get_transactions_for_block max_count p = pick max_count p.priority_index p.transactions

abbrev pub clear : Mempool → Mempool
clear p = record p { transactions = []; priority_index = []; spent_outpoints = [] }
