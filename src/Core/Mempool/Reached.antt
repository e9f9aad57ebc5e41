-- ===== src/Core/Mempool/Reached.antt =====
-- The pools that sequences of calls lead to, when each call ends before the next one begins.
use zentra_chain.Prelude.{ℕ, ◌≡◌, List, ok}
use zentra_chain.Prelude.Map.{nat_key}
use zentra_chain.Types.{Hash}
use zentra_chain.Types.Amount.{Amount}
use zentra_chain.Core.Data.{Transaction, out_point_key, Crypto}
use zentra_chain.Core.Mempool.{
  Mempool, add_transaction, remove_transaction, remove_confirmed, evict_older_than, stale, new_pool,
  clear,
}
use zentra_chain.Core.Mempool.Invariant.{
  IsValid, add_transaction-IsValid, remove_transaction-IsValid, remove_confirmed-IsValid,
  empty-IsValid,
}

-- One call of the pool.
pub data Call (c : Crypto) : Mempool → Mempool → Type 0 where
  added :
      {p p' : Mempool} (now : ℕ) (tx : Transaction) (fee : Amount)
      → add_transaction c now tx fee p ≡ ok p'
      → Call c p p'
  removed : {p : Mempool} (t : Hash) → Call c p (remove_transaction t p).1
  confirmed : {p : Mempool} (ts : List Hash) → Call c p (remove_confirmed ts p)
  evicted : {p : Mempool} (now max_age : ℕ) → Call c p (evict_older_than now max_age p).1
  cleared : {p : Mempool} → Call c p (clear p)

-- The pools that a sequence of calls leads to.
pub data Reached (c : Crypto) (max_size : ℕ) : Mempool → Type 0 where
  start : Reached c max_size (new_pool max_size)
  next : {p p' : Mempool} → Reached c max_size p → Call c p p' → Reached c max_size p'

Call-IsValid : (c : Crypto) (p p' : Mempool) → Call c p p' → IsValid p → IsValid p'
unfolding evict_older_than
Call-IsValid c p p' (added now tx fee h) v = add_transaction-IsValid c now tx fee p p' h v
Call-IsValid c p _ (removed t) v = remove_transaction-IsValid t p v
Call-IsValid c p _ (confirmed ts) v = remove_confirmed-IsValid ts p v
Call-IsValid c p _ (evicted now max_age) v =
    remove_confirmed-IsValid (stale now max_age p.transactions) p v
Call-IsValid c p _ cleared v = empty-IsValid p.max_size

-- If each call ends before the next one begins, which the code does not enforce, then in every pool that a
-- sequence of calls leads to from an empty one, no id has two entries, the size is within its bound, an
-- outpoint is marked as spent exactly for the transaction that spends it, and the index is in order and
-- ranks exactly the pool's transactions.
pub Reached-IsValid : (c : Crypto) (max_size : ℕ) (p : Mempool) → Reached c max_size p → IsValid p
Reached-IsValid c max_size _ start = empty-IsValid max_size
Reached-IsValid c max_size _ (next {p} {p'} before step) =
    Call-IsValid c p p' step (Reached-IsValid c max_size p before)
