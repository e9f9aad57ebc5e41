-- ===== src/Core/Mempool/Index.antt =====
-- mempool.rs: the priority index as an ordered set of ranks.
use zentra_chain.Prelude.{
  ◌≡◌, Bool, true, false, not, ◌||◌, ◌&&◌, [], ◌∷◌, ◌==◌, any, keep, All, arith,
}
use zentra_chain.Types.{Hash}
use zentra_chain.Core.Mempool.{Rank, Index, rank_eq, before, index_insert, index_remove}

abbrev pub has : Rank → Index → Bool
has k xs = any (λ x. rank_eq k x) xs

abbrev pub IsSorted : Index → Type 0
IsSorted [] = Unit
IsSorted (x ∷ xs) = All (λ y. before x y ≡ true) xs × IsSorted xs

pub has-index_insert :
    (k j : Rank) (xs : Index) → has k (index_insert j xs) ≡ (rank_eq k j || has k xs)
unfolding index_insert
has-index_insert k j [] = ground arith
has-index_insert k j (x ∷ xs) = ground (arith, has-index_insert k j xs)

pub has-index_remove :
    (k : Rank) (t : Hash) (xs : Index) → has k (index_remove t xs) ≡ (has k xs && not (k.id == t))
unfolding index_remove
has-index_remove k t [] = ground arith
has-index_remove k t (x ∷ xs) = ground (arith, has-index_remove k t xs)

before_trans : (a b c : Rank) → before a b ≡ true → before b c ≡ true → before a c ≡ true
before_trans a b c h k = ground arith

All-before :
    (a b : Rank) (xs : Index)
    → before a b ≡ true
    → All (λ y. before b y ≡ true) xs
    → All (λ y. before a y ≡ true) xs
All-before a b [] h all = tt
All-before a b (x ∷ xs) h all = (before_trans a b x h all.0, All-before a b xs h all.1)

All-index_insert :
    (a k : Rank) (xs : Index)
    → before a k ≡ true
    → All (λ y. before a y ≡ true) xs
    → All (λ y. before a y ≡ true) (index_insert k xs)
unfolding index_insert
All-index_insert a k [] h all = (h, tt)
All-index_insert a k (x ∷ xs) h all = ground (arith, All-index_insert a k xs h all.1)

before_total : (a b : Rank) → rank_eq a b ≡ false → before a b ≡ false → before b a ≡ true
before_total a b other not_before = ground arith

pub index_insert-IsSorted : (k : Rank) (xs : Index) → IsSorted xs → IsSorted (index_insert k xs)
unfolding index_insert
index_insert-IsSorted k [] s = (tt, tt)
index_insert-IsSorted k (x ∷ xs) s = ground (
  arith,
  index_insert-IsSorted k xs s.1,
  All-before k x xs,
  All-index_insert x k xs,
  before_total k x,
)

All-keep :
    (a : Rank) (p : Rank → Bool) (xs : Index)
    → All (λ y. before a y ≡ true) xs
    → All (λ y. before a y ≡ true) (keep p xs)
All-keep a p [] all = tt
All-keep a p (x ∷ xs) all = ground (arith, All-keep a p xs all.1)

pub index_remove-IsSorted : (t : Hash) (xs : Index) → IsSorted xs → IsSorted (index_remove t xs)
unfolding index_remove
index_remove-IsSorted t [] s = tt
index_remove-IsSorted t (x ∷ xs) s =
    ground (arith, index_remove-IsSorted t xs s.1, All-keep x (λ k. not (k.id == t)) xs s.0)
