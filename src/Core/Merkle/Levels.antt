-- ===== src/Core/Merkle/Levels.antt =====
-- merkle.rs: one level of the tree.
use zentra_chain.Prelude.{
  ℕ, zero, suc, ◌+◌, ◌-◌, ◌/◌, ◌%◌, ◌<◌, ◌≡◌, refl, ap, some, List, [], ◌∷◌, length, get_elem?,
  ◌==◌, if◌then◌else◌, arith, Bool-cases, inl, inr,
}
use zentra_chain.Types.{Hash}
use zentra_chain.Core.Data.{Crypto}
use zentra_chain.Core.Merkle.{push_last, pad, combine, pairs, sibling, next_level}

length-push_last : (a : Hash) (l : List Hash) → length (push_last (a ∷ l)) ≡ length l + 2
length-push_last a [] = omega arith
length-push_last a (b ∷ l) = omega (arith, length-push_last b l)

get-push_last :
    (a : Hash) (l : List Hash) (i : ℕ) (x : Hash)
    → get_elem? (a ∷ l) i ≡ some x
    → get_elem? (push_last (a ∷ l)) i ≡ some x
get-push_last a [] zero x h = h
get-push_last a [] (suc i) x h = cc
get-push_last a (b ∷ l) zero x h = h
get-push_last a (b ∷ l) (suc i) x h = get-push_last b l i x h

pub lt_of_get : (l : List Hash) (i : ℕ) (x : Hash) → get_elem? l i ≡ some x → i < length l
lt_of_get [] i x h = absurd (cc)
lt_of_get (a ∷ l) zero x h = omega arith
lt_of_get (a ∷ l) (suc i) x h = omega (arith, lt_of_get l i x h)

sibling-lt : (i n : ℕ) → i < n → n % 2 ≡ 0 → sibling i < n
sibling-lt i n h e = ground arith

-- A padded level has even length, at most one more than before.
pub length-pad :
    (l : List Hash) → (length (pad l) % 2 ≡ 0) × (length (pad l) / 2 ≡ (length l + 1) / 2)
unfolding pad
length-pad [] = ground arith
length-pad (a ∷ l) = ground (arith, length-push_last a l)

pub get-pad :
    (l : List Hash) (i : ℕ) (x : Hash) → get_elem? l i ≡ some x → get_elem? (pad l) i ≡ some x
unfolding pad
get-pad [] i x h = absurd (cc)
get-pad (a ∷ l) i x h = ground (arith, get-push_last a l i x)

pub get-lt : (l : List Hash) (i : ℕ) → i < length l → (x : Hash) × (get_elem? l i ≡ some x)
get-lt [] i h = absurd (omega arith)
get-lt (a ∷ l) zero h = (a, refl)
get-lt (a ∷ l) (suc i) h = get-lt l i (omega arith)

pad_two : (a b : Hash) (l : List Hash) → pad (a ∷ b ∷ l) ≡ a ∷ b ∷ pad l
unfolding pad
pad_two a b [] = ground arith
pad_two a b (x ∷ l) = ground arith

get-sibling_step :
    (a b : Hash) (l : List Hash) (i : ℕ)
    → get_elem? (a ∷ b ∷ l) (sibling (suc (suc i))) ≡ get_elem? l (sibling i)
get-sibling_step a b l i = elim (Bool-cases (i % 2 == 0)) [
  | inl even ↦
      let parity : suc (suc i) % 2 ≡ i % 2 = omega arith in
      let next : suc (suc i) + 1 ≡ suc (suc (i + 1)) = omega arith in rw (parity, even, next)
  | inr odd ↦
      let parity : suc (suc i) % 2 ≡ i % 2 = omega arith in
      let next : suc (suc i) - 1 ≡ suc (suc (i - 1)) = ground arith in rw (parity, odd, next)
]

pub sibling-lt_pad :
    (l : List Hash) (i : ℕ) (x : Hash) → get_elem? l i ≡ some x → sibling i < length (pad l)
sibling-lt_pad l i x h =
    sibling-lt i (length (pad l)) (lt_of_get (pad l) i x (get-pad l i x h)) (length-pad l).0

module _ (c : Crypto) where
  pub length-pairs : (l : List Hash) → length (pairs c l) ≡ length l / 2
  unfolding pairs
  length-pairs [] = omega arith
  length-pairs (a ∷ []) = omega arith
  length-pairs (a ∷ b ∷ l) = omega (arith, length-pairs l)

  -- The pair that holds index `i` stands at `i / 2`, and its other half at `sibling i`.
  pub get-pairs :
      (l : List Hash) (i : ℕ) (x y : Hash)
      → get_elem? l i ≡ some x
      → get_elem? l (sibling i) ≡ some y
      → get_elem? (pairs c l) (i / 2) ≡ some (if i % 2 == 0 then combine c x y else combine c y x)
  unfolding pairs
  get-pairs [] i x y h g = absurd (cc)
  get-pairs (a ∷ []) zero x y h g = absurd (ground arith)
  get-pairs (a ∷ []) (suc i) x y h g = absurd (cc)
  get-pairs (a ∷ b ∷ l) zero x y h g = ground arith
  get-pairs (a ∷ b ∷ l) (suc zero) x y h g = ground arith
  get-pairs (a ∷ b ∷ l) (suc (suc i)) x y h g =
      let half : suc (suc i) / 2 ≡ suc (i / 2) = omega arith in
      let parity : suc (suc i) % 2 ≡ i % 2 = omega arith in
      rw (half, parity) (get-pairs l i x y h (rw (get-sibling_step a b l i) at g))

  -- Both implementations build the same level.
  pub next_level-pad : (l : List Hash) → next_level c l ≡ pairs c (pad l)
  unfolding next_level pairs pad
  next_level-pad [] = ground arith
  next_level-pad (a ∷ []) = ground arith
  next_level-pad (a ∷ b ∷ l) = rw (pad_two a b l) (ap (◌∷◌ (combine c a b)) (next_level-pad l))
