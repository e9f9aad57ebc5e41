-- ===== src/Node/Headers/Median.antt =====
-- node.rs, `validate_block_header`: the median of the past timestamps.
use zentra_chain.Prelude.{
  ℕ, zero, suc, ◌+◌, ◌≤◌, ◌<◌, ◌≡◌, refl, ap, ◌∙◌, List, [], ◌∷◌, ltb, leb, length, All,
  if◌then◌else◌, get_elem?, arith, Bool-cases, inl, inr, leb→le, ok, ◌/◌,
}
use zentra_chain.Node.Headers.{insert_time, sort, time_of, median, check_median}

-- How many times are earlier than `t`.
abbrev pub earlier : ℕ → List ℕ → ℕ
earlier t [] = 0
earlier t (x ∷ xs) = (if ltb x t then 1 else 0) + earlier t xs

earlier-insert_time : (t x : ℕ) (xs : List ℕ) → earlier t (insert_time x xs) ≡ earlier t (x ∷ xs)
earlier-insert_time t x [] = refl
earlier-insert_time t x (y ∷ xs) = ground (arith, earlier-insert_time t x xs)

earlier-sort : (t : ℕ) (xs : List ℕ) → earlier t (sort xs) ≡ earlier t xs
earlier-sort t [] = refl
earlier-sort t (x ∷ xs) = ground (arith, earlier-insert_time t x (sort xs), earlier-sort t xs)

-- Every time is at least `t`.
abbrev From : ℕ → List ℕ → Type 0
From t xs = All (λ x. t ≤ x) xs

abbrev IsAscending : List ℕ → Type 0
IsAscending [] = Unit {0}
IsAscending (x ∷ xs) = From x xs × IsAscending xs

From-insert_time : (t x : ℕ) (xs : List ℕ) → t ≤ x → From t xs → From t (insert_time x xs)
From-insert_time t x [] h from = (h, tt)
From-insert_time t x (y ∷ xs) h from = elim (Bool-cases (leb x y)) [
  | inl first ↦ rw first (h, from)
  | inr later ↦ rw later (from.0, From-insert_time t x xs h from.1)
]

From-weaken : (t u : ℕ) (xs : List ℕ) → t ≤ u → From u xs → From t xs
From-weaken t u [] h from = tt
From-weaken t u (x ∷ xs) h from = (omega (arith, h, from.0), From-weaken t u xs h from.1)

insert_time-IsAscending : (x : ℕ) (xs : List ℕ) → IsAscending xs → IsAscending (insert_time x xs)
insert_time-IsAscending x [] up = (tt, tt)
insert_time-IsAscending x (y ∷ xs) up = elim (Bool-cases (leb x y)) [
  | inl first ↦ let le : x ≤ y = leb→le x y first in rw first ((le, From-weaken x y xs le up.0), up)
  | inr later ↦
      rw later
        (From-insert_time y x xs (ground (arith, later)) up.0, insert_time-IsAscending x xs up.1)
]

sort-IsAscending : (xs : List ℕ) → IsAscending (sort xs)
sort-IsAscending [] = tt
sort-IsAscending (x ∷ xs) = insert_time-IsAscending x (sort xs) (sort-IsAscending xs)

length-insert_time : (x : ℕ) (xs : List ℕ) → length (insert_time x xs) ≡ suc (length xs)
length-insert_time x [] = refl
length-insert_time x (y ∷ xs) = ground (arith, length-insert_time x xs)

length-sort : (xs : List ℕ) → length (sort xs) ≡ length xs
length-sort [] = refl
length-sort (x ∷ xs) = length-insert_time x (sort xs) ∙ ap suc (length-sort xs)

From-at : (x n : ℕ) (xs : List ℕ) → From x xs → n < length xs → x ≤ time_of (get_elem? xs n)
From-at x n [] from h = absurd (omega (arith, h))
From-at x zero (y ∷ xs) from h = from.0
From-at x (suc n) (y ∷ xs) from h = From-at x n xs from.1 (omega (arith, h))

-- All up to a place that holds an earlier time are earlier.
earlier-IsAscending :
    (t n : ℕ) (xs : List ℕ)
    → IsAscending xs
    → n < length xs
    → time_of (get_elem? xs n) < t
    → n + 1 ≤ earlier t xs
earlier-IsAscending t n [] up h early = absurd (omega (arith, h))
earlier-IsAscending t zero (x ∷ xs) up h early = ground (arith, early)
earlier-IsAscending t (suc n) (x ∷ xs) up h early =
    let inside : n < length xs = omega (arith, h) in
    let rest = earlier-IsAscending t n xs up.1 inside early in
    ground (arith, rest, From-at x n xs up.0 inside, early)

-- A time that is past the median of a list of times is past more than half of them.
pub check_median-earlier :
    (timestamp : ℕ) (times : List ℕ)
    → 11 ≤ length times
    → check_median timestamp times ≡ ok tt
    → length times / 2 + 1 ≤ earlier timestamp times
unfolding check_median
check_median-earlier timestamp times many passed =
    let past : median times < timestamp = ground (arith, many, passed) in
    let inside : length times / 2 < length (sort times) =
      rw (length-sort times) (omega (arith, many)) in
    rw⁻¹ (earlier-sort timestamp times) (
      earlier-IsAscending timestamp (length times / 2) (sort times) (sort-IsAscending times) inside
        past)
