-- ===== src/Prelude/Lists.antt =====
-- Lists measured by native numbers, under the library's names, and the sum of a list by a weight.
use Prim.Native.Nat.{ℕ, zero, suc, ◌+◌, ◌≤◌}
use mathlib.Core.Path.{◌≡◌, refl, ap}
use mathlib.Core.Bool.{Bool, true, false, ◌&&◌, ◌||◌}
use mathlib.Core.Option.{Option, none, some}
use mathlib.Core.List.{List, [], ◌∷◌, ◌++◌, map}
use native.Mathlib.Omega.{arith}
use zentra_chain.Prelude.Tests.{if◌then◌else◌, ◌==◌, ==_iff, Bool-cases}
use mathlib.Core.Logic.{inl, inr}

module _ {ℓ} {A : Type ℓ} where
  abbrev pub length : List A → ℕ
  length [] = 0
  length (x ∷ xs) = suc (length xs)

  abbrev pub get_elem? : List A → ℕ → Option A
  get_elem? [] i = none
  get_elem? (x ∷ xs) zero = some x
  get_elem? (x ∷ xs) (suc i) = get_elem? xs i

  -- `v[i] = x`; a write out of bounds changes nothing.
  abbrev pub set : List A → ℕ → A → List A
  set [] i v = []
  set (x ∷ xs) zero v = v ∷ xs
  set (x ∷ xs) (suc i) v = x ∷ set xs i v

  -- `iter().filter(..).collect()` by a Boolean test.
  abbrev pub keep : (A → Bool) → List A → List A
  keep p [] = []
  keep p (x ∷ xs) = let rest = keep p xs in if p x then x ∷ rest else rest

  -- `iter().any(..)`
  abbrev pub any : (A → Bool) → List A → Bool
  any p [] = false
  any p (x ∷ xs) = let rest = any p xs in if p x then true else rest

  -- The sum of `w x` over the list.
  abbrev pub sum_by : (A → ℕ) → List A → ℕ
  sum_by w [] = 0
  sum_by w (x ∷ xs) = w x + sum_by w xs

  -- Every element satisfies the predicate.
  abbrev pub All {κ} : (A → Type κ) → List A → Type κ
  All P [] = Unit
  All P (x ∷ xs) = P x × All P xs

module _ {ℓ} {A : Type ℓ} where
  pub length-append : (xs ys : List A) → length (xs ++ ys) ≡ length xs + length ys
  length-append [] ys = omega arith
  length-append (x ∷ xs) ys = omega (arith, length-append xs ys)

  pub length-keep-le : (p : A → Bool) (xs : List A) → length (keep p xs) ≤ length xs
  length-keep-le p [] = omega arith
  length-keep-le p (x ∷ xs) = ground (arith, length-keep-le p xs)

  -- A write in range exchanges one summand.
  pub sum_by-set :
      (w : A → ℕ) (xs : List A) (i : ℕ) (x y : A)
      → get_elem? xs i ≡ some x
      → sum_by w (set xs i y) + w x ≡ sum_by w xs + w y
  sum_by-set w [] i x y h = cc
  sum_by-set w (z ∷ xs) zero x y h = ground (arith, h)
  sum_by-set w (z ∷ xs) (suc i) x y h = omega (arith, sum_by-set w xs i x y h)

  pub sum_by-append : (w : A → ℕ) (xs ys : List A) → sum_by w (xs ++ ys) ≡ sum_by w xs + sum_by w ys
  sum_by-append w [] ys = omega arith
  sum_by-append w (x ∷ xs) ys = omega (arith, sum_by-append w xs ys)

  -- A write that keeps a feature of the element keeps the list of that feature.
  pub map-set {κ} :
      {B : Type κ} (f : A → B) (xs : List A) (i : ℕ) (x y : A)
      → get_elem? xs i ≡ some x
      → f y ≡ f x
      → map f (set xs i y) ≡ map f xs
  map-set f [] i x y h e = cc
  map-set f (z ∷ xs) zero x y h e = ground (arith, h)
  map-set f (z ∷ xs) (suc i) x y h e = ap (λ t. f z ∷ t) (map-set f xs i x y h e)

-- `contains` on a list of numbers, and how often a number occurs.
abbrev pub contains : ℕ → List ℕ → Bool
contains h xs = any (λ x. x == h) xs

abbrev pub count : ℕ → List ℕ → ℕ
count h xs = sum_by (λ x. if x == h then 1 else 0) xs

pub contains-append :
    (h : ℕ) (xs ys : List ℕ) → contains h (xs ++ ys) ≡ (contains h xs || contains h ys)
contains-append h [] ys = refl
contains-append h (x ∷ xs) ys = ground (arith, contains-append h xs ys)

pub contains-keep :
    (h : ℕ) (p : ℕ → Bool) (xs : List ℕ) → contains h (keep p xs) ≡ (contains h xs && p h)
contains-keep h p [] = refl
contains-keep h p (x ∷ xs) = elim (Bool-cases (x == h)) [
  | inl same ↦ ground (arith, contains-keep h p xs, same, ap p ((==_iff x h).0 same))
  | inr other ↦ ground (arith, contains-keep h p xs, other)
]
