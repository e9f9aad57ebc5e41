-- ===== src/Prelude/Map/Laws.antt =====
-- Lookups after updates, duplicate-free maps, and sums of weights over a map's values.
use Prim.Native.Nat.{ℕ, ◌+◌, ◌≤◌}
use mathlib.Core.Path.{◌≡◌, refl}
use mathlib.Core.Bool.{true}
use mathlib.Core.Option.{none, some}
use mathlib.Core.List.{[], ◌∷◌}
use native.Mathlib.Omega.{arith}
use zentra_chain.Prelude.Tests.{if◌then◌else◌}
use zentra_chain.Prelude.Lists.{length}
use zentra_chain.Prelude.Map.{Key, Map, get, remove, insert, IsNodup}

module _ {K : Type 0} ⦃k : Key K⦄ where
  pub beq_self : (a : K) → k.beq a a ≡ true
  beq_self a = (k.beq_iff a a).1 refl

module _ {K V : Type 0} ⦃k : Key K⦄ where
  pub get-remove :
      (a j : K) (m : Map K V) → get j (remove a m) ≡ (if k.beq a j then none else get j m)
  get-remove a j [] = ground arith
  get-remove a j ((b, v) ∷ m) =
      ground (arith, get-remove a j m, k.beq_iff b a, k.beq_iff b j, k.beq_iff a j)

  pub get-insert :
      (a j : K) (v : V) (m : Map K V)
      → get j (insert a v m) ≡ (if k.beq a j then some v else get j m)
  get-insert a j v m = ground (arith, get-remove a j m)

  pub get-remove_self : (a : K) (m : Map K V) → get a (remove a m) ≡ none
  get-remove_self a m = ground (arith, get-remove a a m, beq_self a)

  pub remove_absent : (a : K) (m : Map K V) → get a m ≡ none → remove a m ≡ m
  remove_absent a [] h = refl
  remove_absent a ((b, v) ∷ m) h = ground (arith, remove_absent a m)

  pub remove-IsNodup : (a : K) (m : Map K V) → IsNodup m → IsNodup (remove a m)
  remove-IsNodup a [] h = tt
  remove-IsNodup a ((b, v) ∷ m) h =
      ground (arith, remove-IsNodup a m h.1, get-remove a b m, k.beq_iff b a, k.beq_iff a b)

  pub insert-IsNodup : (a : K) (v : V) (m : Map K V) → IsNodup m → IsNodup (insert a v m)
  insert-IsNodup a v m h = (get-remove_self a m, remove-IsNodup a m h)

  pub length-remove_le : (a : K) (m : Map K V) → length (remove a m) ≤ length m
  length-remove_le a [] = omega arith
  length-remove_le a ((b, v) ∷ m) = ground (arith, length-remove_le a m)

  -- In a duplicate-free map a removal takes out exactly one entry.
  pub length-remove :
      (a : K) (v : V) (m : Map K V)
      → IsNodup m
      → get a m ≡ some v
      → length (remove a m) + 1 ≡ length m
  length-remove a v [] h e = cc
  length-remove a v ((b, w) ∷ m) h e =
      ground (arith, length-remove a v m h.1, k.beq_iff b a, remove_absent a m)

module _ {K V : Type 0} ⦃k : Key K⦄ (w : V → ℕ) where
  -- The sum of the weights of the values.
  abbrev pub total : Map K V → ℕ
  total [] = 0
  total ((_, v) ∷ m) = w v + total m

  pub total-remove_le : (a : K) (m : Map K V) → total (remove a m) ≤ total m
  total-remove_le a [] = omega arith
  total-remove_le a ((b, v) ∷ m) = ground (arith, total-remove_le a m)

  -- A removal takes away at least the weight that a lookup shows.
  pub total-remove-get_le :
      (a : K) (v : V) (m : Map K V) → get a m ≡ some v → total (remove a m) + w v ≤ total m
  total-remove-get_le a v [] e = cc
  total-remove-get_le a v ((b, u) ∷ m) e =
      ground (arith, total-remove-get_le a v m, total-remove_le a m)

  pub total-insert_le : (a : K) (v : V) (m : Map K V) → total (insert a v m) ≤ w v + total m
  total-insert_le a v m = omega (arith, total-remove_le a m)

  -- In a duplicate-free map a removal takes away exactly that weight.
  pub total-remove-get :
      (a : K) (v : V) (m : Map K V)
      → IsNodup m
      → get a m ≡ some v
      → total (remove a m) + w v ≡ total m
  total-remove-get a v [] h e = cc
  total-remove-get a v ((b, u) ∷ m) h e =
      ground (arith, total-remove-get a v m h.1, k.beq_iff b a, remove_absent a m)
