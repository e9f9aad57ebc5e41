-- ===== src/Prelude/Map.antt =====
-- A `HashMap` as an association list: `insert` drops an older entry of its key, `remove` drops every
-- entry of the key. The order of entries stands for the map's unspecified iteration order.
pub mod Laws
use zentra_chain.Prelude.Tests.{if◌then◌else◌, ◌==◌, ==_iff}
use Prim.Native.Nat.{ℕ}
use mathlib.Core.Path.{◌≡◌}
use mathlib.Core.Logic.{◌↔◌}
use mathlib.Core.Bool.{Bool, true, false}
use mathlib.Core.Option.{Option, none, some}
use mathlib.Core.List.{List, [], ◌∷◌}

-- The `Eq` of a key type.
pub record Key (K : Type 0) : Type 0 where
  pub beq : K → K → Bool
  pub beq_iff : (a b : K) → (beq a b ≡ true) ↔ (a ≡ b)

instance abbrev pub nat_key : Key ℕ
nat_key = record { beq = ◌==◌; beq_iff = ==_iff }

abbrev pub Map : Type 0 → Type 0 → Type 0
Map K V = List (K × V)

module _ {K V : Type 0} ⦃k : Key K⦄ where
  abbrev pub get : K → Map K V → Option V
  get a [] = none
  get a ((b, v) ∷ m) = let rest = get a m in if k.beq b a then some v else rest

  abbrev pub remove : K → Map K V → Map K V
  remove a [] = []
  remove a ((b, v) ∷ m) = let rest = remove a m in if k.beq b a then rest else (b, v) ∷ rest

  abbrev pub insert : K → V → Map K V → Map K V
  insert a v m = (a, v) ∷ remove a m

  abbrev pub contains_key : K → Map K V → Bool
  contains_key a m = elim (get a m) [ none ↦ false | some _ ↦ true ]

  -- No key has two entries.
  abbrev pub IsNodup : Map K V → Type 0
  IsNodup [] = Unit
  IsNodup ((a, v) ∷ m) = (get a m ≡ none) × IsNodup m
