-- ===== src/Prelude.antt =====
-- The names that the components share: the libraries' names passed on, Boolean tests, results,
-- machine words, lists and hash maps.
mod Tests
mod Results
pub mod Words
mod Lists
pub mod Map
mod Digits
pub mod Sorted
pub mod Xor
pub use Tests.*
pub use Results.*
pub use Lists.*
unfoldable pub use Digits.*
pub use Prim.Native.Nat.{ℕ, zero, suc, ◌+◌, ◌-◌, ◌*◌, ◌/◌, ◌%◌, ◌^◌, ◌≤◌, ◌<◌}
pub use mathlib.Core.Path.{◌≡◌, refl, sym, ap, ◌∙◌}
pub use mathlib.Core.Logic.{◌≢◌, ◌↔◌, ◌⊎◌, inl, inr}
pub use mathlib.Core.Bool.{Bool, true, false, ◌&&◌, ◌||◌, not}
pub use mathlib.Core.Option.{Option, none, some}
pub use mathlib.Core.List.{List, [], ◌∷◌, ◌++◌, map, reverse}
pub use native.Mathlib.Omega.{arith}
