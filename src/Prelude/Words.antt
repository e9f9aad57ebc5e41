-- ===== src/Prelude/Words.antt =====
-- Machine words: a word is a native number below its modulus, and each operation says what Rust's
-- method of that name does. `max` is the largest value of the word's type.
use Prim.Native.Nat.{ℕ, ◌+◌, ◌-◌, ◌*◌, ◌≤◌}
use mathlib.Core.Path.{◌≡◌}
use mathlib.Core.Option.{Option, none, some}
use native.Mathlib.Omega.{arith}
use zentra_chain.Prelude.Tests.{leb, if◌then◌else◌}

abbrev pub u64_max : ℕ
u64_max = 18_446_744_073_709_551_615

abbrev pub u128_max : ℕ
u128_max = 340_282_366_920_938_463_463_374_607_431_768_211_455

abbrev pub u256_max : ℕ
u256_max = 115792089237316195423570985008687907853269984665640564039457584007913129639935

unfoldable pub saturating_add : ℕ → ℕ → ℕ → ℕ
saturating_add max a b = if leb (a + b) max then a + b else max

unfoldable pub saturating_mul : ℕ → ℕ → ℕ → ℕ
saturating_mul max a b = if leb (a * b) max then a * b else max

unfoldable pub checked_add : ℕ → ℕ → ℕ → Option ℕ
checked_add max a b = if leb (a + b) max then some (a + b) else none

unfoldable pub checked_mul : ℕ → ℕ → ℕ → Option ℕ
checked_mul max a b = if leb (a * b) max then some (a * b) else none

unfoldable pub checked_sub : ℕ → ℕ → Option ℕ
checked_sub a b = if leb b a then some (a - b) else none

pub saturating_add-le : (max a b : ℕ) → saturating_add max a b ≤ a + b
unfolding saturating_add
saturating_add-le max a b = ground arith

pub saturating_add-le-max : (max a b : ℕ) → saturating_add max a b ≤ max
unfolding saturating_add
saturating_add-le-max max a b = ground arith

-- Where the sum fits, the saturating sum is the sum.
pub saturating_add_exact : (max a b : ℕ) → a + b ≤ max → saturating_add max a b ≡ a + b
unfolding saturating_add
saturating_add_exact max a b h = ground arith

pub saturating_mul_exact : (max a b : ℕ) → a * b ≤ max → saturating_mul max a b ≡ a * b
unfolding saturating_mul
saturating_mul_exact max a b h = ground arith

-- Where the product reaches the largest word, the saturating product is that word.
pub saturating_mul-max : (max a b : ℕ) → max ≤ a * b → saturating_mul max a b ≡ max
unfolding saturating_mul
saturating_mul-max max a b h = ground arith

pub saturating_add-ge : (max a b : ℕ) → a ≤ max → a ≤ saturating_add max a b
unfolding saturating_add
saturating_add-ge max a b h = ground arith
