-- ===== src/Types/Amount.antt =====
-- amount.rs: arithmetic on amounts of zents, which are u64 words.
use zentra_chain.Prelude.{ℕ, ◌/◌, ◌%◌, ◌+◌, ◌*◌, ◌-◌, ◌<◌, ◌≡◌, Bool, Option, arith, ◌==◌}
use zentra_chain.Prelude.Words
use zentra_chain.Prelude.Words.{u64_max}
use zentra_chain.Types.Constants.{coin}

abbrev pub Amount : Type 0
Amount = ℕ

unfoldable pub from_coins : ℕ → Amount
unfolding Words.saturating_mul
from_coins coins = Words.saturating_mul u64_max coins coin

unfoldable pub whole_coins : Amount → ℕ
whole_coins a = a / coin

unfoldable pub fractional_zents : Amount → ℕ
fractional_zents a = a % coin

abbrev pub checked_add : Amount → Amount → Option Amount
checked_add a b = Words.checked_add u64_max a b

abbrev pub checked_sub : Amount → Amount → Option Amount
checked_sub a b = Words.checked_sub a b

abbrev pub saturating_add : Amount → Amount → Amount
saturating_add a b = Words.saturating_add u64_max a b

abbrev pub saturating_sub : Amount → Amount → Amount
saturating_sub a b = a - b

abbrev pub is_zero : Amount → Bool
is_zero a = a == 0

-- An amount is its whole coins and its fraction, and the fraction is less than a coin.
pub whole_fractional :
    (a : Amount) → (whole_coins a * coin + fractional_zents a ≡ a) × (fractional_zents a < coin)
unfolding whole_coins fractional_zents
whole_fractional a = omega arith
