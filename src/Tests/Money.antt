-- ===== src/Tests/Money.antt =====
-- Runs and witnesses of the liquidity pool and the quarantine.
use zentra_chain.Prelude.Words
use zentra_chain.Finance.Amm
use zentra_chain.Prelude.{ℕ, ◌+◌, ◌*◌, ◌≤◌, ◌<◌, ◌≡◌, refl, ok, some, none, arith}
use zentra_chain.Prelude.Words.{u128_max, saturating_add}
use zentra_chain.Finance.Amm.{
  SwapResult, LiquidityPool, Minted, empty_pool, swap_ztr_to_zusd, swap_zusd_to_ztr, add_liquidity,
  inject_protocol_liquidity, integer_sqrt,
}
use zentra_chain.Finance.Amm.Sqrt
use zentra_chain.Finance.Amm.Sqrt.{IsRoot}
use zentra_chain.Finance.Amm.Swaps
use zentra_chain.Finance.Amm.Liquidity

abbrev pool : LiquidityPool
pool = record {
  reserve_ztr = 1000000;
  reserve_zusd = 2000000;
  total_lp_tokens = 1414213;
  total_lp_burned = 0;
  total_volume_ztr = 0;
  total_fees_captured = 0;
}

abbrev swapped : LiquidityPool
swapped = record pool {
  reserve_ztr = 1010000;
  reserve_zusd = 1980238;
  total_volume_ztr = 10000;
  total_fees_captured = 20;
}

abbrev swap_result : SwapResult
swap_result = record {
  amount_out = 19762;
  fee_captured = 20;
  new_reserve_a = 1010000;
  new_reserve_b = 1980238;
}

swaps : swap_ztr_to_zusd 10000 pool ≡ ok (swap_result, swapped)
unfolding swap_ztr_to_zusd Amm.quote_swap Words.checked_mul Words.checked_sub Words.checked_add
    saturating_add
swaps = refl

abbrev back_result : SwapResult
back_result = record {
  amount_out = 9960;
  fee_captured = 39;
  new_reserve_a = 2000000;
  new_reserve_b = 1000040;
}

abbrev swapped_back : LiquidityPool
swapped_back = record swapped {
  reserve_ztr = 1000040;
  reserve_zusd = 2000000;
  total_volume_ztr = 19960;
  total_fees_captured = 59;
}

swaps_back : swap_zusd_to_ztr 19762 swapped ≡ ok (back_result, swapped_back)
unfolding swap_zusd_to_ztr Amm.quote_swap Words.checked_mul Words.checked_sub Words.checked_add
    saturating_add
swaps_back = refl

round_trip-no_gain_example : 9960 ≤ 10000
round_trip-no_gain_example =
    Swaps.round_trip-no_gain 10000 pool swapped swapped_back swap_result back_result swaps
      swaps_back

integer_sqrt-IsRoot_example : (r : ℕ) × (integer_sqrt 1_000_003 ≡ some r) × IsRoot 1_000_003 r
integer_sqrt-IsRoot_example = Sqrt.integer_sqrt-IsRoot 1_000_003 (omega arith)

abbrev deposited : LiquidityPool
deposited = record pool { reserve_ztr = 1001000; reserve_zusd = 2002000; total_lp_tokens = 1415627 }

deposits : add_liquidity 1000 2000 pool ≡ (Minted.result (ok 1414), deposited)
unfolding add_liquidity Amm.lp_for Words.checked_mul Amm.deposit Words.checked_add
deposits = refl

add_liquidity-no_dilution_example :
    (0 < 1414)
    × (deposited.total_lp_tokens ≡ pool.total_lp_tokens + 1414)
    × (pool.reserve_ztr * deposited.total_lp_tokens ≤ deposited.reserve_ztr * pool.total_lp_tokens)
    × (pool.reserve_zusd * deposited.total_lp_tokens
        ≤ deposited.reserve_zusd * pool.total_lp_tokens)
add_liquidity-no_dilution_example =
    Liquidity.add_liquidity-no_dilution 1000 2000 1414 pool deposited (omega arith) deposits

abbrev founded : LiquidityPool
founded = record empty_pool { reserve_ztr = 50; reserve_zusd = 200; total_lp_tokens = 100 }

founds : add_liquidity 50 200 empty_pool ≡ (Minted.result (ok 100), founded)
unfolding add_liquidity Amm.lp_for Words.checked_mul integer_sqrt Amm.sqrt_loop Amm.deposit
    Words.checked_add
founds = refl

inject_protocol_liquidity-panics_example :
    inject_protocol_liquidity 20_000_000_000_000_000_000 20_000_000_000_000_000_000 empty_pool
    ≡ none
inject_protocol_liquidity-panics_example =
    Liquidity.inject_protocol_liquidity-panics 20_000_000_000_000_000_000 20_000_000_000_000_000_000
      empty_pool (omega arith) refl
