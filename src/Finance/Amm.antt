-- ===== src/Finance/Amm.antt =====
-- amm.rs: the constant-product pool of ZTR and zUSD. Amounts are u128 words, and products are taken
-- in 256 bits where the code does so. `integer_sqrt` and the operations that call it return an
-- `Option`, whose `none` is a panic: the largest u128 wraps to 0 in `x + 1`, and the loop divides by
-- the 0 that it then holds. Log lines are left out.
pub mod Sqrt
pub mod Swaps
pub mod Liquidity
use zentra_chain.Prelude.{
  ℕ, zero, suc, ◌+◌, ◌-◌, ◌*◌, ◌/◌, ◌%◌, ◌^◌, Bool, not, ◌||◌, ◌&&◌, Option, none, some, ◌==◌, leb,
  ltb, if◌then◌else◌, Result, ok, err, ◌>>=◌, ◌>>◌, fail_if, ok_or,
}
use Prim.Native.Nat.{min}
use zentra_chain.Prelude.Words.{
  u128_max, u256_max, saturating_add, saturating_mul, checked_add, checked_mul, checked_sub,
}
use zentra_chain.Types.{amm_swap_fee_bps, bps_denominator}

pub data AmmError : Type 0 where
  insufficient_liquidity zero_amount overflow : AmmError

pub record SwapResult : Type 0 where
  pub amount_out : ℕ
  pub fee_captured : ℕ
  pub new_reserve_a : ℕ
  pub new_reserve_b : ℕ

pub record LiquidityPool : Type 0 where
  pub reserve_ztr : ℕ
  pub reserve_zusd : ℕ
  pub total_lp_tokens : ℕ
  pub total_lp_burned : ℕ
  pub total_volume_ztr : ℕ
  pub total_fees_captured : ℕ

-- `LiquidityPool::new`
abbrev pub empty_pool : LiquidityPool
empty_pool = record {
  reserve_ztr = 0;
  reserve_zusd = 0;
  total_lp_tokens = 0;
  total_lp_burned = 0;
  total_volume_ztr = 0;
  total_fees_captured = 0;
}

-- `while y < x { x = y; y = (x + n / x) / 2; }`
unfoldable pub sqrt_loop : ℕ → ℕ → ℕ → ℕ → Option ℕ
sqrt_loop zero n x y = none
sqrt_loop (suc fuel) n x y =
    let rest = sqrt_loop fuel n y (((y + n / y) % 2 ^ 128) / 2) in
    if ltb y x then (if y == 0 then none else rest) else some x

-- The loop's `x` falls in each round, so that more than `n` rounds are not needed.
unfoldable pub integer_sqrt : ℕ → Option ℕ
integer_sqrt n = if n == 0 then some 0 else sqrt_loop (n + 1) n n (((n + 1) % 2 ^ 128) / 2)

-- A swap's amounts: the fee and the output, from the reserve that the input enters and the reserve
-- that the output leaves.
pub record Quote : Type 0 where
  pub fee : ℕ
  pub out : ℕ

-- Lines 106 to 140, and lines 180 to 214 with the two reserves exchanged.
unfoldable pub quote_swap : ℕ → ℕ → ℕ → Result AmmError Quote
quote_swap amount reserve_in reserve_out = do
  fail_if (amount == 0) AmmError.zero_amount
  fail_if ((reserve_in == 0) || (reserve_out == 0)) AmmError.insufficient_liquidity
  scaled ← ok_or (checked_mul u128_max amount amm_swap_fee_bps) AmmError.overflow
  after_fee ← ok_or (checked_sub amount (scaled / bps_denominator)) AmmError.overflow
  numerator ← ok_or (checked_mul u256_max reserve_out after_fee) AmmError.overflow
  denominator ← ok_or (checked_add u256_max reserve_in after_fee) AmmError.overflow
  fail_if (ltb u128_max (numerator / denominator)) AmmError.overflow
  fail_if (numerator / denominator == 0) AmmError.insufficient_liquidity
  fail_if (leb reserve_out (numerator / denominator)) AmmError.insufficient_liquidity
  ok (record { fee = scaled / bps_denominator; out = numerator / denominator })

-- An error leaves the pool as it was: the one update that can fail after a quote is the first.
unfoldable pub swap_ztr_to_zusd : ℕ → LiquidityPool → Result AmmError (SwapResult × LiquidityPool)
swap_ztr_to_zusd ztr_in p = do
  q ← quote_swap ztr_in p.reserve_ztr p.reserve_zusd
  ztr ← ok_or (checked_add u128_max p.reserve_ztr ztr_in) AmmError.overflow
  zusd ← ok_or (checked_sub p.reserve_zusd q.out) AmmError.overflow
  ok (
    record { amount_out = q.out; fee_captured = q.fee; new_reserve_a = ztr; new_reserve_b = zusd },
    record p {
      reserve_ztr = ztr;
      reserve_zusd = zusd;
      total_volume_ztr = saturating_add u128_max p.total_volume_ztr ztr_in;
      total_fees_captured = saturating_add u128_max p.total_fees_captured q.fee;
    },
  )

unfoldable pub swap_zusd_to_ztr : ℕ → LiquidityPool → Result AmmError (SwapResult × LiquidityPool)
swap_zusd_to_ztr zusd_in p = do
  q ← quote_swap zusd_in p.reserve_zusd p.reserve_ztr
  zusd ← ok_or (checked_add u128_max p.reserve_zusd zusd_in) AmmError.overflow
  ztr ← ok_or (checked_sub p.reserve_ztr q.out) AmmError.overflow
  ok (
    record { amount_out = q.out; fee_captured = q.fee; new_reserve_a = zusd; new_reserve_b = ztr },
    record p {
      reserve_ztr = ztr;
      reserve_zusd = zusd;
      total_volume_ztr = saturating_add u128_max p.total_volume_ztr q.out;
      total_fees_captured = saturating_add u128_max p.total_fees_captured q.fee;
    },
  )

-- The outcome of `add_liquidity`, which can also panic.
pub data Minted : Type 0 where
  panicked : Minted
  result : Result AmmError ℕ → Minted

-- `a * t / r`, where the product may overflow and the reserve `r` may be zero.
abbrev share : ℕ → ℕ → ℕ → Minted
share a t r = elim (checked_mul u128_max a t) [
  | none ↦ Minted.result (err AmmError.overflow)
  | some m ↦ if r == 0 then Minted.panicked else Minted.result (ok (m / r))
]

abbrev then_share : Minted → (ℕ → Minted) → Minted
then_share Minted.panicked f = Minted.panicked
then_share (Minted.result (err e)) f = Minted.result (err e)
then_share (Minted.result (ok a)) f = f a

-- The LP tokens of `add_liquidity`: lines 267 to 284.
unfoldable pub lp_for : ℕ → ℕ → LiquidityPool → Minted
lp_for ztr zusd p =
    if p.total_lp_tokens == 0
    then elim (checked_mul u128_max ztr zusd) [
      | none ↦ Minted.result (err AmmError.overflow)
      | some product ↦ elim (integer_sqrt product) [
        | none ↦ Minted.panicked
        | some lp ↦ Minted.result (ok lp)
      ]
    ]
    else then_share (share ztr p.total_lp_tokens p.reserve_ztr) (λ a.
      then_share (share zusd p.total_lp_tokens p.reserve_zusd) (λ b. Minted.result (ok (min a b))))

-- Lines 290 to 301. The fields are written one after the other, and an overflow of a later one
-- leaves the earlier ones written.
unfoldable pub deposit : ℕ → ℕ → ℕ → LiquidityPool → Result AmmError ℕ × LiquidityPool
deposit ztr zusd lp p = elim (checked_add u128_max p.reserve_ztr ztr) [
  | none ↦ (err AmmError.overflow, p)
  | some a ↦
      let p1 = record p { reserve_ztr = a } in
      elim (checked_add u128_max p.reserve_zusd zusd) [
        | none ↦ (err AmmError.overflow, p1)
        | some b ↦
            let p2 = record p1 { reserve_zusd = b } in
            elim (checked_add u128_max p.total_lp_tokens lp) [
              | none ↦ (err AmmError.overflow, p2)
              | some t ↦ (ok lp, record p2 { total_lp_tokens = t })
            ]
      ]
]

unfoldable pub add_liquidity : ℕ → ℕ → LiquidityPool → Minted × LiquidityPool
add_liquidity ztr zusd p =
    if (ztr == 0) || (zusd == 0)
    then (Minted.result (err AmmError.zero_amount), p)
    else elim (lp_for ztr zusd p) [
      | Minted.panicked ↦ (Minted.panicked, p)
      | Minted.result (err e) ↦ (Minted.result (err e), p)
      | Minted.result (ok lp) ↦
          if lp == 0
          then (Minted.result (err AmmError.insufficient_liquidity), p)
          else (let (r, p') = deposit ztr zusd lp p in (Minted.result r, p'))
    ]

-- Lines 357 to 375.
unfoldable pub proportional_lp : ℕ → ℕ → LiquidityPool → ℕ
proportional_lp ztr zusd p =
    let a =
      if ltb 0 p.reserve_ztr
      then saturating_mul u128_max ztr p.total_lp_tokens / p.reserve_ztr
      else 0 in
    let b =
      if ltb 0 p.reserve_zusd
      then saturating_mul u128_max zusd p.total_lp_tokens / p.reserve_zusd
      else 0 in
    if (a == 0) && (b == 0) then 0 else if a == 0 then b else if b == 0 then a else min a b

-- The LP tokens of `inject_protocol_liquidity`: its first two branches compute the same.
unfoldable pub injected_lp : ℕ → ℕ → LiquidityPool → Option ℕ
injected_lp ztr zusd p =
    if p.total_lp_tokens == 0
    then integer_sqrt (saturating_mul u128_max ztr zusd)
    else some (proportional_lp ztr zusd p)

unfoldable pub inject_protocol_liquidity : ℕ → ℕ → LiquidityPool → Option (ℕ × LiquidityPool)
inject_protocol_liquidity ztr zusd p =
    if (ztr == 0) && (zusd == 0) then some (0, p) else elim (injected_lp ztr zusd p) [
      | none ↦ none
      | some lp ↦ some (
        lp,
        record p {
          reserve_ztr = saturating_add u128_max p.reserve_ztr ztr;
          reserve_zusd = saturating_add u128_max p.reserve_zusd zusd;
          total_lp_burned = saturating_add u128_max p.total_lp_burned lp;
        },
      )
    ]

abbrev pub get_price : LiquidityPool → ℕ × ℕ
get_price p = if p.reserve_zusd == 0 then (0, 1) else (p.reserve_ztr, p.reserve_zusd)

abbrev pub get_reserves : LiquidityPool → ℕ × ℕ
get_reserves p = (p.reserve_ztr, p.reserve_zusd)
