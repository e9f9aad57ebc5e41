-- ===== src/Finance/Amm/Swaps.antt =====
-- amm.rs: the swaps, and the product of the reserves. The two directions are one quote with the
-- reserves exchanged.
use zentra_chain.Prelude.{
  ℕ, ◌+◌, ◌-◌, ◌*◌, ◌/◌, ◌≤◌, ◌<◌, ◌≡◌, refl, ◌||◌, ◌==◌, ltb, leb, ok, fail_if-ok, ok_or,
  >>=-eq-ok, arith,
}
use native.Mathlib.Nat.{le_of_mul-le-mul_right, mul-div-le, mul-le-mul_left}
use zentra_chain.Prelude.Words.{u128_max, u256_max, checked_add, checked_mul, checked_sub}
use zentra_chain.Types.{amm_swap_fee_bps, bps_denominator}
use zentra_chain.Finance.Amm.{
  AmmError, Quote, SwapResult, LiquidityPool, quote_swap, swap_ztr_to_zusd, swap_zusd_to_ztr,
}

-- What a quote promises.
pub record Fair (amount reserve_in reserve_out : ℕ) (q : Quote) : Type 0 where
  pub positive : 0 < q.out
  pub bounded : q.out < reserve_out
  pub charged : q.fee ≡ amount * amm_swap_fee_bps / bps_denominator
  pub product : reserve_in * reserve_out ≤ (reserve_in + amount) * (reserve_out - q.out)

-- The output is paid for by the input after the fee. `r` is what the output leaves in its reserve.
product_rest :
    (amount paid a r out : ℕ)
    → paid ≤ amount
    → out * (a + paid) ≤ (r + out) * paid
    → a * (r + out) ≤ (a + amount) * r
product_rest amount paid a r out le covered = omega (arith, mul-le-mul_left r le, covered)

product_grows :
    (amount paid a b out : ℕ)
    → paid ≤ amount
    → out ≤ b
    → out * (a + paid) ≤ b * paid
    → a * b ≤ (a + amount) * (b - out)
product_grows amount paid a b out le small covered =
    let e : (b - out) + out ≡ b = omega arith in
    rw e at (product_rest amount paid a (b - out) out le (rw e covered))

pub quote_swap-Fair :
    (amount reserve_in reserve_out : ℕ) (q : Quote)
    → quote_swap amount reserve_in reserve_out ≡ ok q
    → Fair amount reserve_in reserve_out q
unfolding quote_swap checked_mul checked_sub checked_add
quote_swap-Fair amount a b q h =
    let (nonzero, h1) = fail_if-ok (amount == 0) AmmError.zero_amount _ h in
    let (filled, h2) = fail_if-ok ((a == 0) || (b == 0)) AmmError.insufficient_liquidity _ h1 in
    let (scaled, e3, h3) =
      >>=-eq-ok (ok_or (checked_mul u128_max amount amm_swap_fee_bps) AmmError.overflow) _ h2 in
    let (paid, e4, h4) =
      >>=-eq-ok (ok_or (checked_sub amount (scaled / bps_denominator)) AmmError.overflow) _ h3 in
    let (num, e5, h5) = >>=-eq-ok (ok_or (checked_mul u256_max b paid) AmmError.overflow) _ h4 in
    let (den, e6, h6) = >>=-eq-ok (ok_or (checked_add u256_max a paid) AmmError.overflow) _ h5 in
    let (in_range, h7) = fail_if-ok (ltb u128_max (num / den)) AmmError.overflow _ h6 in
    let (some_out, h8) = fail_if-ok (num / den == 0) AmmError.insufficient_liquidity _ h7 in
    let (small, h9) = fail_if-ok (leb b (num / den)) AmmError.insufficient_liquidity _ h8 in
    let scaled_lem : scaled ≡ amount * amm_swap_fee_bps = ground (arith, e3) in
    let paid_lem : paid ≡ amount - scaled / bps_denominator = ground (arith, e4) in
    let num_lem : num ≡ b * paid = ground (arith, e5) in
    let den_lem : den ≡ a + paid = ground (arith, e6) in
    let out_lem : q.out ≡ num / den = ground (arith, h9) in
    let fee_lem : q.fee ≡ scaled / bps_denominator = ground (arith, h9) in
    record {
      positive = ground (arith, out_lem, some_out);
      bounded = ground (arith, out_lem, small);
      charged = rw (fee_lem, scaled_lem) refl;
      product =
          product_grows amount paid a b q.out (omega (arith, paid_lem))
            (ground (arith, out_lem, small))
            (rw out_lem (rw (num_lem, den_lem) (omega (arith, mul-div-le (b * paid) (a + paid)))));
    }

-- An executed swap from ZTR to zUSD does not lower the product of the reserves; it pays out a
-- positive amount below the zUSD reserve, takes the input into the other reserve, and reports the
-- reserves it leaves and a fee of 0.2% rounded down.
pub swap_ztr_to_zusd-keeps_product :
    (ztr_in : ℕ) (p p' : LiquidityPool) (r : SwapResult)
    → swap_ztr_to_zusd ztr_in p ≡ ok (r, p')
    → (p.reserve_ztr * p.reserve_zusd ≤ p'.reserve_ztr * p'.reserve_zusd)
      × (p'.reserve_ztr ≡ p.reserve_ztr + ztr_in)
      × (p'.reserve_zusd + r.amount_out ≡ p.reserve_zusd)
      × (0 < r.amount_out)
      × (0 < p'.reserve_zusd)
      × (r.fee_captured ≡ ztr_in * amm_swap_fee_bps / bps_denominator)
      × (r.new_reserve_a ≡ p'.reserve_ztr)
      × (r.new_reserve_b ≡ p'.reserve_zusd)
unfolding swap_ztr_to_zusd checked_add checked_sub
swap_ztr_to_zusd-keeps_product ztr_in p p' r h =
    let (q, quoted, h1) = >>=-eq-ok (quote_swap ztr_in p.reserve_ztr p.reserve_zusd) _ h in
    let fair = quote_swap-Fair ztr_in p.reserve_ztr p.reserve_zusd q quoted in
    let (ztr, e2, h2) =
      >>=-eq-ok (ok_or (checked_add u128_max p.reserve_ztr ztr_in) AmmError.overflow) _ h1 in
    let (zusd, e3, h3) =
      >>=-eq-ok (ok_or (checked_sub p.reserve_zusd q.out) AmmError.overflow) _ h2 in
    let ztr_lem : ztr ≡ p.reserve_ztr + ztr_in = ground (arith, e2) in
    let zusd_lem : zusd ≡ p.reserve_zusd - q.out = ground (arith, e3) in
    let z1 : p'.reserve_ztr ≡ p.reserve_ztr + ztr_in = ground (arith, h3) in
    let z2 : p'.reserve_zusd ≡ p.reserve_zusd - q.out = ground (arith, h3) in
    let z3 : r.amount_out ≡ q.out = ground (arith, h3) in
    (
      rw (z1, z2) fair.product,
      z1,
      omega (arith, z2, z3, fair.bounded),
      omega (arith, z3, fair.positive),
      omega (arith, z2, fair.bounded),
      ground (arith, h3, fair.charged),
      ground (arith, h3),
      ground (arith, h3),
    )

-- An executed swap from zUSD to ZTR does not lower the product of the reserves; it pays out a
-- positive amount below the ZTR reserve, and takes the input into the other reserve.
pub swap_zusd_to_ztr-keeps_product :
    (zusd_in : ℕ) (p p' : LiquidityPool) (r : SwapResult)
    → swap_zusd_to_ztr zusd_in p ≡ ok (r, p')
    → (p.reserve_zusd * p.reserve_ztr ≤ p'.reserve_zusd * p'.reserve_ztr)
      × (p'.reserve_zusd ≡ p.reserve_zusd + zusd_in)
      × (p'.reserve_ztr + r.amount_out ≡ p.reserve_ztr)
      × (0 < r.amount_out)
      × (0 < p'.reserve_ztr)
unfolding swap_zusd_to_ztr checked_add checked_sub
swap_zusd_to_ztr-keeps_product zusd_in p p' r h =
    let (q, quoted, h1) = >>=-eq-ok (quote_swap zusd_in p.reserve_zusd p.reserve_ztr) _ h in
    let fair = quote_swap-Fair zusd_in p.reserve_zusd p.reserve_ztr q quoted in
    let (zusd, e2, h2) =
      >>=-eq-ok (ok_or (checked_add u128_max p.reserve_zusd zusd_in) AmmError.overflow) _ h1 in
    let (ztr, e3, h3) =
      >>=-eq-ok (ok_or (checked_sub p.reserve_ztr q.out) AmmError.overflow) _ h2 in
    let zusd_lem : zusd ≡ p.reserve_zusd + zusd_in = ground (arith, e2) in
    let ztr_lem : ztr ≡ p.reserve_ztr - q.out = ground (arith, e3) in
    let z1 : p'.reserve_zusd ≡ p.reserve_zusd + zusd_in = ground (arith, h3) in
    let z2 : p'.reserve_ztr ≡ p.reserve_ztr - q.out = ground (arith, h3) in
    let z3 : r.amount_out ≡ q.out = ground (arith, h3) in
    (
      rw (z1, z2) fair.product,
      z1,
      omega (arith, z2, z3, fair.bounded),
      omega (arith, z3, fair.positive),
      omega (arith, z2, fair.bounded),
    )

-- The product of the reserves bounds what comes back: `b` stands again, so at least `a` must.
returned_le :
    (a b k l back spent : ℕ)
    → 0 < b
    → a * b ≤ k * l
    → l * k ≤ b * back
    → back + spent ≡ k
    → a + spent ≤ k
returned_le a b k l back spent pos first second split =
    let le : a * b ≤ back * b = omega arith in
    let small : a ≤ back = le_of_mul-le-mul_right le pos in omega arith

-- Trading ZTR for zUSD and all of that zUSD back for ZTR never returns more ZTR than was put in.
pub round_trip-no_gain :
    (ztr_in : ℕ) (p p1 p2 : LiquidityPool) (r1 r2 : SwapResult)
    → swap_ztr_to_zusd ztr_in p ≡ ok (r1, p1)
    → swap_zusd_to_ztr r1.amount_out p1 ≡ ok (r2, p2)
    → r2.amount_out ≤ ztr_in
round_trip-no_gain ztr_in p p1 p2 r1 r2 there back =
    let (k1, in1, out1, pos1, left1, _, _, _) =
      swap_ztr_to_zusd-keeps_product ztr_in p p1 r1 there in
    let (k2, in2, out2, pos2, left2) = swap_zusd_to_ztr-keeps_product r1.amount_out p1 p2 r2 back in
    let whole : p2.reserve_zusd ≡ p.reserve_zusd = omega arith in
    let enough =
      returned_le p.reserve_ztr p.reserve_zusd p1.reserve_ztr p1.reserve_zusd p2.reserve_ztr
        r2.amount_out (omega arith) k1 (rw whole at k2) out2 in
    omega arith
