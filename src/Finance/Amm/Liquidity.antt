-- ===== src/Finance/Amm/Liquidity.antt =====
-- amm.rs: deposits into the pool and the injections of the protocol.
use zentra_chain.Prelude.{
  ℕ, ◌+◌, ◌*◌, ◌/◌, ◌≤◌, ◌<◌, ◌≡◌, refl, ◌&&◌, none, some, ◌==◌, ok, err, arith, Bool-cases, inl,
  inr,
}
use Prim.Native.Nat.{min}
use native.Mathlib.Nat.{div-mul-le_self, mul-le-mul_right}
use zentra_chain.Prelude.Words.{
  u128_max, checked_add, checked_mul, saturating_add, saturating_mul_exact, saturating_mul-max,
  saturating_add_exact,
}
use zentra_chain.Finance.Amm.{
  LiquidityPool, Minted, lp_for, deposit, add_liquidity, injected_lp, inject_protocol_liquidity,
  proportional_lp,
}
use zentra_chain.Finance.Amm.Sqrt.{IsRoot, integer_sqrt-IsRoot, integer_sqrt-max}

-- What a successful deposit writes.
deposit_lem :
    (ztr zusd lp got : ℕ) (p p' : LiquidityPool)
    → deposit ztr zusd lp p ≡ (ok got, p')
    → (got ≡ lp)
      × (p'.reserve_ztr ≡ p.reserve_ztr + ztr)
      × (p'.reserve_zusd ≡ p.reserve_zusd + zusd)
      × (p'.total_lp_tokens ≡ p.total_lp_tokens + lp)
unfolding deposit checked_add
deposit_lem ztr zusd lp got p p' h =
    (ground (arith, h), ground (arith, h), ground (arith, h), ground (arith, h))

-- The tokens of a deposit into a pool that has tokens are covered by both sides.
lp_for-le :
    (ztr zusd lp : ℕ) (p : LiquidityPool)
    → 0 < p.total_lp_tokens
    → lp_for ztr zusd p ≡ Minted.result (ok lp)
    → (lp * p.reserve_ztr ≤ ztr * p.total_lp_tokens)
      × (lp * p.reserve_zusd ≤ zusd * p.total_lp_tokens)
unfolding lp_for checked_mul
lp_for-le ztr zusd lp p pos h =
    let a = ztr * p.total_lp_tokens / p.reserve_ztr in
    let b = zusd * p.total_lp_tokens / p.reserve_zusd in
    let e : lp ≡ min a b = ground (arith, h) in
    let la : lp ≤ a = omega (arith, e) in
    let lb : lp ≤ b = omega (arith, e) in
    (
      omega (
        arith,
        mul-le-mul_right p.reserve_ztr la,
        div-mul-le_self (ztr * p.total_lp_tokens) p.reserve_ztr,
      ),
      omega (
        arith,
        mul-le-mul_right p.reserve_zusd lb,
        div-mul-le_self (zusd * p.total_lp_tokens) p.reserve_zusd,
      ),
    )

add_liquidity-deposit :
    (ztr zusd lp : ℕ) (p p' : LiquidityPool) (m : Minted)
    → lp_for ztr zusd p ≡ m
    → add_liquidity ztr zusd p ≡ (Minted.result (ok lp), p')
    → (lp_for ztr zusd p ≡ Minted.result (ok lp)) × (deposit ztr zusd lp p ≡ (ok lp, p')) × (0 < lp)
unfolding add_liquidity
add_liquidity-deposit ztr zusd lp p p' Minted.panicked e h = absurd (ground (arith, e))
add_liquidity-deposit ztr zusd lp p p' (Minted.result (err x)) e h = absurd (ground (arith, e))
add_liquidity-deposit ztr zusd lp p p' (Minted.result (ok got)) e h =
    let nonzero : 0 < got = ground (arith, e) in
    let ran : deposit ztr zusd got p ≡ (ok lp, p') = ground (arith, e) in
    let same : lp ≡ got = (deposit_lem ztr zusd got lp p p' ran).0 in
    (rw same e, rw same (rw same at ran), rw same nonzero)

-- A deposit into a pool that has LP tokens mints a positive number of them, and afterwards each
-- token stands for at least as much of both reserves as it did before.
pub add_liquidity-no_dilution :
    (ztr zusd lp : ℕ) (p p' : LiquidityPool)
    → 0 < p.total_lp_tokens
    → add_liquidity ztr zusd p ≡ (Minted.result (ok lp), p')
    → (0 < lp)
      × (p'.total_lp_tokens ≡ p.total_lp_tokens + lp)
      × (p.reserve_ztr * p'.total_lp_tokens ≤ p'.reserve_ztr * p.total_lp_tokens)
      × (p.reserve_zusd * p'.total_lp_tokens ≤ p'.reserve_zusd * p.total_lp_tokens)
add_liquidity-no_dilution ztr zusd lp p p' pos h =
    let (minted, ran, some_lp) =
      add_liquidity-deposit ztr zusd lp p p' (lp_for ztr zusd p) refl h in
    let (same, r1, r2, t) = deposit_lem ztr zusd lp lp p p' ran in
    let (c1, c2) = lp_for-le ztr zusd lp p pos minted in
    (some_lp, t, rw (r1, t) (omega (arith, c1)), rw (r2, t) (omega (arith, c2)))

-- The first deposit, whose amounts have a product below the largest u128, mints the whole square
-- root of that product.
pub add_liquidity-first :
    (ztr zusd lp : ℕ) (p p' : LiquidityPool)
    → p.total_lp_tokens ≡ 0
    → ztr * zusd < u128_max
    → add_liquidity ztr zusd p ≡ (Minted.result (ok lp), p')
    → (IsRoot (ztr * zusd) lp) × (p'.total_lp_tokens ≡ lp)
unfolding lp_for checked_mul
add_liquidity-first ztr zusd lp p p' none_yet fits h =
    let (minted, ran, some_lp) =
      add_liquidity-deposit ztr zusd lp p p' (lp_for ztr zusd p) refl h in
    let (same, r1, r2, t) = deposit_lem ztr zusd lp lp p p' ran in
    let (r, found, root) = integer_sqrt-IsRoot (ztr * zusd) fits in
    let e : lp ≡ r = ground (arith, minted, found) in (rw e root, omega (arith, t))

-- Below the largest u128 there is always a number of tokens.
pub injected_lp-some :
    (ztr zusd : ℕ) (p : LiquidityPool)
    → ztr * zusd < u128_max
    → (lp : ℕ) × (injected_lp ztr zusd p ≡ some lp)
unfolding injected_lp
injected_lp-some ztr zusd p fits = elim (Bool-cases (p.total_lp_tokens == 0)) [
  | inr minted ↦ (proportional_lp ztr zusd p, ground (arith, minted))
  | inl none_yet ↦
      let (r, found, root) = integer_sqrt-IsRoot (ztr * zusd) fits in
      (r, ground (arith, none_yet, found, saturating_mul_exact u128_max ztr zusd))
]

pub inject_protocol_liquidity-some :
    (ztr zusd : ℕ) (p : LiquidityPool)
    → ztr * zusd < u128_max
    → (lp : ℕ) × (p' : LiquidityPool) × (inject_protocol_liquidity ztr zusd p ≡ some (lp, p'))
unfolding inject_protocol_liquidity
inject_protocol_liquidity-some ztr zusd p fits =
    let (lp, found) = injected_lp-some ztr zusd p fits in
    elim (Bool-cases ((ztr == 0) && (zusd == 0))) [
      | inl nothing ↦ (0, p, ground (arith, nothing))
      | inr something ↦ (
        lp,
        record p {
          reserve_ztr = saturating_add u128_max p.reserve_ztr ztr;
          reserve_zusd = saturating_add u128_max p.reserve_zusd zusd;
          total_lp_burned = saturating_add u128_max p.total_lp_burned lp;
        },
        rw (something, found) refl,
      )
    ]

-- An injection whose amounts have a product below the largest u128, and keep both reserves within a
-- u128, does not panic. It adds the amounts to the reserves, leaves the circulating LP tokens alone,
-- and counts the tokens that it returns as burned.
pub inject_protocol_liquidity-total :
    (ztr zusd : ℕ) (p : LiquidityPool)
    → ztr * zusd < u128_max
    → p.reserve_ztr + ztr ≤ u128_max
    → p.reserve_zusd + zusd ≤ u128_max
    → p.total_lp_burned ≤ u128_max
    → (lp : ℕ) × (p' : LiquidityPool) × (inject_protocol_liquidity ztr zusd p ≡ some (lp, p'))
      × (p'.total_lp_tokens ≡ p.total_lp_tokens)
      × (p'.reserve_ztr ≡ p.reserve_ztr + ztr)
      × (p'.reserve_zusd ≡ p.reserve_zusd + zusd)
      × (p'.total_lp_burned ≡ saturating_add u128_max p.total_lp_burned lp)
unfolding inject_protocol_liquidity saturating_add
inject_protocol_liquidity-total ztr zusd p fits fa fb fc =
    elim (Bool-cases ((ztr == 0) && (zusd == 0))) [
      | inl nothing ↦ (
        0,
        p,
        ground (arith, nothing),
        refl,
        ground (arith, nothing),
        ground (arith, nothing),
        ground (arith, nothing),
      )
      | inr something ↦
          let (lp, found) = injected_lp-some ztr zusd p fits in
          (
            lp,
            record p {
              reserve_ztr = saturating_add u128_max p.reserve_ztr ztr;
              reserve_zusd = saturating_add u128_max p.reserve_zusd zusd;
              total_lp_burned = saturating_add u128_max p.total_lp_burned lp;
            },
            rw (something, found) refl,
            refl,
            saturating_add_exact u128_max p.reserve_ztr ztr fa,
            saturating_add_exact u128_max p.reserve_zusd zusd fb,
            refl,
          )
    ]

-- An injection of two amounts whose product is at least the largest u128, into a pool without LP
-- tokens, panics: the product saturates, and its square root divides by zero.
pub inject_protocol_liquidity-panics :
    (ztr zusd : ℕ) (p : LiquidityPool)
    → u128_max ≤ ztr * zusd
    → p.total_lp_tokens ≡ 0
    → inject_protocol_liquidity ztr zusd p ≡ none
unfolding inject_protocol_liquidity injected_lp
inject_protocol_liquidity-panics ztr zusd p big none_yet =
    let full = saturating_mul-max u128_max ztr zusd big in
    ground (arith, full, none_yet, integer_sqrt-max)
