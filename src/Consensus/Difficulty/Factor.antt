-- ===== src/Consensus/Difficulty/Factor.antt =====
-- difficulty.rs, the retargeting rule on numbers: the factor of a step and the bounds of its result.
use zentra_chain.Prelude.{
  ℕ, ◌+◌, ◌*◌, ◌/◌, ◌^◌, ◌≡◌, ◌≤◌, ◌<◌, List, true, All, ltb, lt→ltb, ◌==◌, ◌||◌, if◌then◌else◌,
  value, arith,
}
use Prim.Native.Nat.{min, max}
use native.Mathlib.Nat.{
  le-div_iff_mul-le, div-lt_iff_lt-mul, div-eq_of_lt-le, mul-le-mul_right, lt-mul-div-succ,
  mul-div-le,
}
use zentra_chain.Core.Pow.{target_from_bits}
use zentra_chain.Core.Pow.Compact.{target_from_bits-value, compact}
use zentra_chain.Consensus.Difficulty.{clamp_timespan, scale_down, genesis_difficulty}

-- The easiest target, as a number.
abbrev pub genesis_target : ℕ
genesis_target = 0xfffff * 256 ^ 28

pub genesis_difficulty-value : value (target_from_bits genesis_difficulty) ≡ genesis_target
unfolding compact
genesis_difficulty-value = target_from_bits-value 31 0xfffff (omega arith) (omega arith)

-- The target that a recorded block was mined at, as a number.
abbrev pub mined_at : ℕ × ℕ → ℕ
mined_at x = value (target_from_bits x.1)

-- No recorded block was easier than genesis.
abbrev pub NoneEasier : List (ℕ × ℕ) → Type 0
NoneEasier history = All (λ x. mined_at x ≤ genesis_target) history

scale_bounds :
    (n span : ℕ)
    → 0 < n
    → n * 20_000 ≤ span
    → span ≤ n * 180_000
    → ((scale_down span (n * 60_000)).0 ≡ 100)
      × (33 ≤ (scale_down span (n * 60_000)).1)
      × ((scale_down span (n * 60_000)).1 ≤ 300)
unfolding scale_down
scale_bounds n span positive low high =
    let scale : 0 < span / 100 = omega arith in
    let above : ltb 100 span ≡ true = lt→ltb 100 span (omega arith) in
    let num : span / (span / 100) ≡ 100 =
      div-eq_of_lt-le (span / 100) (omega arith) (omega arith) in
    let least : 33 ≤ n * 60_000 / (span / 100) = (le-div_iff_mul-le scale).1 (omega arith) in
    let most : n * 60_000 / (span / 100) < 301 = (div-lt_iff_lt-mul scale).1 (omega arith) in
    rw above (num, omega arith, omega arith)

scale_den_of :
    (n span : ℕ)
    → 0 < n
    → n * 20_000 ≤ span
    → span ≤ n * 180_000
    → (scale_down span (n * 60_000)).1 ≡ n * 60_000 / (span / 100)
unfolding scale_down
scale_den_of n span positive low high =
    let above : ltb 100 span ≡ true = lt→ltb 100 span (omega arith) in
    let scale : 0 < span / 100 = omega arith in
    let least : 33 ≤ n * 60_000 / (span / 100) = (le-div_iff_mul-le scale).1 (omega arith) in
    rw above (omega (arith, least))

-- The clamped timespan scales the average target by 100 / d with d between 33 and 300, whatever the
-- number of intervals and the time that they took.
pub scale_down-factor :
    (n actual : ℕ) (some_interval : 0 < n)
    → ((scale_down (clamp_timespan actual (n * 60_000)) (n * 60_000)).0 ≡ 100)
      × (33 ≤ (scale_down (clamp_timespan actual (n * 60_000)) (n * 60_000)).1)
      × ((scale_down (clamp_timespan actual (n * 60_000)) (n * 60_000)).1 ≤ 300)
unfolding clamp_timespan
scale_down-factor n actual some_interval =
    scale_bounds n (min (max actual (n * 60_000 / 3)) (n * 60_000 * 3)) some_interval (omega arith)
      (omega arith)

-- The retargeting rule on numbers: the average of `n` targets that add up to `total`, scaled by the
-- clamped timespan over the wanted one, and at most the easiest target; the easiest where that is 0.
unfoldable pub retarget : ℕ → ℕ → ℕ → ℕ
retarget total n actual =
    let span = min (max actual (n * 20_000)) (n * 180_000) in
    let adjusted = total / n * 100 / (n * 60_000 / (span / 100)) in
    if ltb genesis_target adjusted || adjusted == 0 then genesis_target else adjusted

pick_bounds :
    (a : ℕ)
    → (0 < (if ltb genesis_target a || a == 0 then genesis_target else a))
      × ((if ltb genesis_target a || a == 0 then genesis_target else a) ≤ genesis_target)
pick_bounds a = ground arith

-- The rule's target is positive and never easier than genesis.
pub retarget_bounds :
    (total n actual : ℕ)
    → (0 < retarget total n actual) × (retarget total n actual ≤ genesis_target)
unfolding retarget
retarget_bounds total n actual =
    pick_bounds
      (total / n * 100 / (n * 60_000 / (min (max actual (n * 20_000)) (n * 180_000) / 100)))

pub scale_den :
    (n actual : ℕ)
    → 0 < n
    → (scale_down (clamp_timespan actual (n * 60_000)) (n * 60_000)).1
      ≡ n * 60_000 / (min (max actual (n * 20_000)) (n * 180_000) / 100)
unfolding scale_down clamp_timespan
scale_den n actual positive =
    let low : n * 60_000 / 3 ≡ n * 20_000 = omega arith in
    let high : n * 60_000 * 3 ≡ n * 180_000 = omega arith in
    rw (low, high)
      (scale_den_of n (min (max actual (n * 20_000)) (n * 180_000)) positive (omega arith)
        (omega arith))

-- A quotient and its product with the divisor, for divisors between 33 and 300.
quotient_swing :
    (avg d : ℕ)
    → 33 ≤ d
    → d ≤ 300
    → (avg * 100 < 300 * (avg * 100 / d + 1)) × (33 * (avg * 100 / d) ≤ avg * 100)
quotient_swing avg d low high =
    let positive : 0 < d = omega arith in
    let above : avg * 100 < d * (avg * 100 / d + 1) = lt-mul-div-succ (avg * 100) positive in
    let wide : d * (avg * 100 / d + 1) ≤ 300 * (avg * 100 / d + 1) = mul-le-mul_right _ high in
    let narrow : 33 * (avg * 100 / d) ≤ d * (avg * 100 / d) = mul-le-mul_right _ low in
    (omega (arith, above, wide), omega (arith, narrow, mul-div-le (avg * 100) d))

pick_swing :
    (avg a : ℕ)
    → 3 ≤ avg
    → avg ≤ genesis_target
    → avg * 100 < 300 * (a + 1)
    → 33 * a ≤ avg * 100
    → (avg < 3 * ((if ltb genesis_target a || a == 0 then genesis_target else a) + 1))
      × (33 * (if ltb genesis_target a || a == 0 then genesis_target else a) ≤ 100 * avg)
pick_swing avg a large within above below = ground arith

-- One step moves the average target down to a third of it at most, and up to 100/33 of it at most
-- where the average is 3 or more.
pub retarget_swing :
    (total n actual : ℕ) (some_interval : 0 < n) (large : 3 ≤ total / n)
    → (total / n ≤ genesis_target)
    → (total / n < 3 * (retarget total n actual + 1))
      × (33 * retarget total n actual ≤ 100 * (total / n))
unfolding retarget
retarget_swing total n actual some_interval large within =
    let factor = scale_down-factor n actual some_interval in
    let d : ℕ = n * 60_000 / (min (max actual (n * 20_000)) (n * 180_000) / 100) in
    let same : (scale_down (clamp_timespan actual (n * 60_000)) (n * 60_000)).1 ≡ d =
      scale_den n actual some_interval in
    let swing =
      quotient_swing (total / n) d (omega (arith, factor.1, same))
        (omega (arith, factor.2, same)) in
    pick_swing (total / n) (total / n * 100 / d) large within swing.0 swing.1
