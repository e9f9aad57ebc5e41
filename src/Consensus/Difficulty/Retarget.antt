-- ===== src/Consensus/Difficulty/Retarget.antt =====
-- difficulty.rs, the byte code of `next_difficulty` against the rule on numbers.
use zentra_chain.Prelude.{
  ℕ, ◌+◌, ◌-◌, ◌*◌, ◌/◌, ◌^◌, ◌≡◌, ◌≤◌, ◌<◌, ◌∙◌, refl, ap, Bool, List, [], ◌∷◌, true, false,
  length, sum_by, leb, ltb, lt→ltb, ◌==◌, ◌||◌, not, if◌then◌else◌, value, zeros, is_zero,
  is_zero-value, bytes_le, bytes_le-value, value-zeros, Bytes, Bool-cases, inl, inr, sym, arith,
}
use native.Mathlib.Nat.{div-lt_iff_lt-mul, mod-eq_of_lt}
use zentra_chain.Core.Pow.{target_from_bits}
use zentra_chain.Core.Pow.Compact.{IsTarget, zeros-IsTarget, target_from_bits-IsTarget}
use zentra_chain.Consensus.Difficulty.{
  add_targets, div_target_by_u64, mul_div_target, sum_targets, clamp_target, next_target,
  last_timestamp, genesis_difficulty,
}
use zentra_chain.Consensus.Difficulty.Loops.{
  add_targets-value, length-add_targets, add_targets-Bytes, div_target_by_u64-value,
  length-div_target_by_u64, mul_div, mul_div_target-value, mul_div_target-IsTarget,
}
use zentra_chain.Consensus.Difficulty.Factor.{
  genesis_target, genesis_difficulty-value, mined_at, NoneEasier, scale_down-factor, scale_den,
  retarget,
}

length-sum_targets :
    (acc : List ℕ) (rest : List (ℕ × ℕ)) → length acc ≡ 32 → length (sum_targets acc rest) ≡ 32
unfolding sum_targets
length-sum_targets acc [] size = size
length-sum_targets acc (x ∷ rest) size =
    length-sum_targets (add_targets acc (target_from_bits x.1)) rest
      (length-add_targets acc _ (size ∙ sym (target_from_bits-IsTarget x.1).0) ∙ size)

sum_targets-Bytes : (acc : List ℕ) (rest : List (ℕ × ℕ)) → Bytes acc → Bytes (sum_targets acc rest)
unfolding sum_targets
sum_targets-Bytes acc [] bytes = bytes
sum_targets-Bytes acc (x ∷ rest) bytes =
    sum_targets-Bytes (add_targets acc (target_from_bits x.1)) rest
      (add_targets-Bytes acc (target_from_bits x.1))

-- Where the whole sum fits 256 bits, adding up the targets adds up the numbers.
sum_targets-value :
    (acc : List ℕ) (rest : List (ℕ × ℕ)) (size : length acc ≡ 32)
    → value acc + sum_by mined_at rest < 2 ^ 256
    → value (sum_targets acc rest) ≡ value acc + sum_by mined_at rest
unfolding sum_targets
sum_targets-value acc [] size fits = omega arith
sum_targets-value acc (x ∷ rest) size fits =
    let target : List ℕ = target_from_bits x.1 in
    let shape : length target ≡ 32 = (target_from_bits-IsTarget x.1).0 in
    let one : value (add_targets acc target) ≡ value acc + value target =
      add_targets-value acc target size shape ∙ mod-eq_of_lt (omega arith) in
    let grown : length (add_targets acc target) ≡ 32 =
      length-add_targets acc target (size ∙ sym shape) ∙ size in
    omega (arith, one, sum_targets-value (add_targets acc target) rest grown (omega (arith, one)))

sum_by-NoneEasier :
    (rest : List (ℕ × ℕ)) → NoneEasier rest → sum_by mined_at rest ≤ length rest * genesis_target
sum_by-NoneEasier [] h = omega arith
sum_by-NoneEasier (x ∷ rest) h = omega (arith, h.0, sum_by-NoneEasier rest h.1)

pub clamp_target-IsTarget : (t : List ℕ) → IsTarget t → IsTarget (clamp_target t)
unfolding clamp_target
clamp_target-IsTarget t shape =
    let easiest : List ℕ = target_from_bits genesis_difficulty in
    elim (Bool-cases (bytes_le t easiest)) [
      | inr over ↦ rw over (target_from_bits-IsTarget genesis_difficulty)
      | inl under ↦ elim (Bool-cases (is_zero t)) [
        | inl none_left ↦ rw (under, none_left) (target_from_bits-IsTarget genesis_difficulty)
        | inr some_left ↦ rw (under, some_left) shape
      ]
    ]

bytes_le-genesis :
    (t : List ℕ)
    → IsTarget t
    → bytes_le t (target_from_bits genesis_difficulty) ≡ leb (value t) genesis_target
bytes_le-genesis t shape =
    let easiest : IsTarget (target_from_bits genesis_difficulty) =
      target_from_bits-IsTarget genesis_difficulty in
    bytes_le-value t _ (shape.0 ∙ sym easiest.0) shape.1 easiest.1
    ∙ ap (leb (value t)) genesis_difficulty-value

-- The two tests of the clamp on numbers.
clamp_cases :
    (easiest t : List ℕ) (within empty : Bool)
    → within ≡ leb (value t) genesis_target
    → empty ≡ (value t == 0)
    → value easiest ≡ genesis_target
    → value (if not within then easiest else if empty then easiest else t)
      ≡ (if ltb genesis_target (value t) || value t == 0 then genesis_target else value t)
clamp_cases easiest t true true w e g = ground (arith, w, e, g)
clamp_cases easiest t true false w e g = ground (arith, w, e, g)
clamp_cases easiest t false empty w e g = ground (arith, w, e, g)

clamp_target-value :
    (t : List ℕ) (shape : IsTarget t)
    → value (clamp_target t)
      ≡ (if ltb genesis_target (value t) || value t == 0 then genesis_target else value t)
unfolding clamp_target
clamp_target-value t shape =
    clamp_cases (target_from_bits genesis_difficulty) t _ _ (bytes_le-genesis t shape)
      (is_zero-value t) genesis_difficulty-value

average_fits :
    (total n : ℕ)
    → 0 < n
    → n ≤ 12
    → total ≤ n * genesis_target
    → (total / n * 100 < 2 ^ 256) × (total < 2 ^ 256) × (total / n ≤ genesis_target)
average_fits total n positive few bound =
    let below : total / n < genesis_target + 1 = (div-lt_iff_lt-mul positive).1 (omega arith) in
    (omega (arith, below), omega arith, omega (arith, below))

-- The average of the targets, as the code takes it.
average-value :
    (rest : List (ℕ × ℕ))
    → 0 < length rest
    → length rest ≤ 12
    → NoneEasier rest
    → value (div_target_by_u64 (sum_targets (zeros 32) rest) (length rest))
      ≡ sum_by mined_at rest / length rest
average-value rest positive few sound =
    let bound =
      average_fits (sum_by mined_at rest) (length rest) positive few
        (sum_by-NoneEasier rest sound) in
    let start : value (zeros 32) ≡ 0 = value-zeros 32 in
    div_target_by_u64-value _ (length rest) (sum_targets-Bytes (zeros 32) rest zeros-IsTarget.1)
      positive
    ∙ ap (λ (t : ℕ). t / length rest)
        (sum_targets-value (zeros 32) rest zeros-IsTarget.0 (omega (arith, start, bound.1))
          ∙ ap (λ (t : ℕ). t + sum_by mined_at rest) start
          ∙ omega arith)

mul_div-fits : (t num den : ℕ) → num ≡ 100 → t * 100 < 2 ^ 256 → mul_div t num den ≡ t * 100 / den
unfolding mul_div
mul_div-fits t num den hundred fits =
    rw hundred (let small : ltb (t * 100) (2 ^ 256) ≡ true = lt→ltb _ _ fits in rw small refl)

-- Steps 6 and 7 on an average whose product with 100 fits.
adjusted-value :
    (avg : List ℕ) (num den : ℕ) {t d : ℕ}
    → length avg ≡ 32
    → value avg ≡ t
    → num ≡ 100
    → den ≡ d
    → 0 < den
    → t * 100 < 2 ^ 256
    → value (clamp_target (mul_div_target avg num den)) ≡ (
        if ltb genesis_target (t * 100 / d) || t * 100 / d == 0
        then genesis_target
        else t * 100 / d)
adjusted-value avg num den {t} {d} size average hundred same positive fits =
    let product : value (mul_div_target avg num den) ≡ t * 100 / d =
      mul_div_target-value avg num den size positive
      ∙ mul_div-fits (value avg) num den hundred (omega (arith, average))
      ∙ (rw (average, same) refl) in
    rw (← product)
      (clamp_target-value (mul_div_target avg num den) (mul_div_target-IsTarget avg num den size))

-- With at most twelve intervals, none of them mined easier than genesis, the byte arithmetic of
-- `next_difficulty` computes the rule on numbers.
pub next_target-refines :
    (first : ℕ × ℕ) (rest : List (ℕ × ℕ)) (some_interval : 0 < length rest)
    (window : length rest ≤ 12) (sound : NoneEasier rest)
    → value (next_target 60_000 first rest)
      ≡ retarget (sum_by mined_at rest) (length rest) (last_timestamp first rest - first.0)
unfolding next_target retarget
next_target-refines first rest some_interval window sound =
    let factor =
      scale_down-factor (length rest) (last_timestamp first rest - first.0) some_interval in
    adjusted-value (div_target_by_u64 (sum_targets (zeros 32) rest) (length rest)) _ _
      (length-div_target_by_u64 _ (length rest)
        ∙ length-sum_targets (zeros 32) rest zeros-IsTarget.0)
      (average-value rest some_interval window sound) factor.0
      (scale_den (length rest) (last_timestamp first rest - first.0) some_interval)
      (omega (arith, factor.1))
      (average_fits (sum_by mined_at rest) (length rest) some_interval window
        (sum_by-NoneEasier rest sound)).0

pub next_target-IsTarget :
    (block_time : ℕ) (first : ℕ × ℕ) (rest : List (ℕ × ℕ))
    → IsTarget (next_target block_time first rest)
unfolding next_target
next_target-IsTarget block_time first rest = clamp_target-IsTarget _ (
    mul_div_target-IsTarget (div_target_by_u64 (sum_targets (zeros 32) rest) (length rest)) _ _ (
      length-div_target_by_u64 _ (length rest)
      ∙ length-sum_targets (zeros 32) rest zeros-IsTarget.0))
