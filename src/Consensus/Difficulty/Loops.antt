-- ===== src/Consensus/Difficulty/Loops.antt =====
-- difficulty.rs, the byte loops against addition, multiplication and division of the numbers that the
-- bytes stand for.
use zentra_chain.Prelude.{
  ℕ, suc, ◌+◌, ◌*◌, ◌/◌, ◌%◌, ◌^◌, ◌≡◌, ◌<◌, ◌∙◌, true, false, List, [], ◌∷◌, inl, inr, ap, refl,
  sym, length, ltb, ◌==◌, if◌then◌else◌, Bool-cases, value, Bytes, zeros, value-lt, arith,
}
use zentra_chain.Prelude.Words.{u256_max}
use native.Mathlib.Nat.{
  pow-suc, mod-lt, div-eq_of_lt, mod-add-div', add-mul-div_right, div-lt_iff_lt-mul,
  add-mul-mod_self_right, mod-eq_of_lt,
}
use zentra_chain.Core.Pow.Compact.{IsTarget}
use zentra_chain.Consensus.Difficulty.{
  add_loop, add_targets, div_loop, div_target_by_u64, mul_loop, all_ones, mul_div_target,
}

-- One byte of a loop from the right: the carry goes up, the low byte stays.
carry_step :
    (val p vr goal : ℕ) → val * p + vr ≡ goal → (val % 256) * p + vr + val / 256 * (p * 256) ≡ goal
carry_step val p vr goal h =
    let split : val * p ≡ (val / 256 * 256 + val % 256) * p = ap (λ (t : ℕ). t * p) (omega arith) in
    omega (arith, split)

length-add_loop : (xs ys : List ℕ) → length xs ≡ length ys → length (add_loop xs ys).1 ≡ length xs
unfolding add_loop
length-add_loop [] ys h = refl
length-add_loop (a ∷ xs) [] h = absurd (omega arith)
length-add_loop (a ∷ xs) (b ∷ ys) h = ap suc (length-add_loop xs ys (omega arith))

add_loop-value :
    (xs ys : List ℕ) (same : length xs ≡ length ys)
    → value (add_loop xs ys).1 + (add_loop xs ys).0 * 256 ^ length xs ≡ value xs + value ys
unfolding add_loop value
add_loop-value [] [] same = refl
add_loop-value [] (b ∷ ys) same = absurd (omega arith)
add_loop-value (a ∷ xs) [] same = absurd (omega arith)
add_loop-value (a ∷ xs) (b ∷ ys) same =
    let lengths : length xs ≡ length ys = omega arith in
    rw (length-add_loop xs ys lengths, pow-suc 256 (length xs))
      (carry_step _ (256 ^ length xs) _ _
        (rw (← lengths) (omega (arith, add_loop-value xs ys lengths))))

add_loop-Bytes : (xs ys : List ℕ) → Bytes (add_loop xs ys).1
unfolding add_loop
add_loop-Bytes [] ys = tt
add_loop-Bytes (a ∷ xs) [] = tt
add_loop-Bytes (a ∷ xs) (b ∷ ys) = (omega arith, add_loop-Bytes xs ys)

split_at : (p r carry total : ℕ) → r < p → r + carry * p ≡ total → total % p ≡ r
split_at p r carry total h e = rw (← e, add-mul-mod_self_right) (mod-eq_of_lt h)

-- The sum of two targets wraps at 256 bits.
pub add_targets-value :
    (xs ys : List ℕ) (left : length xs ≡ 32) (right : length ys ≡ 32)
    → value (add_targets xs ys) ≡ (value xs + value ys) % 2 ^ 256
unfolding add_targets
add_targets-value xs ys left right = sym (
    split_at (2 ^ 256) _ (add_loop xs ys).0 _
      (rw (length-add_loop xs ys (left ∙ sym right), left) at
        (value-lt (add_loop xs ys).1 (add_loop-Bytes xs ys)))
      (rw left at (add_loop-value xs ys (left ∙ sym right))))

pub length-add_targets :
    (xs ys : List ℕ) → length xs ≡ length ys → length (add_targets xs ys) ≡ length xs
unfolding add_targets
length-add_targets = length-add_loop

pub add_targets-Bytes : (xs ys : List ℕ) → Bytes (add_targets xs ys)
unfolding add_targets
add_targets-Bytes = add_loop-Bytes

pub length-div_loop : (div rem : ℕ) (bs : List ℕ) → length (div_loop div rem bs) ≡ length bs
unfolding div_loop
length-div_loop div rem [] = refl
length-div_loop div rem (b ∷ bs) = ap suc (length-div_loop div ((rem * 256 + b) % div) bs)

pub div_loop-Bytes : (div rem : ℕ) (bs : List ℕ) → Bytes (div_loop div rem bs)
unfolding div_loop
div_loop-Bytes div rem [] = tt
div_loop-Bytes div rem (b ∷ bs) = (omega arith, div_loop-Bytes div ((rem * 256 + b) % div) bs)

-- One digit of a long division.
div_step :
    (d val p low : ℕ)
    → 0 < d
    → val / d < 256
    → (val / d % 256) * p + (val % d * p + low) / d ≡ (val * p + low) / d
div_step d val p low hd hq =
    let split : val * p + low ≡ val % d * p + low + val / d * p * d =
      omega (arith, ap (λ (t : ℕ). t * p) (mod-add-div' val d)) in
    rw (mod-eq_of_lt hq, split, add-mul-div_right (val % d * p + low) (val / d * p) hd)
      (omega arith)

-- Long division by a positive number, a byte at a time, is the quotient.
pub div_loop-value :
    (d rem : ℕ) (bs : List ℕ) (bytes : Bytes bs) (small : rem < d)
    → value (div_loop d rem bs) ≡ (rem * 256 ^ length bs + value bs) / d
unfolding div_loop value
div_loop-value d rem [] bytes small = sym (div-eq_of_lt (omega arith))
div_loop-value d rem (b ∷ bs) bytes small =
    let positive : 0 < d = omega arith in
    let digit : (rem * 256 + b) / d < 256 =
      (div-lt_iff_lt-mul positive).1 (omega (arith, bytes.0)) in
    let total : rem * 256 ^ suc (length bs) + (b * 256 ^ length bs + value bs)
        ≡ (rem * 256 + b) * 256 ^ length bs + value bs =
      rw (pow-suc 256 (length bs)) (omega arith) in
    let rest : value (div_loop d ((rem * 256 + b) % d) bs)
        ≡ ((rem * 256 + b) % d * 256 ^ length bs + value bs) / d =
      div_loop-value d ((rem * 256 + b) % d) bs bytes.1 (mod-lt _ positive) in
    rw (length-div_loop d ((rem * 256 + b) % d) bs, rest, total)
      (div_step d (rem * 256 + b) (256 ^ length bs) (value bs) positive digit)

div_loop_zero-value :
    (d : ℕ) (bs : List ℕ) → Bytes bs → 0 < d → value (div_loop d 0 bs) ≡ value bs / d
div_loop_zero-value d bs bytes positive =
    div_loop-value d 0 bs bytes positive ∙ ap (λ (t : ℕ). t / d) (omega arith)

-- Dividing a target divides the number; by zero it leaves the target.
pub div_target_by_u64-value :
    (bs : List ℕ) (d : ℕ) (bytes : Bytes bs) (positive : 0 < d)
    → value (div_target_by_u64 bs d) ≡ value bs / d
unfolding div_target_by_u64
div_target_by_u64-value bs d bytes positive =
    let other : (d == 0) ≡ false = ground arith in
    rw other (div_loop_zero-value d bs bytes positive)

pub length-div_target_by_u64 : (bs : List ℕ) (d : ℕ) → length (div_target_by_u64 bs d) ≡ length bs
unfolding div_target_by_u64
length-div_target_by_u64 bs d = ground (arith, length-div_loop d 0 bs)

pub div_target_by_u64-Bytes : (bs : List ℕ) (d : ℕ) → Bytes bs → Bytes (div_target_by_u64 bs d)
unfolding div_target_by_u64
div_target_by_u64-Bytes bs d bytes = elim (Bool-cases (d == 0)) [
  | inl zero_d ↦ rw zero_d bytes
  | inr other ↦ rw other (div_loop-Bytes d 0 bs)
]

length-mul_loop : (num : ℕ) (bs : List ℕ) → length (mul_loop num bs).1 ≡ length bs
unfolding mul_loop
length-mul_loop num [] = refl
length-mul_loop num (b ∷ bs) = ap suc (length-mul_loop num bs)

mul_loop-Bytes : (num : ℕ) (bs : List ℕ) → Bytes (mul_loop num bs).1
unfolding mul_loop
mul_loop-Bytes num [] = tt
mul_loop-Bytes num (b ∷ bs) = (omega arith, mul_loop-Bytes num bs)

mul_loop-value :
    (num : ℕ) (bs : List ℕ)
    → value (mul_loop num bs).1 + (mul_loop num bs).0 * 256 ^ length bs ≡ value bs * num
unfolding mul_loop value
mul_loop-value num [] = omega arith
mul_loop-value num (b ∷ bs) =
    rw (length-mul_loop num bs, pow-suc 256 (length bs))
      (carry_step _ (256 ^ length bs) _ _ (omega (arith, mul_loop-value num bs)))

-- `target * num / den` on the numbers, at the largest 256-bit number where the product does not fit.
unfoldable pub mul_div : ℕ → ℕ → ℕ → ℕ
mul_div t num den = if ltb (t * num) (2 ^ 256) then t * num / den else u256_max

mul_div_parts :
    (den carry low product : ℕ) (result : List ℕ)
    → low < 2 ^ 256
    → low + carry * 2 ^ 256 ≡ product
    → value result ≡ low / den
    → value (if ltb 0 carry then all_ones 32 else result)
      ≡ (if ltb product (2 ^ 256) then product / den else u256_max)
unfolding all_ones zeros value
mul_div_parts den carry low product result fits total divided = elim (Bool-cases (ltb 0 carry)) [
  | inl over ↦ let large : ltb product (2 ^ 256) ≡ false = ground arith in rw (over, large) refl
  | inr exact ↦
      let same : low ≡ product = ground arith in
      let small : ltb product (2 ^ 256) ≡ true = ground arith in
      rw (exact, small, divided, same) refl
]

-- Scaling a target by `num / den` does so on the number, and saturates where the product overflows.
pub mul_div_target-value :
    (bs : List ℕ) (num den : ℕ) (size : length bs ≡ 32) (positive : 0 < den)
    → value (mul_div_target bs num den) ≡ mul_div (value bs) num den
unfolding mul_div_target mul_div
mul_div_target-value bs num den size positive =
    mul_div_parts den (mul_loop num bs).0 (value (mul_loop num bs).1) _ _
      (rw (length-mul_loop num bs, size) at (value-lt (mul_loop num bs).1 (mul_loop-Bytes num bs)))
      (rw size at (mul_loop-value num bs))
      (div_loop_zero-value den (mul_loop num bs).1 (mul_loop-Bytes num bs) positive)

mul_div_shape :
    (den carry : ℕ) (bs : List ℕ) (size : length bs ≡ 32)
    → IsTarget (if ltb 0 carry then all_ones 32 else div_loop den 0 bs)
unfolding all_ones zeros
mul_div_shape den carry bs size = elim (Bool-cases (ltb 0 carry)) [
  | inl over ↦ rw over (omega arith)
  | inr exact ↦ rw exact (length-div_loop den 0 bs ∙ size, div_loop-Bytes den 0 bs)
]

pub mul_div_target-IsTarget :
    (bs : List ℕ) (num den : ℕ) → length bs ≡ 32 → IsTarget (mul_div_target bs num den)
unfolding mul_div_target
mul_div_target-IsTarget bs num den size =
    mul_div_shape den (mul_loop num bs).0 (mul_loop num bs).1 (length-mul_loop num bs ∙ size)
