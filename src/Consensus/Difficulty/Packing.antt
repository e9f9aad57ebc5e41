-- ===== src/Consensus/Difficulty/Packing.antt =====
-- difficulty.rs, `target_to_bits` against header.rs, `target_from_bits`: what packing a target into 32
-- bits loses.
use zentra_chain.Prelude.{
  ℕ, zero, suc, ◌+◌, ◌-◌, ◌*◌, ◌/◌, ◌%◌, ◌^◌, ◌≡◌, ◌≤◌, ◌<◌, ◌≢◌, refl, ap, List, [], ◌∷◌, false,
  length, leb, leb→le, ◌==◌, ==_iff, if◌then◌else◌, value, zeros, value-lt, Bytes, Bool-cases, inl,
  inr, arith,
}
use native.Mathlib.Nat.{pow-suc, mul-le-mul_right}
use zentra_chain.Core.Pow.{target_from_bits}
use zentra_chain.Core.Pow.Compact.{compact, target_from_bits-value, IsTarget}
use zentra_chain.Consensus.Difficulty.{
  from_first_non_zero, shift_in, byte_or_zero, pack_bits, target_to_bits,
}

-- `w` is `v` with less than one part in 32768 rounded off.
abbrev pub RoundsTo : ℕ → ℕ → Type 0
RoundsTo v w = (w ≤ v) × (v * 32_768 ≤ w * 32_769)

-- Dropping the digits below a mantissa of 16 bits or more.
RoundsTo-drop : (m p v : ℕ) → 32_768 ≤ m → m * p ≤ v → v < (m + 1) * p → RoundsTo v (m * p)
RoundsTo-drop m p v large low high =
    let scaled : 32_768 * p ≤ m * p = mul-le-mul_right p large in (low, omega (arith, scaled))

-- The number that a 32-bit word with an exponent and a mantissa stands for.
packed_value :
    (e m : ℕ)
    → e ≤ 32
    → m < 8_388_608
    → value (target_from_bits (e * 16_777_216 + m % 8_388_608)) ≡ compact e m
packed_value e m high small =
    let same : m % 8_388_608 ≡ m = omega arith in rw same (target_from_bits-value e m high small)

compact-large : (k m : ℕ) → compact (suc (suc (suc k))) m ≡ m * 256 ^ k
unfolding compact
compact-large k m =
    let up : suc (suc (suc k)) - 3 ≡ k = omega arith in
    let down : 3 - suc (suc (suc k)) ≡ 0 = omega arith in rw (up, down) (omega arith)

-- Both ways of packing a mantissa round the value that they are given for.
pack_choice :
    (e m v : ℕ)
    → e ≤ 32
    → m < 16_777_216
    → (m < 8_388_608 → RoundsTo v (compact e m))
    → (8_388_608 ≤ m → (e + 1 ≤ 32) × RoundsTo v (compact (e + 1) (m / 256)))
    → RoundsTo v (
        value (
          target_from_bits (
            if leb 8_388_608 m
            then (e + 1) * 16_777_216 + (m / 256) % 8_388_608
            else e * 16_777_216 + m % 8_388_608)))
pack_choice e m v high bound small large = elim (Bool-cases (leb 8_388_608 m)) [
  | inl top ↦
      let h = large (leb→le 8_388_608 m top) in
      rw (top, packed_value (e + 1) (m / 256) h.0 (omega arith)) h.1
  | inr low ↦
      let below : m < 8_388_608 = ground arith in
      rw (low, packed_value e m high below) (small below)
]

pack_short :
    (e m v : ℕ)
    → e ≤ 3
    → m < 16_777_216
    → v * 256 ^ (3 - e) ≡ m
    → RoundsTo v (
        value (
          target_from_bits (
            if leb 8_388_608 m
            then (e + 1) * 16_777_216 + (m / 256) % 8_388_608
            else e * 16_777_216 + m % 8_388_608)))
unfolding compact
pack_short zero m v high bound exact =
    pack_choice zero m v (omega arith) bound (λ _. omega arith) (λ _. (omega arith, omega arith))
pack_short (suc zero) m v high bound exact =
    pack_choice 1 m v (omega arith) bound (λ _. omega arith) (λ _. (omega arith, omega arith))
pack_short (suc (suc zero)) m v high bound exact =
    pack_choice 2 m v (omega arith) bound (λ _. omega arith) (λ _. (omega arith, omega arith))
pack_short (suc (suc (suc zero))) m v high bound exact =
    pack_choice 3 m v (omega arith) bound (λ _. omega arith) (λ top. (omega arith, omega arith))
pack_short (suc (suc (suc (suc e)))) m v high bound exact = absurd (omega arith)

long_room :
    (k m v : ℕ)
    → k ≤ 29
    → 8_388_608 ≤ m
    → m * 256 ^ k ≤ v
    → v < 2 ^ 255
    → suc (suc (suc k)) + 1 ≤ 32
long_room k m v high top low limit = elim (Bool-cases (k == 29)) [
  | inl same ↦
      let full : m * 256 ^ k ≡ m * 256 ^ 29 = ap (λ (t : ℕ). m * 256 ^ t) ((==_iff k 29).0 same) in
      absurd (omega (arith, full))
  | inr other ↦ ground arith
]

-- A mantissa with its highest bit set loses its last byte.
long_up :
    (k m low v : ℕ)
    → 8_388_608 ≤ m
    → low < 256 ^ k
    → v ≡ m * 256 ^ k + low
    → RoundsTo v (compact (suc (suc (suc k)) + 1) (m / 256))
long_up k m low v top below whole =
    let exponent : suc (suc (suc k)) + 1 ≡ suc (suc (suc (suc k))) = omega arith in
    let under : m / 256 * 256 * 256 ^ k ≤ m * 256 ^ k = mul-le-mul_right (256 ^ k) (omega arith) in
    let over : (m + 1) * 256 ^ k ≤ (m / 256 + 1) * 256 * 256 ^ k =
      mul-le-mul_right (256 ^ k) (omega arith) in
    rw (exponent, compact-large (suc k) (m / 256), pow-suc 256 k)
      (RoundsTo-drop (m / 256) (256 ^ k * 256) v (omega arith) (omega (arith, under))
        (omega (arith, over)))

-- Four bytes or more: the mantissa is the first three.
pack_long :
    (k m low v : ℕ)
    → 3 + k ≤ 32
    → 65_536 ≤ m
    → m < 16_777_216
    → low < 256 ^ k
    → v ≡ m * 256 ^ k + low
    → v < 2 ^ 255
    → RoundsTo v (
        value (
          target_from_bits (
            if leb 8_388_608 m
            then (suc (suc (suc k)) + 1) * 16_777_216 + (m / 256) % 8_388_608
            else suc (suc (suc k)) * 16_777_216 + m % 8_388_608)))
pack_long k m low v high normal bound below whole limit =
    pack_choice (suc (suc (suc k))) m v (omega arith) bound
      (λ _.
        rw (compact-large k m)
          (RoundsTo-drop m (256 ^ k) v (omega arith) (omega arith) (omega arith)))
      (λ top.
        (long_room k m v (omega arith) top (omega arith) limit, long_up k m low v top below whole))

pack_bits-RoundsTo :
    (b : ℕ) (bs : List ℕ)
    → b ≢ 0
    → Bytes (b ∷ bs)
    → length (b ∷ bs) ≤ 32
    → value (b ∷ bs) < 2 ^ 255
    → RoundsTo (value (b ∷ bs)) (value (target_from_bits (pack_bits (b ∷ bs))))
unfolding pack_bits shift_in byte_or_zero value
pack_bits-RoundsTo b [] nonzero bytes size limit =
    pack_short 1 _ _ (omega arith) (omega (arith, bytes.0)) (omega arith)
pack_bits-RoundsTo b (c ∷ []) nonzero bytes size limit =
    pack_short 2 _ _ (omega arith) (omega (arith, bytes.0, bytes.1.0)) (omega arith)
pack_bits-RoundsTo b (c ∷ d ∷ []) nonzero bytes size limit =
    pack_short 3 _ _ (omega arith) (omega (arith, bytes.0, bytes.1.0, bytes.1.1.0)) (omega arith)
pack_bits-RoundsTo b (c ∷ d ∷ x ∷ rest) nonzero bytes size limit =
    let long : leb (suc (suc (suc (suc (length rest))))) 3 ≡ false = ground arith in
    let p : ℕ = 256 ^ suc (length rest) in
    let second : 256 ^ suc (suc (length rest)) ≡ p * 256 = pow-suc 256 _ in
    let third : 256 ^ suc (suc (suc (length rest))) ≡ 256 ^ suc (suc (length rest)) * 256 =
      pow-suc 256 _ in
    rw long (
      pack_long (suc (length rest)) (b * 65_536 + c * 256 + d) (value (x ∷ rest)) _ (omega arith)
        (omega arith) (omega (arith, bytes.0, bytes.1.0, bytes.1.1.0))
        (value-lt (x ∷ rest) bytes.1.1.1) (rw (third, second) (omega arith)) limit)

value-from_first_non_zero : (bs : List ℕ) → value (from_first_non_zero bs) ≡ value bs
unfolding from_first_non_zero value
value-from_first_non_zero [] = refl
value-from_first_non_zero (b ∷ bs) = elim (Bool-cases (b == 0)) [
  | inl zero_b ↦ rw (zero_b, (==_iff b 0).0 zero_b) (omega (arith, value-from_first_non_zero bs))
  | inr other ↦ rw other refl
]

from_first_non_zero-Bytes : (bs : List ℕ) → Bytes bs → Bytes (from_first_non_zero bs)
unfolding from_first_non_zero
from_first_non_zero-Bytes [] h = h
from_first_non_zero-Bytes (b ∷ bs) h = elim (Bool-cases (b == 0)) [
  | inl zero_b ↦ rw zero_b (from_first_non_zero-Bytes bs h.1)
  | inr other ↦ rw other h
]

length-from_first_non_zero : (bs : List ℕ) → length (from_first_non_zero bs) ≤ length bs
unfolding from_first_non_zero
length-from_first_non_zero [] = omega arith
length-from_first_non_zero (b ∷ bs) = ground (arith, length-from_first_non_zero bs)

-- The first byte, where there is one, is not zero.
abbrev Leads : List ℕ → Type 0
Leads [] = Unit {0}
Leads (b ∷ bs) = b ≢ 0

from_first_non_zero-Leads : (bs : List ℕ) → Leads (from_first_non_zero bs)
unfolding from_first_non_zero
from_first_non_zero-Leads [] = tt
from_first_non_zero-Leads (b ∷ bs) = elim (Bool-cases (b == 0)) [
  | inl zero_b ↦ rw zero_b (from_first_non_zero-Leads bs)
  | inr other ↦ rw other (λ h. ground arith)
]

nothing_packed : RoundsTo (value []) (value (target_from_bits (pack_bits [])))
unfolding pack_bits target_from_bits zeros value
nothing_packed = omega arith

pack_leading :
    (bs : List ℕ)
    → Leads bs
    → Bytes bs
    → length bs ≤ 32
    → value bs < 2 ^ 255
    → RoundsTo (value bs) (value (target_from_bits (pack_bits bs)))
pack_leading [] leads bytes size limit = nothing_packed
pack_leading (b ∷ bs) leads bytes size limit = pack_bits-RoundsTo b bs leads bytes size limit

-- A target of 32 bytes below 2^255 that is packed and read back is never easier than it was, and loses
-- less than one part in 32768.
pub target_to_bits-RoundsTo :
    (target : List ℕ) (shape : IsTarget target) (limit : value target < 2 ^ 255)
    → RoundsTo (value target) (value (target_from_bits (target_to_bits target)))
unfolding target_to_bits
target_to_bits-RoundsTo target shape limit =
    let stripped : List ℕ = from_first_non_zero target in
    let same : value stripped ≡ value target = value-from_first_non_zero target in
    rw (← same) (
      pack_leading stripped (from_first_non_zero-Leads target)
        (from_first_non_zero-Bytes target shape.1)
        (omega (arith, length-from_first_non_zero target, shape.0)) (omega (arith, same)))
