-- ===== src/Core/Pow/Compact.antt =====
-- header.rs, `target_from_bits`: the number that a compact target stands for.
use zentra_chain.Prelude.{
  ℕ, zero, suc, ◌+◌, ◌-◌, ◌*◌, ◌/◌, ◌%◌, ◌^◌, ◌≡◌, ◌≤◌, ◌<◌, ◌∙◌, refl, ap, Bool, List, [], ◌∷◌,
  true, false, length, set, leb, ltb, lt→ltb, ◌==◌, if◌then◌else◌, zeros, value, length-zeros,
  value-zeros, Bytes, Bool-cases, leb→le, ==_iff, inl, inr, arith,
}
use native.Mathlib.Nat.{pow-suc}
use zentra_chain.Core.Pow.{put_at, place_small, place_large, target_from_bits}

-- The documented reading: `mantissa × 2^(8 × (exponent - 3))`, rounded down below exponent 3.
unfoldable pub compact : ℕ → ℕ → ℕ
compact exponent mantissa = mantissa * 256 ^ (exponent - 3) / 256 ^ (3 - exponent)

place_small-value :
    (e m : ℕ) → 0 < e → e ≤ 3 → m < 8_388_608 → value (place_small e m) ≡ compact e m
unfolding place_small compact zeros value
place_small-value zero m low high small = absurd (omega arith)
place_small-value (suc zero) m low high small = omega arith
place_small-value (suc (suc zero)) m low high small = omega arith
place_small-value (suc (suc (suc zero))) m low high small = omega arith
place_small-value (suc (suc (suc (suc e)))) m low high small = absurd (omega arith)

put_at-set : (target : List ℕ) (i b : ℕ) → i < 32 → put_at target i b ≡ set target i b
unfolding put_at
put_at-set target i b h = rw (lt→ltb i 32 h) refl

-- Three bytes written into zeros.
value-set_three :
    (n pos x y z : ℕ) (room : pos + 3 ≤ n)
    → value (set (set (set (zeros n) pos x) (pos + 1) y) (pos + 2) z)
      ≡ (x * 65_536 + y * 256 + z) * 256 ^ (n - (pos + 3))
unfolding zeros value
value-set_three zero pos x y z room = absurd (omega arith)
value-set_three (suc zero) zero x y z room = absurd (omega arith)
value-set_three (suc (suc zero)) zero x y z room = absurd (omega arith)
value-set_three (suc (suc (suc n))) zero x y z room =
    let left : suc (suc (suc n)) - 3 ≡ n = omega arith in
    rw
      (
        left,
        pow-suc 256 (suc (length (zeros n))),
        pow-suc 256 (length (zeros n)),
        length-zeros n,
        value-zeros n,
      )
      (omega arith)
value-set_three (suc n) (suc pos) x y z room =
    let second : suc pos + 1 ≡ suc (pos + 1) = omega arith in
    let third : suc pos + 2 ≡ suc (pos + 2) = omega arith in
    let left : suc n - (suc pos + 3) ≡ n - (pos + 3) = omega arith in
    rw (second, third, left) (omega (arith, value-set_three n pos x y z (omega arith)))

place_large-set :
    (e m : ℕ) (low : 3 < e)
    → place_large e m
      ≡ set
          (set (set (zeros 32) (32 - e) ((m / 65_536) % 256)) (32 - e + 1) ((m / 256) % 256))
          (32 - e + 2)
          (m % 256)
unfolding place_large
place_large-set e m low =
    let first : List ℕ = set (zeros 32) (32 - e) ((m / 65_536) % 256) in
    let second : List ℕ = set first (32 - e + 1) ((m / 256) % 256) in
    rw
      (
        put_at-set (zeros 32) (32 - e) ((m / 65_536) % 256) (omega arith),
        put_at-set first (32 - e + 1) ((m / 256) % 256) (omega arith),
        put_at-set second (32 - e + 2) (m % 256) (omega arith),
      )
      refl

place_large-value :
    (e m : ℕ) (low : 3 < e) (high : e ≤ 32) (small : m < 8_388_608)
    → value (place_large e m) ≡ compact e m
unfolding compact
place_large-value e m low high small =
    let exponent : 32 - (32 - e + 3) ≡ e - 3 = omega arith in
    let none_below : 3 - e ≡ 0 = omega arith in
    let bytes : (m / 65_536) % 256 * 65_536 + (m / 256) % 256 * 256 + m % 256 ≡ m = omega arith in
    rw
      (
        place_large-set e m low,
        none_below,
        value-set_three 32 (32 - e) _ _ _ (omega arith),
        exponent,
        bytes,
      )
      (omega arith)

compact-zero : (m : ℕ) → m < 8_388_608 → 0 ≡ compact 0 m
unfolding compact
compact-zero m small = omega arith

-- The bytes of a compact target stand for `mantissa × 2^(8 × (exponent - 3))` rounded down, for every
-- exponent up to 32.
pub target_from_bits-value :
    (e m : ℕ) (high : e ≤ 32) (small : m < 8_388_608)
    → value (target_from_bits (e * 16_777_216 + m)) ≡ compact e m
unfolding target_from_bits
target_from_bits-value e m high small =
    let exponent : (e * 16_777_216 + m) / 16_777_216 ≡ e = omega arith in
    let mantissa : (e * 16_777_216 + m) % 8_388_608 ≡ m = omega arith in
    rw (exponent, mantissa)
      (elim (Bool-cases (e == 0)) [
        | inl zero_e ↦ rw (zero_e, (==_iff e 0).0 zero_e, value-zeros 32) (compact-zero m small)
        | inr other ↦ elim (Bool-cases (leb e 3)) [
          | inl low ↦ rw (other, low) (place_small-value e m (ground arith) (leb→le e 3 low) small)
          | inr large ↦ rw (other, large) (place_large-value e m (ground arith) high small)
        ]
      ])

length-set {ℓ} : {A : Type ℓ} (xs : List A) (i : ℕ) (x : A) → length (set xs i x) ≡ length xs
length-set [] i x = refl
length-set (y ∷ xs) zero x = refl
length-set (y ∷ xs) (suc i) x = ap suc (length-set xs i x)

set-Bytes : (xs : List ℕ) (i x : ℕ) → Bytes xs → x < 256 → Bytes (set xs i x)
set-Bytes [] i x bytes small = tt
set-Bytes (y ∷ xs) zero x bytes small = (small, bytes.1)
set-Bytes (y ∷ xs) (suc i) x bytes small = (bytes.0, set-Bytes xs i x bytes.1 small)

-- A target: 32 bytes.
abbrev pub IsTarget : List ℕ → Type 0
IsTarget t = (length t ≡ 32) × Bytes t

set-IsTarget : (xs : List ℕ) (i x : ℕ) → IsTarget xs → x < 256 → IsTarget (set xs i x)
set-IsTarget xs i x t small = (length-set xs i x ∙ t.0, set-Bytes xs i x t.1 small)

if_set-IsTarget :
    (b : Bool) (xs : List ℕ) (i x : ℕ)
    → IsTarget xs
    → x < 256
    → IsTarget (if b then set xs i x else xs)
if_set-IsTarget true xs i x t small = set-IsTarget xs i x t small
if_set-IsTarget false xs i x t small = t

put_at-IsTarget : (xs : List ℕ) (i x : ℕ) → IsTarget xs → x < 256 → IsTarget (put_at xs i x)
unfolding put_at
put_at-IsTarget xs i x t small = elim (Bool-cases (ltb i 32)) [
  | inl inside ↦ rw inside (set-IsTarget xs i x t small)
  | inr outside ↦ rw outside t
]

zeros-Bytes : (n : ℕ) → Bytes (zeros n)
unfolding zeros
zeros-Bytes zero = tt
zeros-Bytes (suc n) = (omega arith, zeros-Bytes n)

pub zeros-IsTarget : IsTarget (zeros 32)
zeros-IsTarget = (length-zeros 32, zeros-Bytes 32)

place_small-IsTarget : (e m : ℕ) → IsTarget (place_small e m)
unfolding place_small
place_small-IsTarget e m =
    if_set-IsTarget (leb 3 e) _ 29 _
      (if_set-IsTarget (leb 2 e) _ 30 _ (set-IsTarget _ 31 _ zeros-IsTarget (omega arith))
        (omega arith))
      (omega arith)

place_large-IsTarget : (e m : ℕ) → IsTarget (place_large e m)
unfolding place_large
place_large-IsTarget e m =
    put_at-IsTarget _ _ _
      (put_at-IsTarget _ _ _ (put_at-IsTarget _ _ _ zeros-IsTarget (omega arith)) (omega arith))
      (omega arith)

pub target_from_bits-IsTarget : (bits : ℕ) → IsTarget (target_from_bits bits)
unfolding target_from_bits
target_from_bits-IsTarget bits =
    let exponent : ℕ = bits / 16_777_216 in
    elim (Bool-cases (exponent == 0)) [
      | inl zero_e ↦ rw zero_e zeros-IsTarget
      | inr other ↦ elim (Bool-cases (leb exponent 3)) [
        | inl low ↦ rw (other, low) (place_small-IsTarget _ _)
        | inr large ↦ rw (other, large) (place_large-IsTarget _ _)
      ]
    ]
