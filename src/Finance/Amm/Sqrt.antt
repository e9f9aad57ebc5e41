-- ===== src/Finance/Amm/Sqrt.antt =====
-- amm.rs: `integer_sqrt` against the floor of the square root.
use zentra_chain.Prelude.{
  ℕ, zero, suc, ◌+◌, ◌-◌, ◌*◌, ◌/◌, ◌%◌, ◌^◌, ◌≤◌, ◌<◌, ◌≡◌, refl, none, some, ltb, leb, ◌==◌,
  Bool-cases, inl, inr, arith,
}
use native.Mathlib.Nat.{
  le-div_iff_mul-le, mul-div-le, div_self, lt-mul-div-succ, mul-le-mul, mul-le-mul_left,
}
use zentra_chain.Prelude.Words.{u128_max}
use zentra_chain.Finance.Amm.{sqrt_loop, integer_sqrt}

-- The whole number whose square is at most `n`, and whose successor's square is above it.
abbrev pub IsRoot : ℕ → ℕ → Type 0
IsRoot n r = (r * r ≤ n) × (n < (r + 1) * (r + 1))

four_mul_sorted : (a d : ℕ) → 4 * (a * (a + d)) ≤ (a + (a + d)) * (a + (a + d))
four_mul_sorted a d = omega arith

four_mul_le : (a b : ℕ) → 4 * (a * b) ≤ (a + b) * (a + b)
four_mul_le a b = elim (Bool-cases (leb a b)) [
  | inl h ↦ let e : b ≡ a + (b - a) = ground (arith, h) in rw e (four_mul_sorted a (b - a))
  | inr h ↦
      let e : a ≡ b + (a - b) = ground (arith, h) in rw e (omega (arith, four_mul_sorted b (a - b)))
]

-- A Newton step stays at or above the root.
step_above : (n x : ℕ) → 0 < x → n < ((x + n / x) / 2 + 1) * ((x + n / x) / 2 + 1)
step_above n x pos =
    let y = (x + n / x) / 2 in
    let below : x + (n / x + 1) ≤ 2 * (y + 1) = omega arith in
    let squares = mul-le-mul below below in
    omega (arith, four_mul_le x (n / x + 1), squares, lt-mul-div-succ n pos)

step_below : (n x : ℕ) → 0 < x → x ≤ (x + n / x) / 2 → x * x ≤ n
step_below n x pos h =
    let q : x ≤ n / x = omega arith in omega (arith, mul-le-mul_left x q, mul-div-le n x)

add-le-mul : (a b : ℕ) → 0 < a → 0 < b → a + b ≤ a * b + 1
add-le-mul zero b pa pb = omega arith
add-le-mul (suc a) zero pa pb = omega arith
add-le-mul (suc a) (suc b) pa pb = omega arith

quotient_pos : (n x : ℕ) → 0 < x → x ≤ n → 0 < n / x
quotient_pos n x px le = (le-div_iff_mul-le {k = x} {x = 1} {y = n} px).1 (omega arith)

-- The sum in a Newton step does not wrap.
step_fits : (n x : ℕ) → n < u128_max → 0 < x → x ≤ n → (x + n / x) % 2 ^ 128 ≡ x + n / x
step_fits n x max px le =
    omega (arith, add-le-mul x (n / x) px (quotient_pos n x px le), mul-div-le n x, max)

-- With more rounds than `x` the loop stops, at the root.
sqrt_loop-IsRoot :
    (fuel n x y : ℕ)
    → n < u128_max
    → x < fuel
    → 0 < x
    → x ≤ n
    → n < (x + 1) * (x + 1)
    → y ≡ (x + n / x) / 2
    → (r : ℕ) × (sqrt_loop fuel n x y ≡ some r) × IsRoot n r
unfolding sqrt_loop
sqrt_loop-IsRoot zero n x y max more px le above same = absurd (omega arith)
sqrt_loop-IsRoot (suc fuel) n x y max more px le above same = elim (Bool-cases (ltb y x)) [
  | inr done ↦ (x, ground (arith, done), (step_below n x px (ground (arith, done, same)), above))
  | inl again ↦
      let less : y < x = ground (arith, again) in
      let py : 0 < y = omega (arith, same, quotient_pos n x px le) in
      let above' : n < (y + 1) * (y + 1) = rw same (step_above n x px) in
      let fits = step_fits n y max py (omega arith) in
      let (r, found, root) =
        sqrt_loop-IsRoot fuel n y (((y + n / y) % 2 ^ 128) / 2) max (omega arith) py (omega arith)
          above' (rw fits refl) in
      (r, ground (arith, again, py, found), root)
]

-- On every u128 below the largest the square root is found, and it is the floor of the root.
pub integer_sqrt-IsRoot : (n : ℕ) → n < u128_max → (r : ℕ) × (integer_sqrt n ≡ some r) × IsRoot n r
unfolding integer_sqrt
integer_sqrt-IsRoot n h = elim (Bool-cases (n == 0)) [
  | inl empty ↦ (0, ground (arith, empty), (ground (arith, empty), ground (arith, empty)))
  | inr some_n ↦
      let pos : 0 < n = ground (arith, some_n) in
      let one : n / n ≡ 1 = div_self pos in
      let (r, found, root) =
        sqrt_loop-IsRoot (n + 1) n n (((n + 1) % 2 ^ 128) / 2) h (omega arith) pos (omega arith)
          (omega arith) (rw one (omega (arith, h))) in
      (r, ground (arith, some_n, found), root)
]

-- On the largest u128 it divides by zero.
pub integer_sqrt-max : integer_sqrt u128_max ≡ none
unfolding integer_sqrt sqrt_loop
integer_sqrt-max = refl
