-- ===== src/Prelude/Digits.antt =====
-- Lists of bytes, most significant first, and the numbers that they stand for.
use Prim.Native.Nat.{ℕ, zero, suc, ◌+◌, ◌*◌, ◌^◌, ◌≤◌, ◌<◌}
use mathlib.Core.Path.{◌≡◌, refl, ap}
use mathlib.Core.Bool.{Bool, true, false, ◌&&◌}
use mathlib.Core.Logic.{inl, inr, ◌↔◌}
use mathlib.Core.List.{List, [], ◌∷◌}
use native.Mathlib.Omega.{arith}
use native.Mathlib.Nat.{mul-le-mul, mul-le-mul_right, pow-suc}
use zentra_chain.Prelude.Tests.{ltb, leb, ltb→lt, ==_iff, if◌then◌else◌, ◌==◌, Bool-cases}
use zentra_chain.Prelude.Lists.{length, All}

abbrev pub IsByte : ℕ → Type 0
IsByte b = b < 256

abbrev pub Bytes : List ℕ → Type 0
Bytes bs = All IsByte bs

pub pow-pos : (n : ℕ) → 0 < 256 ^ n
pow-pos zero = omega arith
pow-pos (suc n) = rw (pow-suc 256 n) (omega (arith, pow-pos n))

-- The number that the bytes stand for, most significant first.
unfoldable pub value : List ℕ → ℕ
value [] = 0
value (b ∷ bs) = b * 256 ^ length bs + value bs

-- `<=` of byte arrays of one length: the derived, lexicographic order.
unfoldable pub bytes_le : List ℕ → List ℕ → Bool
bytes_le [] ys = true
bytes_le (a ∷ xs) [] = false
bytes_le (a ∷ xs) (b ∷ ys) =
    let rest = bytes_le xs ys in if ltb a b then true else if a == b then rest else false

-- `[0u8; n]`
unfoldable pub zeros : ℕ → List ℕ
zeros zero = []
zeros (suc n) = 0 ∷ zeros n

-- `bytes == [0u8; n]` for bytes of that length.
unfoldable pub is_zero : List ℕ → Bool
is_zero [] = true
is_zero (b ∷ bs) = b == 0 && is_zero bs

is_zero-cons : (b p x : ℕ) {z : Bool} → 0 < p → z ≡ (x == 0) → (b == 0 && z) ≡ (b * p + x == 0)
is_zero-cons b p x h e = elim (Bool-cases (b == 0)) [
  | inl zero_b ↦ rw (zero_b, e, (==_iff b 0).0 zero_b) (ground arith)
  | inr other ↦
      let up : 1 * p ≤ b * p = mul-le-mul_right p (ground arith) in rw other (ground (arith, up))
]

pub is_zero-value : (bs : List ℕ) → is_zero bs ≡ (value bs == 0)
unfolding is_zero value
is_zero-value [] = refl
is_zero-value (b ∷ bs) =
    is_zero-cons b (256 ^ length bs) (value bs) (pow-pos (length bs)) (is_zero-value bs)

pub length-zeros : (n : ℕ) → length (zeros n) ≡ n
unfolding zeros
length-zeros zero = refl
length-zeros (suc n) = ap suc (length-zeros n)

pub value-zeros : (n : ℕ) → value (zeros n) ≡ 0
unfolding zeros value
value-zeros zero = refl
value-zeros (suc n) = omega (arith, value-zeros n)

pub value-lt : (bs : List ℕ) → Bytes bs → value bs < 256 ^ length bs
unfolding value
value-lt [] h = omega arith
value-lt (b ∷ bs) h =
    let top : b * 256 ^ length bs ≤ 255 * 256 ^ length bs =
      mul-le-mul (omega (arith, h.0)) (omega arith) in
    rw (pow-suc 256 (length bs)) (omega (arith, top, value-lt bs h.1))

lex :
    (a b p x y : ℕ)
    → x < p
    → y < p
    → (if ltb a b then true else if a == b then leb x y else false) ≡ leb (a * p + x) (b * p + y)
lex a b p x y hx hy = elim (Bool-cases (ltb a b)) [
  | inl less ↦
      let up : (a + 1) * p ≤ b * p = mul-le-mul_right p (omega (arith, ltb→lt a b less)) in
      rw less (ground (arith, up))
  | inr not_less ↦ elim (Bool-cases (a == b)) [
    | inl same ↦ rw (not_less, same) (ground (arith, ap (λ (t : ℕ). t * p) ((==_iff a b).0 same)))
    | inr other ↦
        let down : (b + 1) * p ≤ a * p = mul-le-mul_right p (ground arith) in
        rw (not_less, other) (ground (arith, down))
  ]
]

-- The order of the arrays is the order of the numbers.
pub bytes_le-value :
    (xs ys : List ℕ) (same : length xs ≡ length ys) (left : Bytes xs) (right : Bytes ys)
    → bytes_le xs ys ≡ leb (value xs) (value ys)
unfolding bytes_le value
bytes_le-value [] [] same left right = refl
bytes_le-value [] (b ∷ ys) same left right = absurd (omega arith)
bytes_le-value (a ∷ xs) [] same left right = absurd (omega arith)
bytes_le-value (a ∷ xs) (b ∷ ys) same left right =
    let lengths : length xs ≡ length ys = omega arith in
    rw (bytes_le-value xs ys lengths left.1 right.1, lengths)
      (lex a b (256 ^ length ys) (value xs) (value ys) (rw (← lengths) (value-lt xs left.1))
        (value-lt ys right.1))

-- `==` of two byte strings.
abbrev pub bytes_eq : List ℕ → List ℕ → Bool
bytes_eq [] [] = true
bytes_eq [] (y ∷ ys) = false
bytes_eq (x ∷ xs) [] = false
bytes_eq (x ∷ xs) (y ∷ ys) = (x == y) && bytes_eq xs ys

pub bytes_eq_iff : (xs ys : List ℕ) → (bytes_eq xs ys ≡ true) ↔ (xs ≡ ys)
bytes_eq_iff [] [] = ground arith
bytes_eq_iff [] (y ∷ ys) = ground arith
bytes_eq_iff (x ∷ xs) [] = ground arith
bytes_eq_iff (x ∷ xs) (y ∷ ys) = ground (arith, bytes_eq_iff xs ys)

-- `cmp` of byte vectors: lexicographic, a prefix before what it begins.
unfoldable pub bytes_lt : List ℕ → List ℕ → Bool
bytes_lt xs [] = false
bytes_lt [] (b ∷ ys) = true
bytes_lt (a ∷ xs) (b ∷ ys) =
    let rest = bytes_lt xs ys in if ltb a b then true else if a == b then rest else false

pub bytes_lt_irrefl : (xs : List ℕ) → bytes_lt xs xs ≡ false
unfolding bytes_lt
bytes_lt_irrefl [] = refl
bytes_lt_irrefl (a ∷ xs) = ground (arith, bytes_lt_irrefl xs)

pub bytes_lt_trans :
    (xs ys zs : List ℕ) → bytes_lt xs ys ≡ true → bytes_lt ys zs ≡ true → bytes_lt xs zs ≡ true
unfolding bytes_lt
bytes_lt_trans xs [] zs h g = absurd (ground arith)
bytes_lt_trans xs (b ∷ ys) [] h g = absurd (ground arith)
bytes_lt_trans [] (b ∷ ys) (c ∷ zs) h g = refl
bytes_lt_trans (a ∷ xs) (b ∷ ys) (c ∷ zs) h g = ground (arith, bytes_lt_trans xs ys zs)

pub bytes_lt_total : (xs ys : List ℕ) → bytes_lt xs ys ≡ false → bytes_lt ys xs ≡ false → xs ≡ ys
unfolding bytes_lt
bytes_lt_total [] [] h g = refl
bytes_lt_total [] (b ∷ ys) h g = cc
bytes_lt_total (a ∷ xs) [] h g = cc
bytes_lt_total (a ∷ xs) (b ∷ ys) h g = ground (arith, bytes_lt_total xs ys)
