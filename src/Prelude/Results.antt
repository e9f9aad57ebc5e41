-- ===== src/Prelude/Results.antt =====
-- Rust's `Result<T, E>`, its `?` as the bind of a do block, and the errors of zentra-types/error.rs.
use mathlib.Core.Path.{◌≡◌, refl}
use mathlib.Core.Bool.{Bool, true, false}
use mathlib.Core.Option.{Option, none, some}

pub data Result (E A : Type 0) : Type 0 where
  ok : A → Result E A
  err : E → Result E A

infixl 5 ◌>>=◌ ◌>>◌
-- `run?`, with the rest of the block after it.
abbrev pub ◌>>=◌ : {E V W : Type 0} → Result E V → (V → Result E W) → Result E W
err failure >>= continue = err failure
ok value >>= continue = continue value

-- The same where the value is the unit.
abbrev pub ◌>>◌ : {E W : Type 0} → Result E (Unit {0}) → Result E W → Result E W
first >> second = first >>= λ _. second

-- `if cond { return Err(e) }`
abbrev pub fail_if : {E : Type 0} → Bool → E → Result E (Unit {0})
fail_if true e = err e
fail_if false e = ok tt

-- `Option::ok_or`
abbrev pub ok_or : {E A : Type 0} → Option A → E → Result E A
ok_or none e = err e
ok_or (some a) e = ok a

-- `ZentraError`: the variants that the modelled code raises, without their message texts.
pub data ZentraError : Type 0 where
  block_validation transaction_validation invalid_signature double_spend : ZentraError
  difficulty_not_met block_too_large too_many_transactions invalid_merkle_root : ZentraError
  tss_error quarantine_error database wasm_runtime : ZentraError

abbrev pub ZentraResult : Type 0 → Type 0
ZentraResult = Result ZentraError

-- The code's `is_ok`.
abbrev pub is_ok : {E A : Type 0} → Result E A → Bool
is_ok (ok _) = true
is_ok (err _) = false

-- A block that returned a value ran its first step to a value, and the rest from there.
pub >>=-eq-ok :
    {E V W : Type 0} (run : Result E V) (continue : V → Result E W) {result : W}
    (returned : (run >>= continue) ≡ ok result)
    → (value : V) × (run ≡ ok value) × (continue value ≡ ok result)
>>=-eq-ok (err failure) continue returned = cc
>>=-eq-ok (ok value) continue returned = (value, refl, returned)

-- A guard that let a run through was false.
pub fail_if-ok :
    {E B : Type 0} (b : Bool) (e : E) (m : Result E B) {x : B}
    → (fail_if b e >> m) ≡ ok x
    → (b ≡ false) × (m ≡ ok x)
fail_if-ok true e m h = absurd (cc)
fail_if-ok false e m h = (refl, h)
