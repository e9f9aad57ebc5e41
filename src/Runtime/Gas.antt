-- ===== src/Runtime/Gas.antt =====
-- gas.rs: the gas meter of a contract call. An error leaves the meter as it was.
use zentra_chain.Prelude.{
  ℕ, ◌+◌, ◌-◌, ◌≤◌, ◌≡◌, refl, Bool, none, some, List, [], ◌∷◌, ltb, leb, ok, err, ZentraError,
  ZentraResult, is_ok, if◌then◌else◌, arith,
}
use zentra_chain.Prelude.Words.{u64_max, checked_add, saturating_mul}

abbrev pub gas_per_wasm_instruction : ℕ
gas_per_wasm_instruction = 1

abbrev pub gas_per_storage_read : ℕ
gas_per_storage_read = 100

abbrev pub gas_per_storage_write : ℕ
gas_per_storage_write = 500

abbrev pub gas_per_hash : ℕ
gas_per_hash = 50

abbrev pub gas_per_signature_verify : ℕ
gas_per_signature_verify = 1_000

abbrev pub gas_per_log_byte : ℕ
gas_per_log_byte = 2

pub record GasMeter : Type 0 where
  pub gas_limit : ℕ
  pub gas_used : ℕ

-- `GasMeter::new`
abbrev pub new_meter : ℕ → GasMeter
new_meter limit = record { gas_limit = limit; gas_used = 0 }

unfoldable pub consume : ℕ → GasMeter → ZentraResult (Unit {0}) × GasMeter
consume amount g = elim (checked_add u64_max g.gas_used amount) [
  | none ↦ (err ZentraError.wasm_runtime, g)
  | some new_total ↦
      if ltb g.gas_limit new_total
      then (err ZentraError.wasm_runtime, g)
      else (ok tt, record g { gas_used = new_total })
]

unfoldable pub remaining : GasMeter → ℕ
remaining g = g.gas_limit - g.gas_used

unfoldable pub is_exhausted : GasMeter → Bool
is_exhausted g = leb g.gas_limit g.gas_used

-- What a contract is charged for.
pub data Charge : Type 0 where
  instructions : ℕ → Charge
  storage_read storage_write one_hash signature_verify : Charge
  log : ℕ → Charge

-- The amounts of `consume_instructions` and its siblings.
unfoldable pub cost : Charge → ℕ
cost (instructions count) = saturating_mul u64_max count gas_per_wasm_instruction
cost storage_read = gas_per_storage_read
cost storage_write = gas_per_storage_write
cost one_hash = gas_per_hash
cost signature_verify = gas_per_signature_verify
cost (log len) = saturating_mul u64_max len gas_per_log_byte

unfoldable pub charge : Charge → GasMeter → ZentraResult (Unit {0}) × GasMeter
charge c g = consume (cost c) g

-- The meter after charges, whether they were accepted or not.
unfoldable pub charge_all : List Charge → GasMeter → GasMeter
charge_all [] g = g
charge_all (c ∷ cs) g = charge_all cs (charge c g).1

-- The sum of the charges that were accepted.
unfoldable pub accepted : List Charge → GasMeter → ℕ
accepted [] g = 0
accepted (c ∷ cs) g =
    let rest = accepted cs (charge c g).1 in if is_ok (charge c g).0 then cost c + rest else rest

-- One charge: it is accepted exactly when it fits, and then it is added.
pub charge_lem :
    (c : Charge) (g : GasMeter)
    → g.gas_limit ≤ u64_max
    → (is_ok (charge c g).0 ≡ leb (g.gas_used + cost c) g.gas_limit)
      × ((charge c g).1.gas_used
          ≡ g.gas_used + (if leb (g.gas_used + cost c) g.gas_limit then cost c else 0))
      × ((charge c g).1.gas_limit ≡ g.gas_limit)
unfolding charge consume checked_add
charge_lem c g word = (ground arith, ground arith, ground arith)

-- After any sequence of charges to a meter within its u64 limit, the gas used is what was used before
-- and the accepted charges, it is within the limit, the limit is the same, and what is used and what
-- remains add up to the limit.
pub charge_all-within_limit :
    (cs : List Charge) (g : GasMeter)
    → g.gas_limit ≤ u64_max
    → g.gas_used ≤ g.gas_limit
    → ((charge_all cs g).gas_used ≡ g.gas_used + accepted cs g)
      × ((charge_all cs g).gas_used ≤ g.gas_limit)
      × ((charge_all cs g).gas_limit ≡ g.gas_limit)
      × ((charge_all cs g).gas_used + remaining (charge_all cs g) ≡ g.gas_limit)
unfolding charge_all accepted remaining
charge_all-within_limit [] g word within =
    (omega arith, omega (arith, within), refl, omega (arith, within))
charge_all-within_limit (c ∷ cs) g word within =
    let (fits, used, limit) = charge_lem c g word in
    let within' : (charge c g).1.gas_used ≤ (charge c g).1.gas_limit =
      ground (arith, used, limit, within) in
    let (a, b, l, r) =
      charge_all-within_limit cs (charge c g).1 (omega (arith, limit, word)) within' in
    (
      ground (arith, a, fits, used),
      omega (arith, b, limit),
      omega (arith, l, limit),
      omega (arith, r, limit),
    )
