-- ===== src/Tests/Gas.antt =====
-- Runs and witnesses of the gas meter.
use zentra_chain.Prelude.Words
use zentra_chain.Prelude.{◌+◌, ◌≤◌, ◌≡◌, refl, List, [], ◌∷◌, arith}
use zentra_chain.Runtime.Gas
use zentra_chain.Runtime.Gas.{GasMeter, Charge, new_meter, remaining, charge_all, accepted}

-- The second write does not fit, and the log after it does.
abbrev charges : List Charge
charges = Charge.storage_write ∷ Charge.storage_write ∷ Charge.log 40 ∷ []

uses : (charge_all charges (new_meter 600)).gas_used ≡ 580
unfolding charge_all Gas.charge Gas.consume Words.checked_add Gas.cost Words.saturating_mul
uses = refl

charge_all-within_limit_example :
    ((charge_all charges (new_meter 600)).gas_used ≡ 0 + accepted charges (new_meter 600))
    × ((charge_all charges (new_meter 600)).gas_used ≤ 600)
    × ((charge_all charges (new_meter 600)).gas_limit ≡ 600)
    × ((charge_all charges (new_meter 600)).gas_used
          + remaining (charge_all charges (new_meter 600))
        ≡ 600)
charge_all-within_limit_example =
    Gas.charge_all-within_limit charges (new_meter 600) (omega arith) (omega arith)
