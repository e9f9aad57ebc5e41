-- ===== src/Core/Pow.antt =====
-- header.rs, the compact difficulty: `target_from_bits` and `meets_difficulty`. A target is its 32
-- bytes, most significant first. `>>` and `<<` by 8 k bits are a division and a product by 256 ^ k.
pub mod Compact
use zentra_chain.Prelude.{
  ℕ, ◌+◌, ◌-◌, ◌*◌, ◌/◌, ◌%◌, ◌^◌, Bool, List, set, leb, ltb, ◌==◌, if◌then◌else◌, zeros, value,
}
use zentra_chain.Core.Data.{Header, Crypto}

-- `if i < 32 { target[i] = b; }`
unfoldable pub put_at : List ℕ → ℕ → ℕ → List ℕ
put_at target i b = if ltb i 32 then set target i b else target

unfoldable pub place_small : ℕ → ℕ → List ℕ
place_small exponent mantissa =
    let shifted = mantissa / 256 ^ (3 - exponent) in
    let target = set (zeros 32) 31 (shifted % 256) in
    let target' = if leb 2 exponent then set target 30 ((shifted / 256) % 256) else target in
    if leb 3 exponent then set target' 29 ((shifted / 65_536) % 256) else target'

unfoldable pub place_large : ℕ → ℕ → List ℕ
place_large exponent mantissa =
    let pos = 32 - exponent in
    let target = put_at (zeros 32) pos ((mantissa / 65_536) % 256) in
    let target' = put_at target (pos + 1) ((mantissa / 256) % 256) in
    put_at target' (pos + 2) (mantissa % 256)

-- `& 0x007FFFFF` keeps the 23 bits below the sign bit of the mantissa.
unfoldable pub target_from_bits : ℕ → List ℕ
target_from_bits bits =
    let exponent = bits / 16_777_216 in
    let mantissa = bits % 8_388_608 in
    if exponent == 0
    then zeros 32
    else if leb exponent 3
    then place_small exponent mantissa
    else place_large exponent mantissa

-- `Header::meets_difficulty`: the header's hash against the target of its own bits.
unfoldable pub meets_difficulty : Crypto → Header → Bool
meets_difficulty c h = leb (c.blake2b (c.borsh_header h)) (value (target_from_bits h.bits))
