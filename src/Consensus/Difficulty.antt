-- ===== src/Consensus/Difficulty.antt =====
-- difficulty.rs: the difficulty engine of a lane and the manager of all lanes. Targets are lists of
-- 32 bytes, most significant first; a loop over `(0..32).rev()` takes the tail of the list first.
-- A loop's words hold its values: `val` of a sum of bytes is below 2 ^ 16, and `rem` and `carry` are
-- below a u64 divisor or factor.
pub mod Loops
pub mod Packing
pub mod Factor
pub mod Retarget
pub mod History
use zentra_chain.Prelude.{
  ℕ, suc, ◌+◌, ◌-◌, ◌*◌, ◌/◌, ◌%◌, ◌^◌, Bool, List, [], ◌∷◌, ◌++◌, map, Option, none, some, length,
  get_elem?, set, not, leb, ltb, ◌==◌, if◌then◌else◌, zeros, is_zero, bytes_le,
}
use Prim.Native.Nat.{min, max}
use zentra_chain.Types.{NetworkType, LaneId, lane_code}
use zentra_chain.Core.Pow.{target_from_bits}

-- A word and the bytes that a loop has written.
abbrev pub Digits : Type 0
Digits = ℕ × List ℕ

-- The loop of `add_targets`: the carry out of these bytes and their sum.
unfoldable pub add_loop : List ℕ → List ℕ → Digits
add_loop (a ∷ xs) (b ∷ ys) =
    let (carry, result) = add_loop xs ys in
    let val = a + b + carry in (val / 256, (val % 256) ∷ result)
add_loop _ _ = (0, [])

unfoldable pub add_targets : List ℕ → List ℕ → List ℕ
add_targets a b = (add_loop a b).1

-- The division loop of `div_target_by_u64` and `mul_div_target`: `rem` comes in from the bytes
-- to the left. `as u8` is the remainder by 256.
unfoldable pub div_loop : ℕ → ℕ → List ℕ → List ℕ
div_loop div rem [] = []
div_loop div rem (b ∷ bs) =
    let val = rem * 256 + b in ((val / div) % 256) ∷ div_loop div (val % div) bs

unfoldable pub div_target_by_u64 : List ℕ → ℕ → List ℕ
div_target_by_u64 target divisor = if divisor == 0 then target else div_loop divisor 0 target

-- The multiplication loop of `mul_div_target`: the carry out of these bytes and their product.
unfoldable pub mul_loop : ℕ → List ℕ → Digits
mul_loop num [] = (0, [])
mul_loop num (b ∷ bs) =
    let (carry, multiplied) = mul_loop num bs in
    let val = b * num + carry in (val / 256, (val % 256) ∷ multiplied)

-- `[0xFF; n]`
unfoldable pub all_ones : ℕ → List ℕ
all_ones n = map (λ _. 255) (zeros n)

-- The code divides by `den`, which its caller keeps positive.
unfoldable pub mul_div_target : List ℕ → ℕ → ℕ → List ℕ
mul_div_target target num den =
    let (carry, multiplied) = mul_loop num target in
    if ltb 0 carry then all_ones 32 else div_loop den 0 multiplied

-- `&bytes[first_non_zero..]`, empty where every byte is zero.
unfoldable pub from_first_non_zero : List ℕ → List ℕ
from_first_non_zero [] = []
from_first_non_zero (b ∷ bs) = let rest = from_first_non_zero bs in if b == 0 then rest else b ∷ bs

-- `for b in bytes { value = (value << 8) | b }`
unfoldable pub shift_in : ℕ → List ℕ → ℕ
shift_in acc [] = acc
shift_in acc (b ∷ bs) = shift_in (acc * 256 + b) bs

-- `*bytes.get(i).unwrap_or(&0)`
unfoldable pub byte_or_zero : List ℕ → ℕ → ℕ
byte_or_zero bs i = elim (get_elem? bs i) [ none ↦ 0 | some b ↦ b ]

-- `target_to_bits` from the first byte that is not zero on; the exponent is the number of bytes.
unfoldable pub pack_bits : List ℕ → ℕ
pack_bits [] = 0
pack_bits (b ∷ bs) =
    let exponent = length (b ∷ bs) in
    let mantissa =
      if leb exponent 3
      then shift_in 0 (b ∷ bs) * 256 ^ (3 - exponent)
      else b * 65_536 + byte_or_zero bs 0 * 256 + byte_or_zero bs 1 in
    if leb 8_388_608 mantissa
    then (exponent + 1) * 16_777_216 + (mantissa / 256) % 8_388_608
    else exponent * 16_777_216 + mantissa % 8_388_608

unfoldable pub target_to_bits : List ℕ → ℕ
target_to_bits target = pack_bits (from_first_non_zero target)

abbrev pub target_block_time_ms : ℕ
target_block_time_ms = 60_000

pub record DifficultyEngine : Type 0 where
  pub lane_id : LaneId
  -- Oldest first: the timestamp and the bits of each recorded block.
  pub history : List (ℕ × ℕ)
  pub target_block_time_ms : ℕ
  pub window_size : ℕ

unfoldable pub new_with_network : LaneId → NetworkType → DifficultyEngine
new_with_network lane network = record {
  lane_id = lane;
  history = [];
  target_block_time_ms = target_block_time_ms;
  window_size = elim network [ NetworkType.devnet ↦ 10 | _ ↦ 12 ];
}

-- `while len > limit { pop_front() }`, one round for each element at most.
unfoldable pub trim_front : ℕ → List (ℕ × ℕ) → List (ℕ × ℕ)
trim_front limit [] = []
trim_front limit (x ∷ xs) =
    let rest = trim_front limit xs in if ltb limit (length (x ∷ xs)) then rest else x ∷ xs

unfoldable pub record_block : DifficultyEngine → ℕ → ℕ → DifficultyEngine
record_block e timestamp bits = record e {
  history = trim_front (e.window_size + 1) (e.history ++ (timestamp, bits) ∷ []);
}

abbrev pub genesis_difficulty : ℕ
genesis_difficulty = 0x1f0f_ffff

-- `for (_, bits) in history.iter().skip(1) { target_sum = add_targets(target_sum, target) }`
unfoldable pub sum_targets : List ℕ → List (ℕ × ℕ) → List ℕ
sum_targets acc [] = acc
sum_targets acc (x ∷ xs) = sum_targets (add_targets acc (target_from_bits x.1)) xs

-- The timestamp of the last element, or of `first` where there is none.
unfoldable pub last_timestamp : ℕ × ℕ → List (ℕ × ℕ) → ℕ
last_timestamp first [] = first.0
last_timestamp first (x ∷ xs) = last_timestamp x xs

-- Step 4: `actual.clamp(target / 3, target * 3)`.
unfoldable pub clamp_timespan : ℕ → ℕ → ℕ
clamp_timespan actual target = min (max actual (target / 3)) (target * 3)

-- Step 5: `num` and `den`, both scaled down where `num` is above 100.
unfoldable pub scale_down : ℕ → ℕ → ℕ × ℕ
scale_down num den =
    let scale = num / 100 in if ltb 100 num then (num / scale, max (den / scale) 1) else (num, den)

-- Step 7: never easier than genesis, never zero.
unfoldable pub clamp_target : List ℕ → List ℕ
clamp_target adjusted =
    let max_target = target_from_bits genesis_difficulty in
    if not (bytes_le adjusted max_target)
    then max_target
    else if is_zero adjusted
    then max_target
    else adjusted

-- Steps 1 to 7 on a history with `n` intervals, before the result is packed.
unfoldable pub next_target : ℕ → ℕ × ℕ → List (ℕ × ℕ) → List ℕ
next_target block_time first rest =
    let n = length rest in
    let target_avg = div_target_by_u64 (sum_targets (zeros 32) rest) n in
    let actual_timespan = last_timestamp first rest - first.0 in
    let target_timespan = n * block_time in
    let (num, den) = scale_down (clamp_timespan actual_timespan target_timespan) target_timespan in
    clamp_target (mul_div_target target_avg num den)

-- `next_difficulty` by the history: no interval below two blocks.
unfoldable pub next_from : ℕ → List (ℕ × ℕ) → ℕ
next_from block_time (first ∷ x ∷ rest) = target_to_bits (next_target block_time first (x ∷ rest))
next_from block_time _ = genesis_difficulty

unfoldable pub next_difficulty : DifficultyEngine → ℕ
next_difficulty e = next_from e.target_block_time_ms e.history

unfoldable pub last_bits : List (ℕ × ℕ) → ℕ
last_bits [] = genesis_difficulty
last_bits (x ∷ []) = x.1
last_bits (x ∷ y ∷ rest) = last_bits (y ∷ rest)

unfoldable pub current_difficulty : DifficultyEngine → ℕ
current_difficulty e = last_bits e.history

-- `DifficultyManager`: one engine for each lane, in the order of the lanes' numbers.
abbrev pub DifficultyManager : Type 0
DifficultyManager = List DifficultyEngine

-- `LaneId::ALL`
abbrev pub lanes : List LaneId
lanes = LaneId.cpu ∷ LaneId.gpu ∷ LaneId.btc_asic ∷ LaneId.ltc_asic ∷ LaneId.fpga ∷ []

unfoldable pub new_manager : NetworkType → DifficultyManager
new_manager network = map (λ lane. new_with_network lane network) lanes

-- A lane's number is below five, so the index is in range.
unfoldable pub get_next_difficulty : DifficultyManager → LaneId → Option ℕ
get_next_difficulty engines lane = elim (get_elem? engines (lane_code lane)) [
  | none ↦ none
  | some e ↦ some (next_difficulty e)
]

unfoldable pub record_lane_block : DifficultyManager → LaneId → ℕ → ℕ → DifficultyManager
record_lane_block engines lane timestamp bits = elim (get_elem? engines (lane_code lane)) [
  | none ↦ engines
  | some e ↦ set engines (lane_code lane) (record_block e timestamp bits)
]

unfoldable pub clear : DifficultyManager → DifficultyManager
clear engines = map (λ (e : DifficultyEngine). record e { history = [] }) engines
