-- ===== src/Consensus/Emission.antt =====
-- emission.rs: the block reward with halvings, and the supply emitted below a height. Heights and
-- amounts are u64 words; `>>` on a u64 is a halving repeated, and `checked_shr` of a u64 is defined
-- below 64. A zero halving interval, at which the code divides by zero, is excluded by hypotheses.
pub mod Sum
pub mod Supply
use zentra_chain.Prelude.{
  ℕ, zero, suc, ◌+◌, ◌-◌, ◌*◌, ◌/◌, ◌%◌, Bool, leb, ltb, ◌==◌, if◌then◌else◌, Option, none, some,
}
use Prim.Native.Nat.{min}
use zentra_chain.Prelude.Words
use zentra_chain.Prelude.Words.{u64_max}
use zentra_chain.Types.{
  NetworkType, halving_interval, initial_reward_zents, max_supply_zents, max_halvings,
}
use zentra_chain.Types.Amount.{Amount}

pub record EmissionSchedule : Type 0 where
  pub initial_reward : ℕ
  pub halving_interval : ℕ
  pub max_supply : ℕ

-- `EmissionSchedule::new`
unfoldable pub new : NetworkType → EmissionSchedule
unfolding halving_interval
new network = record {
  initial_reward = initial_reward_zents;
  halving_interval = halving_interval network;
  max_supply = max_supply_zents;
}

-- `x >> n`
unfoldable pub shr : ℕ → ℕ → ℕ
shr x zero = x
shr x (suc n) = shr x n / 2

-- The loop of `total_emitted_at_height`. `rounds` is `MAX_HALVINGS - epoch`, so that the test
-- `epoch < MAX_HALVINGS` is `0 < rounds`.
unfoldable pub emit_loop : EmissionSchedule → ℕ → ℕ → ℕ → ℕ → ℕ
emit_loop s zero epoch remaining sum = sum
emit_loop s (suc rounds) epoch remaining sum =
    let reward = shr s.initial_reward epoch in
    let blocks = min remaining s.halving_interval in
    let rest =
      emit_loop s rounds (epoch + 1) (remaining - blocks)
        (Words.saturating_add u64_max sum (Words.saturating_mul u64_max blocks reward)) in
    if remaining == 0 then sum else if reward == 0 then sum else rest

unfoldable pub total_emitted_at_height : EmissionSchedule → ℕ → Amount
total_emitted_at_height s height = min (emit_loop s max_halvings 0 height 0) s.max_supply

unfoldable pub block_reward : EmissionSchedule → ℕ → Amount
block_reward s height =
    let epoch = height / s.halving_interval in
    let reward = shr s.initial_reward epoch in
    let emitted = total_emitted_at_height s height in
    if leb max_halvings epoch
    then 0
    else if reward == 0
    then 0
    else if leb s.max_supply emitted
    then 0
    else min reward (s.max_supply - emitted)

unfoldable pub is_fully_mined : EmissionSchedule → ℕ → Bool
is_fully_mined s height = block_reward s height == 0

-- `as u32` is written out.
unfoldable pub halvings_occurred : EmissionSchedule → ℕ → ℕ
halvings_occurred s height = (height / s.halving_interval) % 4_294_967_296

unfoldable pub blocks_until_next_halving : EmissionSchedule → ℕ → ℕ
blocks_until_next_halving s height = s.halving_interval - height % s.halving_interval
