-- ===== src/Tests/Pow.antt =====
-- Runs of the difficulty engine, and the witnesses of its results.
use zentra_chain.Prelude
use zentra_chain.Consensus.Difficulty
use zentra_chain.Prelude.{
  ℕ, ◌+◌, ◌-◌, ◌*◌, ◌≡◌, ◌≤◌, ◌<◌, refl, List, [], ◌∷◌, length, sum_by, value, zeros, some, ◌≢◌,
  arith,
}
use zentra_chain.Types.{NetworkType, LaneId}
use zentra_chain.Core.Pow.{target_from_bits, place_small, place_large, put_at}
use zentra_chain.Core.Pow.Compact
use zentra_chain.Consensus.Difficulty.{
  DifficultyEngine, new_with_network, record_block, next_difficulty, genesis_difficulty,
  target_to_bits, clamp_timespan, scale_down, last_timestamp, new_manager, get_next_difficulty,
  record_lane_block,
}
use zentra_chain.Consensus.Difficulty.Packing.{RoundsTo, target_to_bits-RoundsTo}
use zentra_chain.Consensus.Difficulty.Factor.{
  mined_at, retarget, scale_down-factor, genesis_target, genesis_difficulty-value,
}
use zentra_chain.Consensus.Difficulty.History.{
  Mined, start, mine, Mined-IsPaced, Mined-next_difficulty, next_difficulty-RoundsTo,
  get_next_difficulty-record_lane_block,
}

abbrev fresh : DifficultyEngine
fresh = new_with_network LaneId.cpu NetworkType.mainnet

-- Two blocks, twenty seconds apart.
abbrev two_blocks : DifficultyEngine
two_blocks =
    let one = record_block fresh 1_000_000 (next_difficulty fresh) in
    record_block one 1_020_000 (next_difficulty one)

abbrev two_blocks-Mined : Mined LaneId.cpu NetworkType.mainnet two_blocks
two_blocks-Mined = mine 1_020_000 (mine 1_000_000 start)

-- A block that came three times too fast makes the target a third.
two_blocks_next : next_difficulty two_blocks ≡ 0x1f05_5555
unfolding next_difficulty Difficulty.next_from record_block Difficulty.trim_front new_with_network
    target_to_bits Difficulty.pack_bits Difficulty.from_first_non_zero Difficulty.next_target
    Difficulty.clamp_target Prelude.bytes_le Difficulty.mul_div_target Difficulty.mul_loop
    Difficulty.div_target_by_u64 Difficulty.div_loop Difficulty.sum_targets Difficulty.add_targets
    Difficulty.add_loop Difficulty.all_ones Difficulty.byte_or_zero clamp_timespan last_timestamp
    scale_down Difficulty.shift_in place_large place_small put_at target_from_bits Prelude.is_zero
    zeros
two_blocks_next = refl

-- A block that came too slowly makes it easier by 100/33, up to genesis.
easier_than_three_times : scale_down (clamp_timespan 900_000 60_000) 60_000 ≡ (100, 33)
unfolding clamp_timespan scale_down
easier_than_three_times = refl

Mined-next_difficulty_example :
    (0 < value (target_from_bits (next_difficulty two_blocks)))
    × (value (target_from_bits (next_difficulty two_blocks)) ≤ genesis_target)
Mined-next_difficulty_example =
    Mined-next_difficulty LaneId.cpu NetworkType.mainnet two_blocks two_blocks-Mined

next_difficulty-RoundsTo_example :
    RoundsTo
      (retarget (sum_by mined_at ((1_020_000, genesis_difficulty) ∷ [])) 1 20_000)
      (value (target_from_bits (next_difficulty two_blocks)))
unfolding record_block Difficulty.trim_front new_with_network next_difficulty Difficulty.next_from
    last_timestamp
next_difficulty-RoundsTo_example =
    next_difficulty-RoundsTo two_blocks (1_000_000, genesis_difficulty)
      (1_020_000, genesis_difficulty) [] (Mined-IsPaced two_blocks-Mined) refl

scale_down-factor_example :
    ((scale_down (clamp_timespan 500_000 (3 * 60_000)) (3 * 60_000)).0 ≡ 100)
    × (33 ≤ (scale_down (clamp_timespan 500_000 (3 * 60_000)) (3 * 60_000)).1)
    × ((scale_down (clamp_timespan 500_000 (3 * 60_000)) (3 * 60_000)).1 ≤ 300)
scale_down-factor_example = scale_down-factor 3 500_000 (omega arith)

target_to_bits-RoundsTo_example :
    RoundsTo
      (value (target_from_bits genesis_difficulty))
      (value (target_from_bits (target_to_bits (target_from_bits genesis_difficulty))))
target_to_bits-RoundsTo_example =
    target_to_bits-RoundsTo (target_from_bits genesis_difficulty)
      (Compact.target_from_bits-IsTarget genesis_difficulty)
      (omega (arith, genesis_difficulty-value))

get_next_difficulty-record_lane_block_example :
    get_next_difficulty
      (record_lane_block (new_manager NetworkType.devnet) LaneId.gpu 5 genesis_difficulty)
      LaneId.cpu
    ≡ get_next_difficulty (new_manager NetworkType.devnet) LaneId.cpu
get_next_difficulty-record_lane_block_example =
    get_next_difficulty-record_lane_block (new_manager NetworkType.devnet) LaneId.gpu LaneId.cpu 5
      genesis_difficulty (λ e. cc e)
