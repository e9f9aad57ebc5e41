-- ===== src/Tests/Headers.antt =====
-- A run of the header check, and the witness of its result.
use zentra_chain.Prelude
use zentra_chain.Prelude.Words
use zentra_chain.Core.Pow
use zentra_chain.Core.Tx
use zentra_chain.Consensus.Difficulty
use zentra_chain.Consensus.Lanes
use zentra_chain.Node.Headers
use mathlib.Core.Logic.{◌⊎◌}
use zentra_chain.Prelude.{
  ℕ, ◌+◌, ◌≡◌, ◌≤◌, ◌<◌, refl, true, none, some, List, [], ◌∷◌, length, ok, is_ok,
}
use zentra_chain.Types.{LaneId, NetworkType, lane_code}
use zentra_chain.Core.Data.{Block, Header}
use zentra_chain.Core.Blocks.{validate_header_basic}
use zentra_chain.Consensus.Lanes.{verify_block_pow}
use zentra_chain.Node.Reorganize.{Stores}
use zentra_chain.Node.Headers.{
  validate_block_header, calculate_expected_difficulty, past_times, max_future_ms,
}
use zentra_chain.Node.Headers.Median.{earlier}
use zentra_chain.Node.Headers.Accepted.{validate_block_header-accepted}
use zentra_chain.Tests.Data.{toy, block_header}

-- A digest of one byte.
abbrev short_digest : List ℕ → List ℕ
short_digest bytes = 9 ∷ []

-- Block 9, at the genesis difficulty.
abbrev parent : Block
parent = record {
  header = record block_header { lane_id = LaneId.btc_asic; parents = []; bits = 0x1f0f_ffff };
  transactions = [];
}

abbrev known : Stores
known = record { blocks = (9, parent) ∷ []; ghostdag = λ h. none; put_ok = λ h. true }

abbrev child : Header
child = record block_header {
  lane_id = LaneId.btc_asic;
  bits = 0x1f0f_ffff;
  timestamp = 20_000;
  blue_score = 41;
}

passes :
    validate_block_header toy short_digest known NetworkType.devnet 5 child 15_000 ≡ some (ok tt)
unfolding validate_block_header Headers.header_guards validate_header_basic verify_block_pow
    Lanes.header_work Lanes.compute_pow_hash Lanes.double_sha256 Lanes.with_nonce Lanes.target_of
    Pow.target_from_bits Pow.place_small Pow.place_large Pow.put_at Prelude.value Prelude.zeros
    Tx.to_le_bytes calculate_expected_difficulty Headers.heaviest_parent Headers.lane_history
    Headers.record_history Difficulty.new_with_network Difficulty.record_block Difficulty.trim_front
    Difficulty.next_difficulty Difficulty.next_from past_times Headers.heaviest_unvisited
    Headers.check_median Words.saturating_add lane_code
passes = refl

validate_block_header-accepted_example :
    (is_ok (validate_header_basic child) ≡ true)
    × (is_ok (verify_block_pow toy short_digest child) ≡ true)
    × (calculate_expected_difficulty known NetworkType.devnet 5 child.parents child.lane_id
        ≡ some child.bits)
    × (child.timestamp ≤ 15_000 + max_future_ms)
    × ((length (past_times known 11 [] child.parents) < 11)
        ⊎ (6 ≤ earlier child.timestamp (past_times known 11 [] child.parents)))
validate_block_header-accepted_example =
    validate_block_header-accepted toy short_digest known NetworkType.devnet 5 child 15_000 passes
