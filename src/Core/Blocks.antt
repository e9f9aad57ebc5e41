-- ===== src/Core/Blocks.antt =====
-- header.rs and block.rs: structural validation of headers and blocks.
use zentra_chain.Prelude.{
  ℕ, Bool, true, not, List, [], ◌∷◌, map, ltb, ◌==◌, length, keep, ok, ◌>>◌, fail_if, ZentraError,
  ZentraResult,
}
use zentra_chain.Prelude.Words
use zentra_chain.Prelude.Words.{u64_max}
use zentra_chain.Types.{
  Hash, LaneId, NetworkType, zero_hash, block_version, max_block_parents, max_block_size,
  max_txs_per_block, initial_reward_zents,
}
use zentra_chain.Types.Amount.{Amount}
use zentra_chain.Core.Data.{Header, Block, Transaction, Crypto}
use zentra_chain.Core.Tx.{
  is_coinbase, txid, validate_basic, create_coinbase, from_public_key, total_burn_amount,
}
use zentra_chain.Core.Merkle.{compute_merkle_root}

unfoldable pub validate_header_basic : Header → ZentraResult (Unit {0})
validate_header_basic h = do
  fail_if (not (h.version == block_version)) ZentraError.block_validation
  fail_if (ltb max_block_parents (length h.parents)) ZentraError.block_validation
  ok tt

abbrev pub easiest_bits : ℕ
easiest_bits = 0x207f_ffff

-- `Header::genesis`
unfoldable pub genesis_header : NetworkType → Header
genesis_header network = record {
  version = block_version;
  parents = [];
  merkle_root = zero_hash;
  timestamp = 1_717_372_800_000;
  nonce = 0;
  lane_id = LaneId.cpu;
  bits = easiest_bits;
  blue_score = 0;
  blue_work = 0;
  pruning_point = zero_hash;
}

unfoldable pub validate_each : List Transaction → ZentraResult (Unit {0})
validate_each [] = ok tt
validate_each (tx ∷ txs) = validate_basic tx >> validate_each txs

abbrev first_is_coinbase : List Transaction → Bool
first_is_coinbase [] = true
first_is_coinbase (tx ∷ txs) = is_coinbase tx

unfoldable pub fold_burns : Amount → List Transaction → Amount
fold_burns acc [] = acc
fold_burns acc (tx ∷ txs) = fold_burns (Words.saturating_add u64_max acc (total_burn_amount tx)) txs

module _ (c : Crypto) where
  unfoldable pub hash : Block → Hash
  hash b = c.blake2b (c.borsh_header b.header)

  -- `Block::compute_merkle_root`
  unfoldable pub block_merkle_root : Block → Hash
  block_merkle_root b = compute_merkle_root c (map (txid c) b.transactions)

  unfoldable pub validate_merkle_root : Block → Bool
  validate_merkle_root b = b.header.merkle_root == block_merkle_root b

  unfoldable pub size_bytes : Block → ℕ
  size_bytes b = length (c.borsh_block b)

  -- `Block::validate_basic`
  unfoldable pub validate_block_basic : Block → ZentraResult (Unit {0})
  validate_block_basic b = do
    validate_header_basic b.header
    fail_if (ltb max_txs_per_block (length b.transactions)) ZentraError.too_many_transactions
    fail_if (ltb max_block_size (size_bytes b)) ZentraError.block_too_large
    fail_if (not (validate_merkle_root b)) ZentraError.invalid_merkle_root
    validate_each b.transactions
    fail_if (not (first_is_coinbase b.transactions)) ZentraError.block_validation
    fail_if (ltb 1 (length (keep is_coinbase b.transactions))) ZentraError.block_validation
    ok tt

  -- `Block::genesis`
  unfoldable pub genesis : NetworkType → Block
  genesis network =
      let coinbase = create_coinbase initial_reward_zents (from_public_key c 0 network) 0 in
      record {
        header = record (genesis_header network) {
          merkle_root = compute_merkle_root c (txid c coinbase ∷ []);
        };
        transactions = coinbase ∷ [];
      }

-- `Block::total_burn_amount`
unfoldable pub block_burn_amount : Block → Amount
block_burn_amount b = fold_burns 0 b.transactions
