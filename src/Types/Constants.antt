-- ===== src/Types/Constants.antt =====
-- constants.rs: the network's constants that the modelled code reads, and the network type.
use zentra_chain.Prelude.{ℕ, Bool, true, false, ◌≡◌, ◌↔◌, arith}

abbrev pub max_supply_zents : ℕ
max_supply_zents = 5_000_000_000_000_000

abbrev pub coin : ℕ
coin = 100_000_000

abbrev pub initial_reward_zents : ℕ
initial_reward_zents = 4_756_468_797

abbrev pub halving_interval_blocks : ℕ
halving_interval_blocks = 525_600

abbrev pub max_halvings : ℕ
max_halvings = 64

abbrev pub ghostdag_k : ℕ
ghostdag_k = 18

abbrev pub max_block_parents : ℕ
max_block_parents = 10

abbrev pub max_block_size : ℕ
max_block_size = 1_048_576

abbrev pub max_txs_per_block : ℕ
max_txs_per_block = 10_000

abbrev pub min_tx_fee_zents : ℕ
min_tx_fee_zents = 1_000

abbrev pub amm_swap_fee_bps : ℕ
amm_swap_fee_bps = 20

abbrev pub cross_chain_ingest_fee_bps : ℕ
cross_chain_ingest_fee_bps = 50

abbrev pub bps_denominator : ℕ
bps_denominator = 10_000

abbrev pub quarantine_lock_blocks : ℕ
quarantine_lock_blocks = 1_262_304_000

abbrev pub block_version : ℕ
block_version = 1

pub data NetworkType : Type 0 where
  mainnet testnet devnet : NetworkType

abbrev pub network_eq : NetworkType → NetworkType → Bool
network_eq NetworkType.mainnet NetworkType.mainnet = true
network_eq NetworkType.testnet NetworkType.testnet = true
network_eq NetworkType.devnet NetworkType.devnet = true
network_eq _ _ = false

pub network_eq_iff : (a b : NetworkType) → (network_eq a b ≡ true) ↔ (a ≡ b)
network_eq_iff NetworkType.mainnet b = ground arith
network_eq_iff NetworkType.testnet b = ground arith
network_eq_iff NetworkType.devnet b = ground arith

-- `NetworkType::halving_interval`: the same on every network.
unfoldable pub halving_interval : NetworkType → ℕ
halving_interval network = halving_interval_blocks
