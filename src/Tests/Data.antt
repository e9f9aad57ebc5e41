-- ===== src/Tests/Data.antt =====
-- A toy instance of what stands outside the repository, and a small chain on it.
use zentra_chain.Prelude.{ℕ, zero, suc, ◌+◌, true, false, List, [], ◌∷◌}
use zentra_chain.Types.{Address, BurnType, NetworkType, TransactionType, LaneId}
use zentra_chain.Core.Data.{standard, burn, Transaction, Header, Block, Crypto}
use zentra_chain.Core.Utxo.{UtxoSet}

abbrev sum_bytes : List ℕ → ℕ
sum_bytes [] = 0
sum_bytes (x ∷ xs) = x + sum_bytes xs

-- A digest that adds its bytes; transactions are told apart by their lock time.
abbrev pub toy : Crypto
toy = record {
  borsh_tx = λ tx. tx.lock_time ∷ [];
  borsh_header = λ h. h.nonce ∷ [];
  borsh_block = λ b. b.header.nonce ∷ [];
  key_bytes = λ k. k ∷ [];
  blake2b = sum_bytes;
  key_ok = λ k. true;
  sig_ok = λ s. true;
  verify = λ k h s. true;
}

abbrev pub bytes : ℕ → List ℕ
bytes zero = []
bytes (suc n) = 0 ∷ bytes n

abbrev pub alice : Address
alice = record { payload = 5; network = NetworkType.devnet }

abbrev pub bob : Address
bob = record { payload = 6; network = NetworkType.devnet }

abbrev pub coinbase_tx : Transaction
coinbase_tx = record {
  version = 1;
  tx_type = TransactionType.coinbase;
  inputs = [];
  outputs = standard bob 4756468807 [] ∷ [];
  payload = [];
  lock_time = 1001;
}

-- Alice spends 100: 60 to Bob, 30 burned, 10 as a fee.
abbrev pub spending_tx : Transaction
spending_tx = record {
  version = 1;
  tx_type = TransactionType.transfer;
  inputs =
      record { prev_tx_hash = 77; output_index = 0; signature = bytes 64; public_key = 5 } ∷ [];
  outputs = standard bob 60 [] ∷ burn 30 BurnType.user_burn ∷ [];
  payload = [];
  lock_time = 1002;
}

abbrev pub before_block : UtxoSet
before_block = record {
  utxos =
      (
        record { tx_hash = 77; index = 0 },
        record { amount = 100; address = alice; block_height = 3; is_coinbase = false },
      )
      ∷ [];
  total_burned = 7;
}

abbrev pub block_header : Header
block_header = record {
  version = 1;
  parents = 9 ∷ [];
  merkle_root = 473;
  timestamp = 0;
  nonce = 10;
  lane_id = LaneId.cpu;
  bits = 0;
  blue_score = 40;
  blue_work = 40;
  pruning_point = 0;
}

abbrev pub sample_block : Block
sample_block = record { header = block_header; transactions = coinbase_tx ∷ spending_tx ∷ [] }
