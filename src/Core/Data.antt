-- ===== src/Core/Data.antt =====
-- The data of transaction.rs, header.rs and block.rs, and the parameters for what they call outside
-- the repository: borsh serialisation, Blake2b-256 and Ed25519.
use zentra_chain.Prelude.{ℕ, ◌≡◌, ◌↔◌, Bool, true, List, ◌==◌, ◌&&◌, arith}
use zentra_chain.Prelude.Map.{Key}
use zentra_chain.Types.{Hash, Address, BurnType, TransactionType, LaneId}
use zentra_chain.Types.Amount.{Amount}

pub record TxInput : Type 0 where
  pub prev_tx_hash : Hash
  pub output_index : ℕ
  pub signature : List ℕ
  pub public_key : ℕ

pub data TxOutput : Type 0 where
  standard : Address → Amount → List ℕ → TxOutput
  burn : Amount → BurnType → TxOutput

pub record Transaction : Type 0 where
  pub version : ℕ
  pub tx_type : TransactionType
  pub inputs : List TxInput
  pub outputs : List TxOutput
  pub payload : List ℕ
  pub lock_time : ℕ

pub record OutPoint : Type 0 where
  pub tx_hash : Hash
  pub index : ℕ

abbrev pub out_point_eq : OutPoint → OutPoint → Bool
out_point_eq a b = (a.tx_hash == b.tx_hash) && (a.index == b.index)

pub out_point_eq_iff : (a b : OutPoint) → (out_point_eq a b ≡ true) ↔ (a ≡ b)
out_point_eq_iff a b = ground arith

instance abbrev pub out_point_key : Key OutPoint
out_point_key = record { beq = out_point_eq; beq_iff = out_point_eq_iff }

-- The output that an input spends.
abbrev pub spends : TxInput → OutPoint
spends i = record { tx_hash = i.prev_tx_hash; index = i.output_index }

pub record Header : Type 0 where
  pub version : ℕ
  pub parents : List Hash
  pub merkle_root : Hash
  pub timestamp : ℕ
  pub nonce : ℕ
  pub lane_id : LaneId
  pub bits : ℕ
  pub blue_score : ℕ
  pub blue_work : ℕ
  pub pruning_point : Hash

pub record Block : Type 0 where
  pub header : Header
  pub transactions : List Transaction

-- borsh, Blake2b-256 and Ed25519. `key_ok`, `sig_ok` and `verify` say whether `from_bytes`,
-- `from_slice` and `verify` of ed25519_dalek succeed. A 32-byte public key is one number.
pub record Crypto : Type 0 where
  pub borsh_tx : Transaction → List ℕ
  pub borsh_header : Header → List ℕ
  pub borsh_block : Block → List ℕ
  pub key_bytes : ℕ → List ℕ
  pub blake2b : List ℕ → Hash
  pub key_ok : ℕ → Bool
  pub sig_ok : List ℕ → Bool
  pub verify : ℕ → Hash → List ℕ → Bool
