-- ===== src/Types/TxType.antt =====
-- tx_type.rs and lane.rs: the kinds of transactions and the mining lanes, with their byte codes.
use zentra_chain.Prelude.{
  ℕ, ◌≡◌, refl, Bool, true, false, Option, none, some, ◌==◌, if◌then◌else◌, arith,
}

pub data TransactionType : Type 0 where
  transfer coinbase dex_swap dex_add_liquidity cross_chain_ingest : TransactionType
  contract_deploy contract_call quarantine tss_key_gen tss_sign : TransactionType
  governance_update stablecoin_burn lp_burn : TransactionType

-- `self.tx_type == TransactionType::Coinbase`
abbrev pub is_coinbase_type : TransactionType → Bool
is_coinbase_type TransactionType.coinbase = true
is_coinbase_type _ = false

-- The discriminant, `value as u8`.
unfoldable pub type_code : TransactionType → ℕ
type_code TransactionType.transfer = 0
type_code TransactionType.coinbase = 1
type_code TransactionType.dex_swap = 2
type_code TransactionType.dex_add_liquidity = 3
type_code TransactionType.cross_chain_ingest = 4
type_code TransactionType.contract_deploy = 5
type_code TransactionType.contract_call = 6
type_code TransactionType.quarantine = 7
type_code TransactionType.tss_key_gen = 8
type_code TransactionType.tss_sign = 9
type_code TransactionType.governance_update = 10
type_code TransactionType.stablecoin_burn = 11
type_code TransactionType.lp_burn = 12

unfoldable pub type_from_u8 : ℕ → Option TransactionType
type_from_u8 v =
    if v == 0
    then some TransactionType.transfer
    else if v == 1
    then some TransactionType.coinbase
    else if v == 2
    then some TransactionType.dex_swap
    else if v == 3
    then some TransactionType.dex_add_liquidity
    else if v == 4
    then some TransactionType.cross_chain_ingest
    else if v == 5
    then some TransactionType.contract_deploy
    else if v == 6
    then some TransactionType.contract_call
    else if v == 7
    then some TransactionType.quarantine
    else if v == 8
    then some TransactionType.tss_key_gen
    else if v == 9
    then some TransactionType.tss_sign
    else if v == 10
    then some TransactionType.governance_update
    else if v == 11
    then some TransactionType.stablecoin_burn
    else if v == 12
    then some TransactionType.lp_burn
    else none

pub data LaneId : Type 0 where
  cpu gpu btc_asic ltc_asic fpga : LaneId

-- `LaneId::as_u8`
unfoldable pub lane_code : LaneId → ℕ
lane_code LaneId.cpu = 0
lane_code LaneId.gpu = 1
lane_code LaneId.btc_asic = 2
lane_code LaneId.ltc_asic = 3
lane_code LaneId.fpga = 4

unfoldable pub lane_from_u8 : ℕ → Option LaneId
lane_from_u8 v =
    if v == 0
    then some LaneId.cpu
    else if v == 1
    then some LaneId.gpu
    else if v == 2
    then some LaneId.btc_asic
    else if v == 3
    then some LaneId.ltc_asic
    else if v == 4
    then some LaneId.fpga
    else none

-- Every transaction type is read back from its byte code.
pub type_from_u8-type_code : (t : TransactionType) → type_from_u8 (type_code t) ≡ some t
unfolding type_from_u8 type_code
type_from_u8-type_code TransactionType.transfer = refl
type_from_u8-type_code _ = refl

-- A byte that is read as a transaction type is the code of that type.
pub type_code-type_from_u8 :
    (v : ℕ) (t : TransactionType) → type_from_u8 v ≡ some t → type_code t ≡ v
unfolding type_from_u8 type_code
type_code-type_from_u8 v TransactionType.transfer h = ground arith
type_code-type_from_u8 v _ h = ground arith

-- Every lane is read back from its number.
pub lane_from_u8-lane_code : (l : LaneId) → lane_from_u8 (lane_code l) ≡ some l
unfolding lane_from_u8 lane_code
lane_from_u8-lane_code LaneId.cpu = refl
lane_from_u8-lane_code _ = refl
