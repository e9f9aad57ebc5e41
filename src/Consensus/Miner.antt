-- ===== src/Consensus/Miner.antt =====
-- miner.rs: the block template, and `mine_block` with its threads. The threads' steps come in an order
-- that the events give: a thread tests the loop's condition, then hashes one nonce. The counters of
-- hashes, the pinning of threads to cores and the log messages are left out.
pub mod Mined
use zentra_chain.Prelude.{
  ℕ, zero, suc, ◌+◌, ◌-◌, ◌*◌, ◌%◌, ◌^◌, Bool, true, false, not, ◌&&◌, Option, none, some, List, [],
  ◌∷◌, ◌++◌, map, set, get_elem?, length, leb, ltb, if◌then◌else◌,
}
use zentra_chain.Prelude.Words
use zentra_chain.Prelude.Words.{u64_max}
use zentra_chain.Types.{Hash, LaneId, Address, zero_hash, block_version}
use zentra_chain.Types.Amount.{Amount}
use zentra_chain.Core.Data.{Block, Transaction, Crypto}
use zentra_chain.Core.Tx.{create_coinbase, txid}
use zentra_chain.Core.Merkle.{compute_merkle_root}
use zentra_chain.Consensus.Emission.{EmissionSchedule, block_reward}
use zentra_chain.Consensus.Lanes.{compute_pow_hash, target_of}

pub record Miner : Type 0 where
  pub lane : LaneId
  pub address : Address
  pub share_target : Option Hash
  pub coinbase_tag : List ℕ

-- `share_target_from_bits`: 256 times the target, or the easiest one.
unfoldable pub share_target_from_bits : ℕ → Hash
share_target_from_bits bits =
    if ltb (target_of bits) (256 ^ 31) then target_of bits * 256 else 256 ^ 32 - 1

-- `max(1)`
abbrev at_least_one : ℕ → ℕ
at_least_one zero = 1
at_least_one (suc n) = suc n

-- A mining thread: its nonce, whether it is past the test of its loop, and whether it has left it.
pub record Worker : Type 0 where
  pub nonce : ℕ
  pub hashing : Bool
  pub finished : Bool

-- What the threads share.
pub record Mining : Type 0 where
  pub workers : List Worker
  pub local_stop : Bool
  pub found : Bool
  pub found_nonce : ℕ
  pub shares : Option (List ℕ)

-- A step of a thread: the test of the loop's condition, with the value of `is_mining` that it reads, or
-- the body of the loop.
pub data Event : Type 0 where
  look : ℕ → Bool → Event
  work : ℕ → Event

abbrev worker_at : ℕ → Worker
worker_at i = record { nonce = i; hashing = false; finished = false }

-- One worker per thread, from the given index on.
unfoldable pub spawn : ℕ → ℕ → List Worker
spawn zero i = []
spawn (suc n) i = worker_at i ∷ spawn n (i + 1)

unfoldable pub start : ℕ → Option (List ℕ) → Mining
start threads shares = record {
  workers = spawn (at_least_one threads) 0;
  local_stop = false;
  found = false;
  found_nonce = 0;
  shares = shares;
}

-- The loop's condition.
abbrev look_worker : ℕ → Bool → Option Worker → Mining → Mining
look_worker i mining none s = s
look_worker i mining (some w) s =
    if w.hashing
    then s
    else if not s.local_stop && mining && not w.finished
    then record s { workers = set s.workers i (record w { hashing = true }) }
    else record s { workers = set s.workers i (record w { finished = true }) }

abbrev push_share : ℕ → Option (List ℕ) → Option (List ℕ)
push_share nonce none = none
push_share nonce (some v) = if ltb (length v) 100_000 then some (v ++ nonce ∷ []) else some v

-- A nonce that meets the share target but not the block's is recorded.
abbrev note_share : Option Hash → Hash → Hash → ℕ → Option (List ℕ) → Option (List ℕ)
note_share none target h nonce shares = shares
note_share (some st) target h nonce shares =
    if leb h st && not (leb h target) then push_share nonce shares else shares

module _ (c : Crypto) (sha256 : List ℕ → List ℕ) (m : Miner) where
  -- `build_block_template`; the clock's reading is an argument.
  unfoldable pub build_block_template :
      List Hash → List Transaction → ℕ → ℕ → ℕ → Amount → EmissionSchedule → ℕ → Block
  build_block_template parents transactions bits blue_score blue_work fees emission now =
      let reward = Words.saturating_add u64_max (block_reward emission blue_score) fees in
      let plain = create_coinbase reward m.address blue_score in
      let coinbase = record plain { payload = plain.payload ++ m.coinbase_tag } in
      let all_txs = coinbase ∷ transactions in
      record {
        header = record {
          version = block_version;
          parents = parents;
          merkle_root = compute_merkle_root c (map (txid c) all_txs);
          timestamp = now;
          nonce = 0;
          lane_id = m.lane;
          bits = bits;
          blue_score = blue_score;
          blue_work = blue_work;
          pruning_point = zero_hash;
        };
        transactions = all_txs;
      }

  module _ (bytes : List ℕ) (target : Hash) (threads : ℕ) where
    -- The loop's body, at the hash of the worker's nonce.
    abbrev hash_once : ℕ → Worker → Hash → Mining → Mining
    hash_once i w h s =
        let shares = note_share m.share_target target h w.nonce s.shares in
        if leb h target
        then record {
          workers = set s.workers i (record w { hashing = false; finished = true });
          local_stop = true;
          found = true;
          found_nonce = w.nonce;
          shares = shares;
        }
        else record s {
          workers =
              set s.workers i
                (record w { nonce = (w.nonce + at_least_one threads) % 2 ^ 64; hashing = false });
          shares = shares;
        }

    abbrev work_worker : ℕ → Option Worker → Mining → Mining
    work_worker i none s = s
    work_worker i (some w) s =
        if w.hashing then hash_once i w (compute_pow_hash c sha256 m.lane bytes w.nonce) s else s

    unfoldable pub step : Event → Mining → Mining
    step (look i mining) s = look_worker i mining (get_elem? s.workers i) s
    step (work i) s = work_worker i (get_elem? s.workers i) s

    unfoldable pub run : List Event → Mining → Mining
    run [] s = s
    run (e ∷ es) s = run es (step e s)

  abbrev take_nonce : Mining → Block → Bool × Block
  take_nonce s b =
      if s.found
      then (true, record b { header = record b.header { nonce = s.found_nonce } })
      else (false, b)

  -- `mine_block`, with the events up to the joining of the threads.
  unfoldable pub mine_block : Option (List ℕ) → ℕ → List Event → Block → Bool × Block
  mine_block shares threads events b =
      take_nonce
        (run (c.borsh_header b.header) (target_of b.header.bits) threads events
          (start threads shares))
        b
