-- ===== src/Consensus/Miner/Mined.antt =====
-- miner.rs and lanes.rs: the work, the merkle root and the coinbase of a mined block.
use zentra_chain.Prelude.{
  ℕ, ◌≤◌, ◌≡◌, refl, sym, Bool, true, Option, none, some, List, [], ◌∷◌, ◌++◌, get_elem?, leb,
  ==_iff, ltb→lt, ◌<◌, ltb, Bool-cases, inl, inr, ok, arith,
}
use mathlib.Core.Path.{subst}
use mathlib.Core.Logic.{◌⊎◌}
use zentra_chain.Prelude.Words
use zentra_chain.Prelude.Words.{u64_max, saturating_add-le}
use zentra_chain.Types.{Hash, LaneId, NetworkType}
use zentra_chain.Types.Amount.{Amount}
use zentra_chain.Core.Data.{Header, Block, Transaction, Crypto}
use zentra_chain.Core.Tx.{create_coinbase, is_coinbase, total_output_amount, fold_amounts, amount}
use zentra_chain.Core.Blocks.{validate_merkle_root, block_merkle_root}
use zentra_chain.Consensus.Emission.{EmissionSchedule, block_reward}
use zentra_chain.Consensus.Lanes.{compute_pow_hash, target_of, verify_block_pow, header_work}
use zentra_chain.Node.Validate.{check_reward}
use zentra_chain.Consensus.Validator.{check_coinbase, fold_fees}
use zentra_chain.Consensus.Miner.{
  Miner, Worker, Mining, Event, look, work, start, step, run, look_worker, work_worker, hash_once,
  take_nonce, build_block_template, mine_block,
}

module _ (c : Crypto) (sha256 : List ℕ → List ℕ) (m : Miner) (bytes : List ℕ) (target : Hash)
    (threads : ℕ) where
  -- The nonce that was found meets the target.
  abbrev Wins : Mining → Type 0
  Wins s = s.found ≡ true → leb (compute_pow_hash c sha256 m.lane bytes s.found_nonce) target ≡ true

  look_worker-Wins :
      (i : ℕ) (mining : Bool) (o : Option Worker) (s : Mining)
      → Wins s
      → Wins (look_worker i mining o s)
  look_worker-Wins i mining none s wins = wins
  look_worker-Wins i mining (some w) s wins = ground (arith, wins)

  hash_once-Wins :
      (i : ℕ) (w : Worker) (s : Mining)
      → Wins s
      → Wins (
          hash_once c sha256 m bytes target threads i w
            (compute_pow_hash c sha256 m.lane bytes w.nonce)
            s)
  hash_once-Wins i w s wins =
      elim (Bool-cases (leb (compute_pow_hash c sha256 m.lane bytes w.nonce) target)) [
        | inl met ↦ rw met (λ _. met)
        | inr missed ↦ rw missed wins
      ]

  work_worker-Wins :
      (i : ℕ) (o : Option Worker) (s : Mining)
      → Wins s
      → Wins (work_worker c sha256 m bytes target threads i o s)
  work_worker-Wins i none s wins = wins
  work_worker-Wins i (some w) s wins = elim (Bool-cases w.hashing) [
    | inl busy ↦ rw busy (hash_once-Wins i w s wins)
    | inr idle ↦ rw idle wins
  ]

  run-Wins :
      (events : List Event) (s : Mining)
      → Wins s
      → Wins (run c sha256 m bytes target threads events s)
  unfolding run step
  run-Wins [] s wins = wins
  run-Wins (look i mining ∷ es) s wins =
      run-Wins es (look_worker i mining (get_elem? s.workers i) s)
        (look_worker-Wins i mining (get_elem? s.workers i) s wins)
  run-Wins (work i ∷ es) s wins =
      run-Wins es (work_worker c sha256 m bytes target threads i (get_elem? s.workers i) s)
        (work_worker-Wins i (get_elem? s.workers i) s wins)

  start-Wins : (n : ℕ) (shares : Option (List ℕ)) → Wins (start n shares)
  unfolding start
  start-Wins n shares found = absurd (ground (arith, found))

take_nonce-found :
    (c : Crypto) (sha256 : List ℕ → List ℕ) (m : Miner) (s : Mining) (b : Block)
    → (take_nonce c sha256 m s b).0 ≡ true
    → (s.found ≡ true)
      × ((take_nonce c sha256 m s b).1
          ≡ record b { header = record b.header { nonce = s.found_nonce } })
take_nonce-found c sha256 m s b h = elim (Bool-cases s.found) [
  | inl found ↦ (found, rw found refl)
  | inr missed ↦ absurd (ground (arith, missed, h))
]

-- A template of the miner's own lane, without a nonce, whose nonce was found.
mine_block-verify :
    (c : Crypto) (sha256 : List ℕ → List ℕ) (m : Miner) (b : Block) (shares : Option (List ℕ))
    (threads : ℕ) (events : List Event)
    → record b.header { nonce = 0 } ≡ b.header
    → b.header.lane_id ≡ m.lane
    → (mine_block c sha256 m shares threads events b).0 ≡ true
    → (found_nonce : ℕ) × ((mine_block c sha256 m shares threads events b).1
        ≡ record b { header = record b.header { nonce = found_nonce } })
      × (verify_block_pow c sha256 (record b.header { nonce = found_nonce }) ≡ ok tt)
unfolding mine_block verify_block_pow header_work
mine_block-verify c sha256 m b shares threads events empty same h =
    let bytes = c.borsh_header b.header in
    let target = target_of b.header.bits in
    let s = run c sha256 m bytes target threads events (start threads shares) in
    let (found, mined) = take_nonce-found c sha256 m s b h in
    let met =
      run-Wins c sha256 m bytes target threads events (start threads shares)
        (start-Wins c sha256 m bytes target threads threads shares) found in
    let worked : leb
          (compute_pow_hash c sha256 b.header.lane_id
            (c.borsh_header (record b.header { nonce = 0 })) s.found_nonce)
          target
        ≡ true =
      subst
        (λ (l : LaneId).
          leb
            (compute_pow_hash c sha256 l (c.borsh_header (record b.header { nonce = 0 }))
              s.found_nonce)
            target
          ≡ true)
        (sym same)
        (subst
          (λ (h : Header).
            leb (compute_pow_hash c sha256 m.lane (c.borsh_header h) s.found_nonce) target ≡ true)
          (sym empty) met) in
    (s.found_nonce, mined, rw worked refl)

-- The first of the transactions is a coinbase that pays out no more than the reward and the fees claimed.
coinbase_within_reward :
    (c : Crypto) (network : NetworkType) (emission : EmissionSchedule) (height fees : ℕ)
    (plain : Transaction) (tag : List ℕ) (txs : List Transaction)
    → is_coinbase plain ≡ true
    → total_output_amount plain ≤ Words.saturating_add u64_max (block_reward emission height) fees
    → check_reward c network emission height (record plain { payload = tag } ∷ txs) fees ≡ ok tt
unfolding check_reward is_coinbase total_output_amount Words.saturating_add
coinbase_within_reward c network emission height fees plain tag txs is small =
    ground (arith, is, small)

coinbase_within_burned_fees :
    (emission : EmissionSchedule) (height fees : ℕ) (plain : Transaction) (tag : List ℕ)
    (txs : List Transaction)
    → is_coinbase plain ≡ true
    → total_output_amount plain ≤ Words.saturating_add u64_max (block_reward emission height) fees
    → (fold_fees 0 txs < fees)
      ⊎ (check_coinbase emission height (record plain { payload = tag } ∷ txs) ≡ ok tt)
unfolding check_coinbase is_coinbase total_output_amount Words.saturating_add
coinbase_within_burned_fees emission height fees plain tag txs is small =
    elim (Bool-cases (ltb (fold_fees 0 txs) fees)) [
      | inl more ↦ inl (ltb→lt (fold_fees 0 txs) fees more)
      | inr enough ↦ inr (ground (arith, is, small, enough))
    ]

-- A block template of the miner whose nonce the threads find, in any order of their steps, has a header
-- whose work meets the target of its bits, and a merkle root of its transactions; its coinbase passes the
-- node's reward check at the fees that the template claims, and the block validator's check of it too
-- unless the template claims more than its transactions burn as fees.
pub mine_block-verify_block_pow :
    (c : Crypto) (sha256 : List ℕ → List ℕ) (m : Miner) (parents : List Hash)
    (txs : List Transaction) (bits blue_score blue_work : ℕ) (fees : Amount)
    (emission : EmissionSchedule) (now : ℕ) (shares : Option (List ℕ)) (threads : ℕ)
    (events : List Event) (network : NetworkType)
    (mined : (mine_block c sha256 m shares threads events
        (build_block_template c sha256 m parents txs bits blue_score blue_work fees emission now)).0
      ≡ true)
    → (b : Block) × ((mine_block c sha256 m shares threads events (
          build_block_template c sha256 m parents txs bits blue_score blue_work fees emission
            now)).1
        ≡ b)
      × (verify_block_pow c sha256 b.header ≡ ok tt)
      × (validate_merkle_root c b ≡ true)
      × (check_reward c network emission blue_score b.transactions fees ≡ ok tt)
      × ((fold_fees 0 txs < fees) ⊎ (check_coinbase emission blue_score b.transactions ≡ ok tt))
unfolding build_block_template validate_merkle_root block_merkle_root create_coinbase is_coinbase
    total_output_amount fold_amounts amount
mine_block-verify_block_pow c sha256 m parents txs bits blue_score blue_work fees emission now
      shares threads events network mined =
    let b =
      build_block_template c sha256 m parents txs bits blue_score blue_work fees emission now in
    let (found_nonce, same, worked) =
      mine_block-verify c sha256 m b shares threads events refl refl mined in
    let reward = Words.saturating_add u64_max (block_reward emission blue_score) fees in
    let plain = create_coinbase reward m.address blue_score in
    let paid = plain.payload ++ m.coinbase_tag in
    let small : Words.saturating_add u64_max 0 reward ≤ reward =
      omega (arith, saturating_add-le u64_max 0 reward) in
    (
      record b { header = record b.header { nonce = found_nonce } },
      same,
      worked,
      (==_iff _ _).1 refl,
      coinbase_within_reward c network emission blue_score fees plain paid txs refl small,
      coinbase_within_burned_fees emission blue_score fees plain paid txs refl small,
    )
