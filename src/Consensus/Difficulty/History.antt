-- ===== src/Consensus/Difficulty/History.antt =====
-- difficulty.rs, the engines: the window of recorded blocks, the bits that an engine answers, and the
-- independence of the lanes.
use zentra_chain.Prelude.{
  ℕ, zero, suc, ◌+◌, ◌-◌, ◌≡◌, ◌≢◌, ◌≤◌, ◌<◌, ◌∙◌, refl, ap, List, [], ◌∷◌, ◌++◌, length, sum_by,
  get_elem?, set, ltb, value, Bool-cases, Option-cases, inl, inr, arith,
}
use mathlib.Core.Path.{subst}
use zentra_chain.Types.{NetworkType, LaneId, lane_code, lane_from_u8-lane_code}
use zentra_chain.Core.Pow.{target_from_bits}
use zentra_chain.Consensus.Difficulty.{
  DifficultyEngine, new_with_network, trim_front, record_block, next_from, next_difficulty,
  next_target, last_timestamp, last_bits, current_difficulty, DifficultyManager,
  get_next_difficulty, record_lane_block,
}
use zentra_chain.Consensus.Difficulty.Packing.{RoundsTo, target_to_bits-RoundsTo}
use zentra_chain.Consensus.Difficulty.Factor.{
  genesis_target, genesis_difficulty-value, mined_at, NoneEasier, retarget, retarget_bounds,
}
use zentra_chain.Consensus.Difficulty.Retarget.{next_target-refines, next_target-IsTarget}

-- The engine's spacing and window, and that its history fits the window and holds no block that was
-- mined easier than genesis.
pub record IsPaced (e : DifficultyEngine) : Type 0 where
  pub spaced : e.target_block_time_ms ≡ 60_000
  pub windowed : e.window_size ≤ 12
  pub fitting : length e.history ≤ e.window_size + 1
  pub sound : NoneEasier e.history

-- A new engine of any lane and network is well-formed.
pub new_with_network-IsPaced :
    (lane : LaneId) (network : NetworkType) → IsPaced (new_with_network lane network)
unfolding new_with_network
new_with_network-IsPaced lane NetworkType.mainnet = ground arith
new_with_network-IsPaced lane NetworkType.testnet = ground arith
new_with_network-IsPaced lane NetworkType.devnet = ground arith

length-trim_front : (limit : ℕ) (xs : List (ℕ × ℕ)) → length (trim_front limit xs) ≤ limit
unfolding trim_front
length-trim_front limit [] = omega arith
length-trim_front limit (x ∷ xs) = ground (arith, length-trim_front limit xs)

All-trim_front : (limit : ℕ) (xs : List (ℕ × ℕ)) → NoneEasier xs → NoneEasier (trim_front limit xs)
unfolding trim_front
All-trim_front limit [] h = h
All-trim_front limit (x ∷ xs) h = elim (Bool-cases (ltb limit (length (x ∷ xs)))) [
  | inl over ↦ rw over (All-trim_front limit xs h.1)
  | inr fits ↦ rw fits h
]

NoneEasier-append : (xs ys : List (ℕ × ℕ)) → NoneEasier xs → NoneEasier ys → NoneEasier (xs ++ ys)
NoneEasier-append [] ys hx hy = hy
NoneEasier-append (x ∷ xs) ys hx hy = (hx.0, NoneEasier-append xs ys hx.1 hy)

-- Recording a block that was not mined easier than genesis keeps the engine well-formed.
pub record_block-IsPaced :
    (e : DifficultyEngine) (timestamp bits : ℕ) (paced : IsPaced e)
    (sound : mined_at (timestamp, bits) ≤ genesis_target)
    → IsPaced (record_block e timestamp bits)
unfolding record_block
record_block-IsPaced e timestamp bits paced sound = record {
  spaced = paced.spaced;
  windowed = paced.windowed;
  fitting = length-trim_front (e.window_size + 1) (e.history ++ (timestamp, bits) ∷ []);
  sound =
      All-trim_front (e.window_size + 1) (e.history ++ (timestamp, bits) ∷ [])
        (NoneEasier-append e.history ((timestamp, bits) ∷ []) paced.sound (sound, tt));
}

last_bits-append : (xs : List (ℕ × ℕ)) (x : ℕ × ℕ) → last_bits (xs ++ x ∷ []) ≡ x.1
unfolding last_bits
last_bits-append [] x = refl
last_bits-append (y ∷ []) x = refl
last_bits-append (y ∷ z ∷ xs) x = last_bits-append (z ∷ xs) x

last_bits-trim_front :
    (limit : ℕ) (xs : List (ℕ × ℕ)) → 0 < limit → last_bits (trim_front limit xs) ≡ last_bits xs
unfolding trim_front last_bits
last_bits-trim_front limit [] positive = refl
last_bits-trim_front limit (x ∷ []) positive = ground arith
last_bits-trim_front limit (x ∷ y ∷ xs) positive =
    elim (Bool-cases (ltb limit (length (x ∷ y ∷ xs)))) [
      | inl over ↦ rw over (last_bits-trim_front limit (y ∷ xs) positive)
      | inr fits ↦ rw fits refl
    ]

-- The block just recorded is the current one, whatever the window drops.
pub current_difficulty-record_block :
    (e : DifficultyEngine) (timestamp bits : ℕ)
    → current_difficulty (record_block e timestamp bits) ≡ bits
unfolding current_difficulty record_block
current_difficulty-record_block e timestamp bits =
    last_bits-trim_front (e.window_size + 1) (e.history ++ (timestamp, bits) ∷ []) (omega arith)
    ∙ last_bits-append e.history (timestamp, bits)

-- With two blocks or more the answered bits stand for the rule's target on numbers, rounded down by
-- less than one part in 32768.
next_from-RoundsTo :
    (first x : ℕ × ℕ) (rest : List (ℕ × ℕ))
    → length rest ≤ 11
    → NoneEasier (x ∷ rest)
    → RoundsTo
        (retarget
          (sum_by mined_at (x ∷ rest))
          (length (x ∷ rest))
          (last_timestamp first (x ∷ rest) - first.0))
        (value (target_from_bits (next_from 60_000 (first ∷ x ∷ rest))))
unfolding next_from
next_from-RoundsTo first x rest few sound =
    let spec = next_target-refines first (x ∷ rest) (omega arith) (omega arith) sound in
    let bound =
      retarget_bounds (sum_by mined_at (x ∷ rest)) (length (x ∷ rest))
        (last_timestamp first (x ∷ rest) - first.0) in
    rw (← spec) (
      target_to_bits-RoundsTo (next_target 60_000 first (x ∷ rest))
        (next_target-IsTarget 60_000 first (x ∷ rest)) (omega (arith, spec, bound.1)))

-- Where the engine's spacing is 60 seconds, its window is at most 12, its history holds two blocks or
-- more, at most one more than the window, and none of them was mined at a target easier than that of
-- `genesis_difficulty` (the bits of the genesis header are easier, so a history with that block is not
-- covered), the bits that it answers stand for the rule's target on numbers, less than one part in 32768
-- rounded off and never easier.
pub next_difficulty-RoundsTo :
    (e : DifficultyEngine) (first x : ℕ × ℕ) (rest : List (ℕ × ℕ)) (paced : IsPaced e)
    (recorded : e.history ≡ first ∷ x ∷ rest)
    → RoundsTo
        (retarget
          (sum_by mined_at (x ∷ rest))
          (length (x ∷ rest))
          (last_timestamp first (x ∷ rest) - first.0))
        (value (target_from_bits (next_difficulty e)))
unfolding next_difficulty
next_difficulty-RoundsTo e first x rest paced recorded =
    let sound : NoneEasier (first ∷ x ∷ rest) = subst NoneEasier recorded paced.sound in
    rw (paced.spaced, recorded)
      (next_from-RoundsTo first x rest
        (omega (arith, paced.windowed, paced.fitting, ap length recorded)) sound.1)

next_from_bounds :
    (history : List (ℕ × ℕ))
    → length history ≤ 13
    → NoneEasier history
    → (0 < value (target_from_bits (next_from 60_000 history)))
      × (value (target_from_bits (next_from 60_000 history)) ≤ genesis_target)
unfolding next_from
next_from_bounds [] few sound = omega (arith, genesis_difficulty-value)
next_from_bounds (first ∷ []) few sound = omega (arith, genesis_difficulty-value)
next_from_bounds (first ∷ x ∷ rest) few sound =
    let rounded = next_from-RoundsTo first x rest (omega arith) sound.1 in
    let bound =
      retarget_bounds (sum_by mined_at (x ∷ rest)) (length (x ∷ rest))
        (last_timestamp first (x ∷ rest) - first.0) in
    (omega (arith, rounded.1, bound.0), omega (arith, rounded.0, bound.1))

-- An engine never answers bits whose target is zero or easier than genesis.
pub next_difficulty_bounds :
    (e : DifficultyEngine) (paced : IsPaced e)
    → (0 < value (target_from_bits (next_difficulty e)))
      × (value (target_from_bits (next_difficulty e)) ≤ genesis_target)
unfolding next_difficulty
next_difficulty_bounds e paced =
    rw paced.spaced
      (next_from_bounds e.history (omega (arith, paced.windowed, paced.fitting)) paced.sound)

-- The engines that come about when each block is recorded at the bits that the engine answered.
pub data Mined (lane : LaneId) (network : NetworkType) : DifficultyEngine → Type 0 where
  start : Mined lane network (new_with_network lane network)
  mine :
      {e : DifficultyEngine} (timestamp : ℕ)
      → Mined lane network e
      → Mined lane network (record_block e timestamp (next_difficulty e))

-- An engine whose blocks were all mined at the bits that it answered is well-formed, whatever their
-- timestamps.
pub Mined-IsPaced :
    {lane : LaneId} {network : NetworkType} {e : DifficultyEngine} (mined : Mined lane network e)
    → IsPaced e
Mined-IsPaced {lane} {network} start = new_with_network-IsPaced lane network
Mined-IsPaced (mine {e} timestamp mined) =
    let paced = Mined-IsPaced mined in
    record_block-IsPaced e timestamp (next_difficulty e) paced (next_difficulty_bounds e paced).1

get_elem?-set_ne {ℓ} :
    {A : Type ℓ} (xs : List A) (i j : ℕ) (x : A) → i ≢ j → get_elem? (set xs i x) j ≡ get_elem? xs j
get_elem?-set_ne [] i j x h = refl
get_elem?-set_ne (y ∷ xs) zero zero x h = absurd (h refl)
get_elem?-set_ne (y ∷ xs) zero (suc j) x h = refl
get_elem?-set_ne (y ∷ xs) (suc i) zero x h = refl
get_elem?-set_ne (y ∷ xs) (suc i) (suc j) x h = get_elem?-set_ne xs i j x (λ e. h (ap suc e))

lane_code-ne : (a b : LaneId) → a ≢ b → lane_code a ≢ lane_code b
lane_code-ne a b h e = h (cc (lane_from_u8-lane_code a, lane_from_u8-lane_code b, e))

-- Recording a block of one lane leaves the answer for every other lane as it was.
pub get_next_difficulty-record_lane_block :
    (engines : DifficultyManager) (lane other : LaneId) (timestamp bits : ℕ) (apart : lane ≢ other)
    → get_next_difficulty (record_lane_block engines lane timestamp bits) other
      ≡ get_next_difficulty engines other
unfolding get_next_difficulty record_lane_block
get_next_difficulty-record_lane_block engines lane other timestamp bits apart =
    elim (Option-cases (get_elem? engines (lane_code lane))) [
      | inl missing ↦ rw (missing, record_lane_block) refl
      | inr (e, found) ↦
          let kept : get_elem? (set engines (lane_code lane) (record_block e timestamp bits))
                (lane_code other)
              ≡ get_elem? engines (lane_code other) =
            get_elem?-set_ne engines (lane_code lane) (lane_code other) _
              (lane_code-ne lane other apart) in
          rw (found, record_lane_block, kept, get_next_difficulty) refl
    ]

-- An engine that records its blocks at the bits that it answers never answers bits whose target is zero
-- or easier than genesis, whatever the timestamps.
pub Mined-next_difficulty :
    (lane : LaneId) (network : NetworkType) (e : DifficultyEngine) (mined : Mined lane network e)
    → (0 < value (target_from_bits (next_difficulty e)))
      × (value (target_from_bits (next_difficulty e)) ≤ genesis_target)
Mined-next_difficulty lane network e mined = next_difficulty_bounds e (Mined-IsPaced mined)
