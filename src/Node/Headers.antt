-- ===== src/Node/Headers.antt =====
-- node.rs: `calculate_expected_difficulty` and `validate_block_header`. The clock's reading is an
-- argument, and the stores are those of the reorganisation. Error texts are left out.
pub mod Median
pub mod Accepted
use zentra_chain.Prelude.{
  ℕ, zero, suc, ◌+◌, ◌-◌, ◌/◌, Bool, true, false, not, ◌||◌, Option, none, some, List, [], ◌∷◌,
  ◌++◌, ◌==◌, ltb, leb, contains, reverse, length, get_elem?, if◌then◌else◌, ok, err, is_ok,
  fail_if, Result, ◌>>◌,
}
use zentra_chain.Prelude.Words
use zentra_chain.Prelude.Words.{u64_max}
use zentra_chain.Prelude.Map.{get, nat_key}
use zentra_chain.Types.{Hash, zero_hash, LaneId, lane_code, NetworkType}
use zentra_chain.Core.Data.{Block, Header, Crypto}
use zentra_chain.Core.Blocks.{validate_header_basic}
use zentra_chain.Consensus.Difficulty.{
  DifficultyEngine, new_with_network, record_block, next_difficulty, genesis_difficulty,
}
use zentra_chain.Consensus.Lanes.{verify_block_pow}
use zentra_chain.Node.Reorganize.{Stores, first_parent}

pub data HeaderError : Type 0 where
  structure pow too_far_in_future difficulty_mismatch not_after_median : HeaderError

abbrev stored_header : Option Block → Option Header
stored_header none = none
stored_header (some b) = some b.header

-- `dag.get_header`
abbrev pub header_of : Stores → Hash → Option Header
header_of st h = stored_header (get h st.blocks)

-- One turn of the search for the heaviest parent: the hash and the score so far.
abbrev heavier : Hash → Option Header → Hash × ℕ → Hash × ℕ
heavier p none best = best
heavier p (some h) best = if leb best.1 h.blue_score then (p, h.blue_score) else best

unfoldable pub heaviest_parent : Stores → List Hash → Hash × ℕ → Hash × ℕ
heaviest_parent st [] best = best
heaviest_parent st (p ∷ ps) best = heaviest_parent st ps (heavier p (header_of st p) best)

-- The next hash of the walk: the selected parent, or the first parent where no data is stored.
abbrev pub step_back : Stores → Hash → Header → Hash
step_back st h hd = elim (st.ghostdag h) [
  | none ↦ first_parent hd.parents
  | some d ↦ d.selected_parent
]

-- `history`, with a header of the lane at its end.
abbrev pub with_header : LaneId → Header → List (ℕ × ℕ) → List (ℕ × ℕ)
with_header lane hd history =
    if lane_code hd.lane_id == lane_code lane
    then history ++ (hd.timestamp, hd.bits) ∷ []
    else history

-- The walk back from the heaviest parent, on fuel; `none` when the fuel runs out.
unfoldable pub lane_history : Stores → LaneId → ℕ → Hash → List (ℕ × ℕ) → Option (List (ℕ × ℕ))
lane_history st lane zero h history = none
lane_history st lane (suc fuel) h history =
    let further : Option (List (ℕ × ℕ)) = elim (header_of st h) [
      | none ↦ some history
      | some hd ↦ lane_history st lane fuel (step_back st h hd) (with_header lane hd history)
    ] in
    if (h == zero_hash) || leb 20 (length history) then some history else further

unfoldable pub record_history : List (ℕ × ℕ) → DifficultyEngine → DifficultyEngine
record_history [] e = e
record_history (x ∷ xs) e = record_history xs (record_block e x.0 x.1)

abbrev difficulty_after : LaneId → NetworkType → Option (List (ℕ × ℕ)) → Option ℕ
difficulty_after lane network none = none
difficulty_after lane network (some history) =
    some (next_difficulty (record_history (reverse history) (new_with_network lane network)))

unfoldable pub calculate_expected_difficulty :
    Stores → NetworkType → ℕ → List Hash → LaneId → Option ℕ
calculate_expected_difficulty st network fuel parents lane =
    let selected = (heaviest_parent st parents (zero_hash, 0)).0 in
    if selected == zero_hash
    then some genesis_difficulty
    else difficulty_after lane network (lane_history st lane fuel selected [])

abbrev keep_heavier : Hash → Header → Option (Hash × Header) → Option (Hash × Header)
keep_heavier p h none = some (p, h)
keep_heavier p h (some next) = if ltb next.1.blue_score h.blue_score then some (p, h) else some next

abbrev consider : List Hash → Hash → Option Header → Option (Hash × Header) → Option (Hash × Header)
consider visited p none next = next
consider visited p (some h) next = if contains p visited then next else keep_heavier p h next

-- The `for` loop over the cursor.
unfoldable pub heaviest_unvisited :
    Stores → List Hash → List Hash → Option (Hash × Header) → Option (Hash × Header)
heaviest_unvisited st visited [] next = next
heaviest_unvisited st visited (p ∷ ps) next =
    heaviest_unvisited st visited ps (consider visited p (header_of st p) next)

-- The `while` loop, with the number of timestamps that it still wants.
unfoldable pub past_times : Stores → ℕ → List Hash → List Hash → List ℕ
past_times st zero visited cursor = []
past_times st (suc wanted) visited cursor = elim (heaviest_unvisited st visited cursor none) [
  | none ↦ []
  | some next ↦ next.1.timestamp ∷ past_times st wanted (next.0 ∷ visited) next.1.parents
]

abbrev pub insert_time : ℕ → List ℕ → List ℕ
insert_time t [] = t ∷ []
insert_time t (x ∷ xs) = let rest = insert_time t xs in if leb t x then t ∷ x ∷ xs else x ∷ rest

-- `sort_unstable`
abbrev pub sort : List ℕ → List ℕ
sort [] = []
sort (t ∷ ts) = insert_time t (sort ts)

abbrev pub time_of : Option ℕ → ℕ
time_of none = 0
time_of (some t) = t

-- `times[times.len() / 2]` of the sorted times; the index is in range.
abbrev pub median : List ℕ → ℕ
median times = time_of (get_elem? (sort times) (length times / 2))

unfoldable pub check_median : ℕ → List ℕ → Result HeaderError (Unit {0})
check_median timestamp times =
    if leb 11 (length times)
    then fail_if (leb timestamp (median times)) HeaderError.not_after_median
    else ok tt

-- `2 * 60 * 60 * 1000`
abbrev pub max_future_ms : ℕ
max_future_ms = 7_200_000

module _ (c : Crypto) (sha256 : List ℕ → List ℕ) (st : Stores) where
  abbrev pub check_bits : Header → Option ℕ → Option (Result HeaderError (Unit {0}))
  check_bits h none = none
  check_bits h (some expected) = some (do
    fail_if (not (h.bits == expected)) HeaderError.difficulty_mismatch
    check_median h.timestamp (past_times st 11 [] h.parents))

  abbrev pub after_guards :
      Header → Result HeaderError (Unit {0}) → Option ℕ → Option (Result HeaderError (Unit {0}))
  after_guards h (err e) expected = some (err e)
  after_guards h (ok _) expected = check_bits h expected

  unfoldable pub header_guards : Header → ℕ → Result HeaderError (Unit {0})
  header_guards h now = do
    fail_if (not (is_ok (validate_header_basic h))) HeaderError.structure
    fail_if (not (is_ok (verify_block_pow c sha256 h))) HeaderError.pow
    fail_if (ltb (Words.saturating_add u64_max now max_future_ms) h.timestamp)
        HeaderError.too_far_in_future
    ok tt

  -- `validate_block_header`; `none` means that the walk for the difficulty ran out of fuel.
  unfoldable pub validate_block_header :
      NetworkType → ℕ → Header → ℕ → Option (Result HeaderError (Unit {0}))
  validate_block_header network fuel h now =
      after_guards h (header_guards h now)
        (calculate_expected_difficulty st network fuel h.parents h.lane_id)
