-- ===== src/Node/Headers/Accepted.antt =====
-- node.rs: the headers that are accepted, and the walk for the expected difficulty.
use zentra_chain.Prelude.{
  ℕ, zero, suc, ◌+◌, ◌≤◌, ◌<◌, ◌≡◌, ◌≢◌, refl, ap, true, not, ◌||◌, Option, none, some, List, [],
  length, leb, ltb, ◌==◌, ==_iff, Bool-cases, Option-cases, inl, inr, ok, err, is_ok, Result,
  fail_if-ok, leb→le, arith,
}
use mathlib.Core.Logic.{◌⊎◌}
use zentra_chain.Prelude.Words
use zentra_chain.Prelude.Words.{u64_max, saturating_add-le}
use zentra_chain.Types.{Hash, zero_hash, NetworkType, LaneId}
use zentra_chain.Core.Data.{Header, Crypto}
use zentra_chain.Core.Blocks.{validate_header_basic}
use zentra_chain.Consensus.Lanes.{verify_block_pow}
use zentra_chain.Node.Reorganize.{Stores}
use zentra_chain.Node.Headers.{
  HeaderError, header_of, step_back, with_header, lane_history, calculate_expected_difficulty,
  past_times, check_median, max_future_ms, check_bits, after_guards, header_guards,
  validate_block_header,
}
use zentra_chain.Node.Headers.Median.{earlier, check_median-earlier}

walk_zero :
    (st : Stores) (lane : LaneId) (fuel : ℕ) (history : List (ℕ × ℕ))
    → 0 < fuel
    → (found : List (ℕ × ℕ)) × (lane_history st lane fuel zero_hash history ≡ some found)
unfolding lane_history
walk_zero st lane zero history positive = absurd (omega arith)
walk_zero st lane (suc fuel) history positive = (history, refl)

-- Where each step back goes to a block of a lower rank, such as its blue score, or to the zero hash, the
-- walk from a block ends within one round more than the block's rank.
pub lane_history-ends :
    (st : Stores) (lane : LaneId) (rank : Hash → ℕ) (fuel : ℕ) (h : Hash) (history : List (ℕ × ℕ))
    (falls : (h : Hash) (hd : Header)
      → header_of st h ≡ some hd
      → step_back st h hd ≢ zero_hash
      → rank (step_back st h hd) < rank h)
    (enough : rank h + 1 < fuel)
    → (found : List (ℕ × ℕ)) × (lane_history st lane fuel h history ≡ some found)
unfolding lane_history
lane_history-ends st lane rank zero h history falls enough = absurd (omega arith)
lane_history-ends st lane rank (suc fuel) h history falls enough =
    elim (Bool-cases ((h == zero_hash) || leb 20 (length history))) [
      | inl ends ↦ (history, rw ends refl)
      | inr goes ↦ elim (Option-cases (header_of st h)) [
        | inl missing ↦ (history, rw (goes, missing) refl)
        | inr (hd, found) ↦
            rw (goes, found)
              (elim (Bool-cases (step_back st h hd == zero_hash)) [
                | inl last ↦
                    rw ((==_iff (step_back st h hd) zero_hash).0 last)
                      (walk_zero st lane fuel (with_header lane hd history) (omega arith))
                | inr other ↦
                    let apart : step_back st h hd ≢ zero_hash =
                      λ e. cc ((==_iff (step_back st h hd) zero_hash).1 e, other) in
                    lane_history-ends st lane rank fuel (step_back st h hd)
                      (with_header lane hd history) falls (omega (arith, falls h hd found apart))
              ])
      ]
    ]

module _ (c : Crypto) (sha256 : List ℕ → List ℕ) (st : Stores) (h : Header) where
  after_guards-ok :
      (r : Result HeaderError (Unit {0})) (o : Option ℕ)
      → after_guards c sha256 st h r o ≡ some (ok tt)
      → (r ≡ ok tt) × (check_bits c sha256 st h o ≡ some (ok tt))
  after_guards-ok (err e) o passed = absurd (cc)
  after_guards-ok (ok u) o passed = (refl, passed)

  check_bits-ok :
      (o : Option ℕ)
      → check_bits c sha256 st h o ≡ some (ok tt)
      → (o ≡ some h.bits) × (check_median h.timestamp (past_times st 11 [] h.parents) ≡ ok tt)
  check_bits-ok none passed = absurd (cc)
  check_bits-ok (some expected) passed =
      let (same, later) =
        fail_if-ok (not (h.bits == expected)) HeaderError.difficulty_mismatch
          (check_median h.timestamp (past_times st 11 [] h.parents)) (cc passed) in
      (ap some (ground (arith, same)), later)

-- A header that `validate_block_header` accepts is structurally sound, its work meets the target of its
-- bits, its bits are the expected difficulty, its time is at most two hours past the clock, and
-- fewer than eleven past timestamps are found or it is later than at least six of them.
pub validate_block_header-accepted :
    (c : Crypto) (sha256 : List ℕ → List ℕ) (st : Stores) (network : NetworkType) (fuel : ℕ)
    (h : Header) (now : ℕ)
    (accepted : validate_block_header c sha256 st network fuel h now ≡ some (ok tt))
    → (is_ok (validate_header_basic h) ≡ true)
      × (is_ok (verify_block_pow c sha256 h) ≡ true)
      × (calculate_expected_difficulty st network fuel h.parents h.lane_id ≡ some h.bits)
      × (h.timestamp ≤ now + max_future_ms)
      × ((length (past_times st 11 [] h.parents) < 11)
          ⊎ (6 ≤ earlier h.timestamp (past_times st 11 [] h.parents)))
unfolding validate_block_header header_guards
validate_block_header-accepted c sha256 st network fuel h now accepted =
    let (guarded, checked) =
      after_guards-ok c sha256 st h (header_guards c sha256 st h now)
        (calculate_expected_difficulty st network fuel h.parents h.lane_id) accepted in
    let (expected, later) =
      check_bits-ok c sha256 st h
        (calculate_expected_difficulty st network fuel h.parents h.lane_id) checked in
    let (sound, h1) =
      fail_if-ok (not (is_ok (validate_header_basic h))) HeaderError.structure _ guarded in
    let (worked, h2) =
      fail_if-ok (not (is_ok (verify_block_pow c sha256 h))) HeaderError.pow _ h1 in
    let (near, h3) =
      fail_if-ok (ltb (Words.saturating_add u64_max now max_future_ms) h.timestamp)
        HeaderError.too_far_in_future _ h2 in
    let times = past_times st 11 [] h.parents in
    (
      ground (arith, sound),
      ground (arith, worked),
      expected,
      ground (arith, near, saturating_add-le u64_max now max_future_ms),
      elim (Bool-cases (leb 11 (length times))) [
        | inl many ↦
            let enough : 11 ≤ length times = leb→le 11 (length times) many in
            inr (omega (arith, enough, check_median-earlier h.timestamp times enough later))
        | inr few ↦ inl (ground (arith, few))
      ],
    )
