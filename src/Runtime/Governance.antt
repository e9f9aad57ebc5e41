-- ===== src/Runtime/Governance.antt =====
-- governance.rs: parameters, proposals, votes and the round that applies an approved proposal. Heights,
-- ids and votes are u64 words; a sum without a check wraps. The log messages are left out.
pub mod Rounds
pub mod Votes
pub mod Reached
use zentra_chain.Prelude.{
  ℕ, ◌+◌, ◌*◌, ◌%◌, ◌^◌, Bool, true, false, ◌&&◌, not, List, [], ◌∷◌, ◌++◌, Option, none, some,
  length, leb, ltb, ◌==◌, if◌then◌else◌, ZentraError, ZentraResult, Result, ok, err, fail_if, ◌>>◌,
}
use zentra_chain.Prelude.Words
use zentra_chain.Prelude.Words.{u64_max}
use zentra_chain.Types.{max_block_size, max_txs_per_block, min_tx_fee_zents}

abbrev pub default_voting_window_blocks : ℕ
default_voting_window_blocks = 1_728_000

pub record GovernanceParams : Type 0 where
  pub gas_price_multiplier : ℕ
  pub max_block_size : ℕ
  pub max_txs_per_block : ℕ
  pub min_tx_fee : ℕ

-- `GovernanceParams::default`
abbrev pub default_params : GovernanceParams
default_params = record {
  gas_price_multiplier = 10_000;
  max_block_size = max_block_size;
  max_txs_per_block = max_txs_per_block;
  min_tx_fee = min_tx_fee_zents;
}

unfoldable pub validate : GovernanceParams → ZentraResult (Unit {0})
validate p = do
  fail_if (p.gas_price_multiplier == 0) ZentraError.wasm_runtime
  fail_if (p.max_block_size == 0) ZentraError.wasm_runtime
  fail_if (p.max_txs_per_block == 0) ZentraError.wasm_runtime
  fail_if (ltb (100 * 1_048_576) p.max_block_size) ZentraError.wasm_runtime
  fail_if (ltb 1_000_000 p.max_txs_per_block) ZentraError.wasm_runtime
  ok tt

pub record GovernanceProposal : Type 0 where
  pub id : ℕ
  pub proposed_params : GovernanceParams
  pub votes_for : ℕ
  pub votes_against : ℕ
  pub proposed_at_height : ℕ
  pub expires_at_height : ℕ

unfoldable pub is_approved : GovernanceProposal → Bool
is_approved p = ltb p.votes_against p.votes_for && ltb 0 p.votes_for

unfoldable pub is_expired : GovernanceProposal → ℕ → Bool
is_expired p current_height = leb p.expires_at_height current_height

pub record GovernanceEngine : Type 0 where
  pub current_params : GovernanceParams
  pub pending_proposals : List GovernanceProposal
  pub next_proposal_id : ℕ
  -- The id of each applied proposal and the height at which it was applied, oldest first.
  pub applied_history : List (ℕ × ℕ)

-- `GovernanceEngine::with_params`
unfoldable pub with_params : GovernanceParams → GovernanceEngine
with_params params = record {
  current_params = params;
  pending_proposals = [];
  next_proposal_id = 1;
  applied_history = [];
}

-- `GovernanceEngine::new`
unfoldable pub new_governance : GovernanceEngine
unfolding with_params
new_governance = with_params default_params

abbrev pub Answer : Type 0 → Type 0
Answer A = ZentraResult A × GovernanceEngine

unfoldable pub submitted : GovernanceParams → ℕ → GovernanceEngine → GovernanceProposal
submitted params height e = record {
  id = e.next_proposal_id;
  proposed_params = params;
  votes_for = 0;
  votes_against = 0;
  proposed_at_height = height;
  expires_at_height = (height + default_voting_window_blocks) % 2 ^ 64;
}

unfoldable pub propose : GovernanceParams → ℕ → GovernanceEngine → Answer ℕ
propose params height e = elim (validate params) [
  | err error ↦ (err error, e)
  | ok _ ↦ (
    ok e.next_proposal_id,
    record e {
      next_proposal_id = (e.next_proposal_id + 1) % 2 ^ 64;
      pending_proposals = e.pending_proposals ++ submitted params height e ∷ [];
    },
  )
]

unfoldable pub count_vote : Bool → ℕ → GovernanceProposal → GovernanceProposal
count_vote approve power p =
    if approve
    then record p { votes_for = Words.saturating_add u64_max p.votes_for power }
    else record p { votes_against = Words.saturating_add u64_max p.votes_against power }

-- `iter_mut().find(..)` and the change of what it found; `none` where no proposal has the id.
unfoldable pub vote_on : ℕ → Bool → ℕ → List GovernanceProposal → Option (List GovernanceProposal)
vote_on id approve power [] = none
vote_on id approve power (p ∷ ps) =
    let rest : Option (List GovernanceProposal) = elim (vote_on id approve power ps) [
      | none ↦ none
      | some qs ↦ some (p ∷ qs)
    ] in
    if p.id == id then some (count_vote approve power p ∷ ps) else rest

unfoldable pub vote : ℕ → Bool → ℕ → GovernanceEngine → Answer (Unit {0})
vote id approve power e =
    if power == 0
    then (err ZentraError.wasm_runtime, e)
    else elim (vote_on id approve power e.pending_proposals) [
      | none ↦ (err ZentraError.wasm_runtime, e)
      | some ps ↦ (ok tt, record e { pending_proposals = ps })
    ]

-- What the loop of `process_proposals` changes.
pub record Round : Type 0 where
  pub params : GovernanceParams
  pub history : List (ℕ × ℕ)
  pub applied_this_round : Bool
  pub still_pending : List GovernanceProposal

unfoldable pub process_one : ℕ → GovernanceProposal → Round → Round
process_one height p r =
    if is_expired p height
    then if is_approved p && not r.applied_this_round
      then record r {
        params = p.proposed_params;
        history = r.history ++ (p.id, height) ∷ [];
        applied_this_round = true;
      }
      else r
    else record r { still_pending = r.still_pending ++ p ∷ [] }

unfoldable pub process_loop : ℕ → List GovernanceProposal → Round → Round
process_loop height [] r = r
process_loop height (p ∷ ps) r = process_loop height ps (process_one height p r)

unfoldable pub first_round : GovernanceEngine → Round
first_round e = record {
  params = e.current_params;
  history = e.applied_history;
  applied_this_round = false;
  still_pending = [];
}

unfoldable pub process_proposals : ℕ → GovernanceEngine → GovernanceEngine
process_proposals height e =
    let r = process_loop height e.pending_proposals (first_round e) in
    record e {
      current_params = r.params;
      pending_proposals = r.still_pending;
      applied_history = r.history;
    }

unfoldable pub pending_count : GovernanceEngine → ℕ
pending_count e = length e.pending_proposals

unfoldable pub find_proposal : ℕ → List GovernanceProposal → Option GovernanceProposal
find_proposal id [] = none
find_proposal id (p ∷ ps) = let rest = find_proposal id ps in if p.id == id then some p else rest

unfoldable pub get_proposal : ℕ → GovernanceEngine → Option GovernanceProposal
get_proposal id e = find_proposal id e.pending_proposals
