-- ===== src/Tests/Runtime.antt =====
-- Runs of governance, and the witnesses of its results.
use zentra_chain.Prelude.Words
use zentra_chain.Prelude.{◌+◌, ◌^◌, ◌≡◌, ◌≤◌, ◌<◌, refl, [], ◌∷◌, sum_by, true, ok, arith}
use zentra_chain.Runtime.Governance
use zentra_chain.Runtime.Governance.{
  GovernanceParams, GovernanceEngine, GovernanceProposal, default_params, validate, with_params,
  propose, vote, process_proposals, get_proposal, pending_count,
}
use zentra_chain.Runtime.Governance.Rounds.{process_proposals-settled, settled, first_accepted}
use zentra_chain.Runtime.Governance.Votes.{has_id, applied_as}
use zentra_chain.Runtime.Governance.Reached.{Reached, start, submit, cast, settle, Reached-governed}

abbrev cheaper : GovernanceParams
cheaper = record default_params { min_tx_fee = 10 }

abbrev dearer : GovernanceParams
dearer = record default_params { min_tx_fee = 99_999 }

-- Two proposals, both with votes, and a round after their windows.
abbrev proposed : GovernanceEngine
proposed = (propose dearer 20 (propose cheaper 10 (with_params default_params)).1).1

abbrev voted_for : GovernanceEngine
voted_for = (vote 2 true 7 (vote 1 true 5 proposed).1).1

abbrev after_round : GovernanceEngine
after_round = process_proposals 2_000_000 voted_for

-- The first one is applied, and the second one is dropped.
first_wins : after_round.current_params.min_tx_fee ≡ 10
unfolding process_proposals Governance.process_loop vote Governance.vote_on propose validate
    with_params Governance.submitted Governance.count_vote Governance.process_one
    Governance.is_expired Governance.is_approved Words.saturating_add Governance.first_round
first_wins = refl

one_applied : after_round.applied_history ≡ (1, 2_000_000) ∷ []
unfolding process_proposals Governance.process_loop vote Governance.vote_on propose validate
    with_params Governance.submitted Governance.count_vote Governance.process_one
    Governance.is_expired Governance.is_approved Words.saturating_add Governance.first_round
one_applied = refl

none_left : pending_count after_round ≡ 0
unfolding pending_count process_proposals Governance.process_loop vote Governance.vote_on propose
    validate with_params Governance.submitted Governance.count_vote Governance.process_one
    Governance.is_expired Governance.is_approved Words.saturating_add Governance.first_round
none_left = refl

default_allowed : validate default_params ≡ ok tt
unfolding validate
default_allowed = refl

first_fits : (with_params default_params).next_proposal_id + 1 < 2 ^ 64
unfolding with_params
first_fits = omega arith

next_fits : (propose cheaper 10 (with_params default_params)).1.next_proposal_id + 1 < 2 ^ 64
unfolding propose validate with_params
next_fits = omega arith

after_round-Reached : Reached after_round
after_round-Reached = settle 2_000_000 (
    cast 2 true 7 (
      cast 1 true 5 (
        submit dearer 20 next_fits
          (submit cheaper 10 first_fits (start default_params default_allowed)))))

Reached-governed_example :
    (validate after_round.current_params ≡ ok tt)
    × (sum_by (has_id 1) after_round.pending_proposals
          + sum_by (applied_as 1) after_round.applied_history
        ≤ 1)
Reached-governed_example = Reached-governed after_round after_round-Reached 1

process_proposals-settled_example :
    process_proposals 2_000_000 voted_for
    ≡ settled 2_000_000 (first_accepted 2_000_000 voted_for.pending_proposals) voted_for
process_proposals-settled_example = process_proposals-settled 2_000_000 voted_for
