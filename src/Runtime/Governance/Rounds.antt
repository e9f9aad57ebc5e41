-- ===== src/Runtime/Governance/Rounds.antt =====
-- governance.rs, `process_proposals` against a description that looks at the pending list once.
use zentra_chain.Prelude.{
  ℕ, ◌≡◌, ◌∙◌, refl, ap, sym, Bool, true, false, ◌&&◌, not, List, [], ◌∷◌, ◌++◌, Option, none, some,
  keep, if◌then◌else◌, Bool-cases, inl, inr,
}
use mathlib.Core.List.{append_assoc, append-nil}
use zentra_chain.Runtime.Governance.{
  GovernanceProposal, GovernanceEngine, GovernanceParams, Round, is_approved, is_expired,
  process_one, process_loop, process_proposals, first_round,
}

abbrev pub is_open : ℕ → GovernanceProposal → Bool
is_open height p = not (is_expired p height)

-- The first proposal whose window has closed with more votes for than against.
unfoldable pub first_accepted : ℕ → List GovernanceProposal → Option GovernanceProposal
first_accepted height [] = none
first_accepted height (p ∷ ps) =
    let rest = first_accepted height ps in
    if is_expired p height && is_approved p then some p else rest

-- The state after a round in which that proposal, if any, was accepted.
unfoldable pub settled : ℕ → Option GovernanceProposal → GovernanceEngine → GovernanceEngine
settled height none e = record e { pending_proposals = keep (is_open height) e.pending_proposals }
settled height (some p) e = record e {
  current_params = p.proposed_params;
  pending_proposals = keep (is_open height) e.pending_proposals;
  applied_history = e.applied_history ++ (p.id, height) ∷ [];
}

abbrev round_of : GovernanceParams → List (ℕ × ℕ) → Bool → List GovernanceProposal → Round
round_of params history applied pending = record {
  params = params;
  history = history;
  applied_this_round = applied;
  still_pending = pending;
}

-- Once a proposal is applied, the rest of the round only drops what has expired.
process_loop-applied :
    (height : ℕ) (ps : List GovernanceProposal) (params : GovernanceParams) (history : List (ℕ × ℕ))
    (pending : List GovernanceProposal)
    → process_loop height ps (round_of params history true pending)
      ≡ round_of params history true (pending ++ keep (is_open height) ps)
unfolding process_loop process_one
process_loop-applied height [] params history pending =
    ap (round_of params history true) (sym (append-nil pending))
process_loop-applied height (p ∷ ps) params history pending =
    elim (Bool-cases (is_expired p height)) [
      | inr later ↦
          rw (process_one, later)
            (process_loop-applied height ps params history (pending ++ p ∷ [])
              ∙ ap (round_of params history true) (append_assoc pending (p ∷ []) _))
      | inl closed ↦ elim (Bool-cases (is_approved p)) [
        | inl approved ↦
            rw (process_one, closed, approved)
              (process_loop-applied height ps params history pending)
        | inr rejected ↦
            rw (process_one, closed, rejected)
              (process_loop-applied height ps params history pending)
      ]
    ]

-- The round's result from a start at which nothing is applied yet.
abbrev outcome :
    ℕ
    → Option GovernanceProposal
    → GovernanceParams
    → List (ℕ × ℕ)
    → List GovernanceProposal
    → Round
outcome height none params history pending = round_of params history false pending
outcome height (some p) params history pending =
    round_of p.proposed_params (history ++ (p.id, height) ∷ []) true pending

process_loop-outcome :
    (height : ℕ) (ps : List GovernanceProposal) (params : GovernanceParams) (history : List (ℕ × ℕ))
    (pending : List GovernanceProposal)
    → process_loop height ps (round_of params history false pending)
      ≡ outcome height
          (first_accepted height ps)
          params
          history
          (pending ++ keep (is_open height) ps)
unfolding process_loop process_one first_accepted
process_loop-outcome height [] params history pending =
    ap (round_of params history false) (sym (append-nil pending))
process_loop-outcome height (p ∷ ps) params history pending =
    elim (Bool-cases (is_expired p height)) [
      | inr later ↦
          rw (process_one, later)
            (process_loop-outcome height ps params history (pending ++ p ∷ [])
              ∙ ap (outcome height (first_accepted height ps) params history)
                  (append_assoc pending (p ∷ []) _))
      | inl closed ↦ elim (Bool-cases (is_approved p)) [
        | inl approved ↦
            rw (process_one, closed, approved)
              (process_loop-applied height ps p.proposed_params (history ++ (p.id, height) ∷ [])
                pending)
        | inr rejected ↦
            rw (process_one, closed, rejected)
              (process_loop-outcome height ps params history pending)
      ]
    ]

settle :
    (height : ℕ) (accepted : Option GovernanceProposal) (e : GovernanceEngine) (r : Round)
    → r
      ≡ outcome height accepted e.current_params e.applied_history
          (keep (is_open height) e.pending_proposals)
    → record e {
      current_params = r.params;
      pending_proposals = r.still_pending;
      applied_history = r.history;
    }
      ≡ settled height accepted e
unfolding settled
settle height none e r h = rw h refl
settle height (some p) e r h = rw h refl

-- A round applies the first proposal in the order of submission that is expired and approved, records
-- it at this height, keeps exactly the proposals that are not expired, and changes nothing else.
pub process_proposals-settled :
    (height : ℕ) (e : GovernanceEngine)
    → process_proposals height e ≡ settled height (first_accepted height e.pending_proposals) e
unfolding process_proposals first_round
process_proposals-settled height e =
    settle height (first_accepted height e.pending_proposals) e _
      (process_loop-outcome height e.pending_proposals e.current_params e.applied_history [])
