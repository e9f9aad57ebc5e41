-- ===== src/Runtime/Governance/Reached.antt =====
-- governance.rs: the engines that calls can bring about.
use zentra_chain.Prelude.{
  ℕ, ◌+◌, ◌%◌, ◌^◌, ◌≡◌, ◌≤◌, ◌<◌, refl, Bool, List, [], ◌∷◌, ◌++◌, Option, none, some, sum_by,
  sum_by-append, All, ◌==◌, if◌then◌else◌, Bool-cases, Option-cases, inl, inr, ok, err,
  ZentraResult, arith,
}
use zentra_chain.Runtime.Governance.{
  GovernanceProposal, GovernanceEngine, GovernanceParams, validate, with_params, submitted, propose,
  vote_on, vote, process_proposals,
}
use zentra_chain.Runtime.Governance.Votes.{
  IsAllowed, has_id, applied_as, vote_on-Kept, kept_ids, accepted_ids, accepted-IsAllowed,
  keep-IsAllowed,
}
use zentra_chain.Runtime.Governance.Rounds.{first_accepted, settled, process_proposals-settled}

-- How often an id stands among the pending proposals and in the history.
abbrev pub occurs : ℕ → GovernanceEngine → ℕ
occurs id e = sum_by (has_id id) e.pending_proposals + sum_by (applied_as id) e.applied_history

pub record IsGoverned (e : GovernanceEngine) : Type 0 where
  pub allowed : IsAllowed e.current_params
  pub pending_allowed : All (λ p. IsAllowed p.proposed_params) e.pending_proposals
  pub once : (id : ℕ) → occurs id e ≤ 1
  pub fresh : (id : ℕ) → e.next_proposal_id ≤ id → occurs id e ≡ 0

with_params-IsGoverned :
    (params : GovernanceParams) → IsAllowed params → IsGoverned (with_params params)
unfolding with_params
with_params-IsGoverned params allowed = record {
  allowed = allowed;
  pending_allowed = tt;
  once = λ id. omega arith;
  fresh = λ id h. refl;
}

All-append :
    (xs ys : List GovernanceProposal)
    → All (λ p. IsAllowed p.proposed_params) xs
    → All (λ p. IsAllowed p.proposed_params) ys
    → All (λ p. IsAllowed p.proposed_params) (xs ++ ys)
All-append [] ys hx hy = hy
All-append (x ∷ xs) ys hx hy = (hx.0, All-append xs ys hx.1 hy)

-- The engine after an accepted proposal.
submit-IsGoverned :
    (params : GovernanceParams) (height : ℕ) (e : GovernanceEngine)
    → IsAllowed params
    → e.next_proposal_id + 1 < 2 ^ 64
    → IsGoverned e
    → IsGoverned (record e {
      next_proposal_id = (e.next_proposal_id + 1) % 2 ^ 64;
      pending_proposals = e.pending_proposals ++ submitted params height e ∷ [];
    })
unfolding submitted
submit-IsGoverned params height e allowed room g =
    let grown : (id : ℕ)
        → sum_by (has_id id) (e.pending_proposals ++ submitted params height e ∷ [])
          ≡ sum_by (has_id id) e.pending_proposals
            + ((if e.next_proposal_id == id then 1 else 0) + 0) =
      λ id. sum_by-append (has_id id) e.pending_proposals (submitted params height e ∷ []) in
    record {
      allowed = g.allowed;
      pending_allowed = All-append e.pending_proposals _ g.pending_allowed (allowed, tt);
      once = λ id. ground (arith, g.once id, g.fresh id, grown id);
      fresh = λ id h. ground (arith, g.fresh id, grown id);
    }

propose-IsGoverned :
    (params : GovernanceParams) (height : ℕ) (e : GovernanceEngine)
    → e.next_proposal_id + 1 < 2 ^ 64
    → IsGoverned e
    → IsGoverned (propose params height e).1
unfolding propose
propose-IsGoverned params height e room g = submit_if (validate params) refl
  where
    submit_if :
        (answer : ZentraResult (Unit {0}))
        → validate params ≡ answer
        → IsGoverned
            (elim answer as (λ _. ZentraResult ℕ × GovernanceEngine) [
              | err error ↦ (err error, e)
              | ok _ ↦ (
                ok e.next_proposal_id,
                record e {
                  next_proposal_id = (e.next_proposal_id + 1) % 2 ^ 64;
                  pending_proposals = e.pending_proposals ++ submitted params height e ∷ [];
                },
              )
            ]).1
    submit_if (err error) e1 = g
    submit_if (ok u) e1 = submit-IsGoverned params height e e1 room g

vote-IsGoverned :
    (id : ℕ) (approve : Bool) (power : ℕ) (e : GovernanceEngine)
    → IsGoverned e
    → IsGoverned (vote id approve power e).1
unfolding vote
vote-IsGoverned id approve power e g = elim (Bool-cases (power == 0)) [
  | inl powerless ↦ rw (vote, powerless) g
  | inr weighty ↦ elim (Option-cases (vote_on id approve power e.pending_proposals)) [
    | inl missing ↦ rw (vote, weighty, missing) g
    | inr (qs, found) ↦
        let kept = vote_on-Kept id approve power e.pending_proposals qs found in
        rw (vote, weighty, found)
          record {
            allowed = g.allowed;
            pending_allowed = kept.0 g.pending_allowed;
            once = λ other. omega (arith, kept.1 other, g.once other);
            fresh = λ other h. omega (arith, kept.1 other, g.fresh other h);
          }
  ]
]

settled-IsGoverned :
    (height : ℕ) (e : GovernanceEngine) (accepted : Option GovernanceProposal)
    → first_accepted height e.pending_proposals ≡ accepted
    → IsGoverned e
    → IsGoverned (settled height accepted e)
unfolding settled
settled-IsGoverned height e none found g = record {
  allowed = g.allowed;
  pending_allowed = keep-IsAllowed height e.pending_proposals g.pending_allowed;
  once = λ id. omega (arith, g.once id, kept_ids height id e.pending_proposals);
  fresh = λ id h. omega (arith, g.fresh id h, kept_ids height id e.pending_proposals);
}
settled-IsGoverned height e (some p) found g =
    let moved : (id : ℕ) → occurs id (settled height (some p) e) ≤ occurs id e = λ id. omega (
      arith,
      accepted_ids height id e.pending_proposals p found,
      sum_by-append (applied_as id) e.applied_history ((p.id, height) ∷ []),
    ) in
    record {
      allowed = accepted-IsAllowed height e.pending_proposals p found g.pending_allowed;
      pending_allowed = keep-IsAllowed height e.pending_proposals g.pending_allowed;
      once = λ id. omega (arith, g.once id, moved id);
      fresh = λ id h. omega (arith, g.fresh id h, moved id);
    }

process_proposals-IsGoverned :
    (height : ℕ) (e : GovernanceEngine) → IsGoverned e → IsGoverned (process_proposals height e)
process_proposals-IsGoverned height e g =
    rw (process_proposals-settled height e) (settled-IsGoverned height e _ refl g)

-- The engines that calls bring about, from allowed parameters and as long as the ids do not wrap.
pub data Reached : GovernanceEngine → Type 0 where
  start : (params : GovernanceParams) → IsAllowed params → Reached (with_params params)
  submit :
      {e : GovernanceEngine} (params : GovernanceParams) (height : ℕ)
      → e.next_proposal_id + 1 < 2 ^ 64
      → Reached e
      → Reached (propose params height e).1
  cast :
      {e : GovernanceEngine} (id : ℕ) (approve : Bool) (power : ℕ)
      → Reached e
      → Reached (vote id approve power e).1
  settle : {e : GovernanceEngine} (height : ℕ) → Reached e → Reached (process_proposals height e)

Reached-IsGoverned : {e : GovernanceEngine} → Reached e → IsGoverned e
Reached-IsGoverned (start params allowed) = with_params-IsGoverned params allowed
Reached-IsGoverned (submit {e} params height room r) =
    propose-IsGoverned params height e room (Reached-IsGoverned r)
Reached-IsGoverned (cast {e} id approve power r) =
    vote-IsGoverned id approve power e (Reached-IsGoverned r)
Reached-IsGoverned (settle {e} height r) =
    process_proposals-IsGoverned height e (Reached-IsGoverned r)

-- Where the engine starts with parameters that pass its own validation, and the proposal ids do not come
-- to the end of the u64 range, then however proposals, votes and rounds follow one another, the
-- parameters in force pass that validation, and an id stands at most once among the pending proposals
-- and the applied ones together: no proposal is applied twice, and none that was applied can be voted on
-- again.
pub Reached-governed :
    (e : GovernanceEngine) (reached : Reached e) (id : ℕ)
    → (validate e.current_params ≡ ok tt)
      × (sum_by (has_id id) e.pending_proposals + sum_by (applied_as id) e.applied_history ≤ 1)
Reached-governed e reached id = let g = Reached-IsGoverned reached in (g.allowed, g.once id)
