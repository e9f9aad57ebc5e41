-- ===== src/Runtime/Governance/Votes.antt =====
-- governance.rs: what a vote changes, and which proposals leave the pending list.
use zentra_chain.Prelude.{
  ℕ, ◌+◌, ◌≡◌, ◌≤◌, ◌<◌, refl, Bool, true, false, List, [], ◌∷◌, Option, none, some, keep, sum_by,
  All, ◌==◌, if◌then◌else◌, Bool-cases, Option-cases, inl, inr, ok, arith,
}
use mathlib.Core.Path.{subst}
use mathlib.Core.Logic.{◌⊎◌}
use zentra_chain.Runtime.Governance.{
  GovernanceProposal, GovernanceEngine, GovernanceParams, validate, is_approved, is_expired,
  count_vote, vote_on, vote, find_proposal, get_proposal,
}
use zentra_chain.Runtime.Governance.Rounds.{is_open, first_accepted}

abbrev pub IsAllowed : GovernanceParams → Type 0
IsAllowed p = validate p ≡ ok tt

abbrev pub has_id : ℕ → GovernanceProposal → ℕ
has_id id p = if p.id == id then 1 else 0

abbrev pub applied_as : ℕ → ℕ × ℕ → ℕ
applied_as id x = if x.0 == id then 1 else 0

count_vote-id :
    (approve : Bool) (power : ℕ) (p : GovernanceProposal) → (count_vote approve power p).id ≡ p.id
unfolding count_vote
count_vote-id true power p = refl
count_vote-id false power p = refl

count_vote-params :
    (approve : Bool) (power : ℕ) (p : GovernanceProposal)
    → (count_vote approve power p).proposed_params ≡ p.proposed_params
unfolding count_vote
count_vote-params true power p = refl
count_vote-params false power p = refl

-- What a vote leaves alone: the ids, and that the proposed parameters are allowed.
abbrev pub Kept : List GovernanceProposal → List GovernanceProposal → Type 0
Kept ps qs =
    (All (λ p. IsAllowed p.proposed_params) ps → All (λ p. IsAllowed p.proposed_params) qs)
    × ((other : ℕ) → sum_by (has_id other) qs ≡ sum_by (has_id other) ps)

Kept-head :
    (approve : Bool) (power : ℕ) (p : GovernanceProposal) (ps : List GovernanceProposal)
    → Kept (p ∷ ps) (count_vote approve power p ∷ ps)
Kept-head approve power p ps = (
  λ h. (rw (count_vote-params approve power p) h.0, h.1),
  λ other. rw (count_vote-id approve power p) refl,
)

Kept-tail :
    (p : GovernanceProposal) (ps qs : List GovernanceProposal) → Kept ps qs → Kept (p ∷ ps) (p ∷ qs)
Kept-tail p ps qs k = (λ h. (h.0, k.0 h.1), λ other. omega (arith, k.1 other))

-- The proposal that a vote finds is the head, or stands in the tail.
vote_on-some :
    (id : ℕ) (approve : Bool) (power : ℕ) (p : GovernanceProposal) (ps qs : List GovernanceProposal)
    → vote_on id approve power (p ∷ ps) ≡ some qs
    → (count_vote approve power p ∷ ps ≡ qs)
      ⊎ ((rs : List GovernanceProposal) × (vote_on id approve power ps ≡ some rs) × (p ∷ rs ≡ qs))
unfolding vote_on
vote_on-some id approve power p ps qs voted = elim (Bool-cases (p.id == id)) [
  | inl here ↦ inl (ground (arith, here, voted))
  | inr there ↦ elim (Option-cases (vote_on id approve power ps)) [
    | inl missing ↦ absurd (ground (arith, there, voted, missing))
    | inr (rs, found) ↦ inr (rs, found, ground (arith, there, voted, found))
  ]
]

pub vote_on-Kept :
    (id : ℕ) (approve : Bool) (power : ℕ) (ps qs : List GovernanceProposal)
    → vote_on id approve power ps ≡ some qs
    → Kept ps qs
unfolding vote_on
vote_on-Kept id approve power [] qs voted = cc
vote_on-Kept id approve power (p ∷ ps) qs voted =
    elim (vote_on-some id approve power p ps qs voted) [
      | inl e ↦ subst (Kept (p ∷ ps)) e (Kept-head approve power p ps)
      | inr (rs, found, e) ↦
          subst (Kept (p ∷ ps)) e (Kept-tail p ps rs (vote_on-Kept id approve power ps rs found))
    ]

-- The accepted proposal leaves the pending list, and the others that leave it go nowhere.
pub kept_ids :
    (height id : ℕ) (ps : List GovernanceProposal)
    → sum_by (has_id id) (keep (is_open height) ps) ≤ sum_by (has_id id) ps
kept_ids height id [] = omega arith
kept_ids height id (p ∷ ps) = ground (arith, kept_ids height id ps)

first_accepted-some :
    (height : ℕ) (q p : GovernanceProposal) (ps : List GovernanceProposal)
    → first_accepted height (q ∷ ps) ≡ some p
    → ((q ≡ p) × (is_expired q height ≡ true)) ⊎ (first_accepted height ps ≡ some p)
unfolding first_accepted
first_accepted-some height q p ps found = elim (Bool-cases (is_expired q height)) [
  | inr later ↦ inr (ground (arith, later, found))
  | inl closed ↦ elim (Bool-cases (is_approved q)) [
    | inr rejected ↦ inr (ground (arith, closed, rejected, found))
    | inl approved ↦ inl (ground (arith, closed, approved, found), closed)
  ]
]

pub accepted_ids :
    (height id : ℕ) (ps : List GovernanceProposal) (p : GovernanceProposal)
    → first_accepted height ps ≡ some p
    → sum_by (has_id id) (keep (is_open height) ps) + has_id id p ≤ sum_by (has_id id) ps
unfolding first_accepted
accepted_ids height id [] p found = cc
accepted_ids height id (q ∷ ps) p found = elim (first_accepted-some height q p ps found) [
  | inl (same, closed) ↦ rw (← same, closed) (omega (arith, kept_ids height id ps))
  | inr later ↦ elim (Bool-cases (is_expired q height)) [
    | inl closed ↦ rw closed (omega (arith, accepted_ids height id ps p later))
    | inr pending ↦ rw pending (omega (arith, accepted_ids height id ps p later))
  ]
]

pub accepted-IsAllowed :
    (height : ℕ) (ps : List GovernanceProposal) (p : GovernanceProposal)
    → first_accepted height ps ≡ some p
    → All (λ p. IsAllowed p.proposed_params) ps
    → IsAllowed p.proposed_params
unfolding first_accepted
accepted-IsAllowed height [] p found allowed = cc
accepted-IsAllowed height (q ∷ ps) p found allowed =
    elim (first_accepted-some height q p ps found) [
      | inl (same, closed) ↦ rw (← same) allowed.0
      | inr later ↦ accepted-IsAllowed height ps p later allowed.1
    ]

pub keep-IsAllowed :
    (height : ℕ) (ps : List GovernanceProposal)
    → All (λ p. IsAllowed p.proposed_params) ps
    → All (λ p. IsAllowed p.proposed_params) (keep (is_open height) ps)
keep-IsAllowed height [] h = h
keep-IsAllowed height (p ∷ ps) h = elim (Bool-cases (is_expired p height)) [
  | inl closed ↦ rw closed (keep-IsAllowed height ps h.1)
  | inr pending ↦ rw pending (h.0, keep-IsAllowed height ps h.1)
]

-- The pending list after a vote, whether or not it finds its proposal.
abbrev voted : ℕ → Bool → ℕ → List GovernanceProposal → List GovernanceProposal
voted id approve power ps = elim (vote_on id approve power ps) [ none ↦ ps | some qs ↦ qs ]

abbrev pub recount : ℕ → ℕ → Bool → ℕ → GovernanceProposal → GovernanceProposal
recount id other approve power p = if other == id then count_vote approve power p else p

abbrev pub recounted : ℕ → ℕ → Bool → ℕ → Option GovernanceProposal → Option GovernanceProposal
recounted id other approve power none = none
recounted id other approve power (some p) = some (recount id other approve power p)

voted-cons :
    (id : ℕ) (approve : Bool) (power : ℕ) (p : GovernanceProposal) (ps : List GovernanceProposal)
    → voted id approve power (p ∷ ps)
      ≡ (if p.id == id then count_vote approve power p ∷ ps else p ∷ voted id approve power ps)
unfolding vote_on
voted-cons id approve power p ps = elim (Bool-cases (p.id == id)) [
  | inl here ↦ ground (arith, here)
  | inr there ↦ elim (Option-cases (vote_on id approve power ps)) [
    | inl missing ↦ ground (arith, there, missing)
    | inr (qs, found) ↦ ground (arith, there, found)
  ]
]

find_proposal-voted :
    (id other : ℕ) (approve : Bool) (power : ℕ) (ps : List GovernanceProposal)
    → find_proposal other (voted id approve power ps)
      ≡ recounted id other approve power (find_proposal other ps)
unfolding find_proposal vote_on
find_proposal-voted id other approve power [] = refl
find_proposal-voted id other approve power (p ∷ ps) =
    rw (voted-cons id approve power p ps) (elim (Bool-cases (p.id == id)) [
      | inl here ↦ rw here (ground (arith, count_vote-id approve power p, here))
      | inr there ↦ rw there (ground (arith, there, find_proposal-voted id other approve power ps))
    ])

-- A vote with some power changes the proposal of its id, by that power on its side and saturating, and
-- no other proposal.
pub get_proposal-vote :
    (id other : ℕ) (approve : Bool) (power : ℕ) (e : GovernanceEngine) (weighty : 0 < power)
    → get_proposal other (vote id approve power e).1
      ≡ recounted id other approve power (get_proposal other e)
unfolding get_proposal vote
get_proposal-vote id other approve power e weighty =
    let some_power : (power == 0) ≡ false = ground arith in
    elim (Option-cases (vote_on id approve power e.pending_proposals)) [
      | inl missing ↦
          let found = find_proposal-voted id other approve power e.pending_proposals in
          rw (some_power, missing) (rw (missing, voted) at found)
      | inr (qs, found) ↦
          let changed = find_proposal-voted id other approve power e.pending_proposals in
          rw (some_power, found) (rw (found, voted) at changed)
    ]
