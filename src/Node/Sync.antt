-- ===== src/Node/Sync.antt =====
-- sync.rs: the state machine of the chain synchronisation. Log messages are left out.
use zentra_chain.Prelude.{
  ℕ, ◌≡◌, ◌∙◌, refl, ap, Bool, true, false, List, [], ◌∷◌, leb, any, if◌then◌else◌, Bool-cases, inl,
  inr,
}

pub data SyncState : Type 0 where
  -- The current height and the target height.
  syncing : ℕ → ℕ → SyncState
  synced : SyncState
  idle : SyncState

pub record SyncManager : Type 0 where
  pub state : SyncState

-- `SyncManager::new`
unfoldable pub new_sync : SyncManager
new_sync = record { state = SyncState.idle }

abbrev pub state_synced : SyncState → Bool
state_synced SyncState.synced = true
state_synced _ = false

unfoldable pub is_synced : SyncManager → Bool
is_synced m = state_synced m.state

unfoldable pub start_sync : ℕ → SyncManager → SyncManager
start_sync target m = record m { state = SyncState.syncing 0 target }

abbrev pub progressed : ℕ → SyncState → SyncState
progressed height (SyncState.syncing current target) =
    if leb target height then SyncState.synced else SyncState.syncing height target
progressed height SyncState.synced = SyncState.synced
progressed height SyncState.idle = SyncState.idle

unfoldable pub update_progress : ℕ → SyncManager → SyncManager
update_progress height m = record m { state = progressed height m.state }

-- The reports that come in, one after another.
unfoldable pub update_all : List ℕ → SyncManager → SyncManager
update_all [] m = m
update_all (height ∷ heights) m = update_all heights (update_progress height m)

synced-stays :
    (heights : List ℕ) → is_synced (update_all heights (record { state = SyncState.synced })) ≡ true
unfolding update_all update_progress is_synced
synced-stays [] = refl
synced-stays (height ∷ heights) = synced-stays heights

-- Whether the synchronisation has ended after a report that reached the target, or did not.
abbrev after_report : ℕ → ℕ → List ℕ → Bool → Bool
after_report height target heights reached = is_synced (
    update_all heights
      (record { state = if reached then SyncState.synced else SyncState.syncing height target }))

syncing-ends :
    (current target : ℕ) (heights : List ℕ)
    → is_synced (update_all heights (record { state = SyncState.syncing current target }))
      ≡ any (λ height. leb target height) heights
unfolding update_all update_progress is_synced
syncing-ends current target [] = refl
syncing-ends current target (height ∷ heights) = elim (Bool-cases (leb target height)) [
  | inl reached ↦
      rw reached (ap (after_report height target heights) reached ∙ synced-stays heights)
  | inr below ↦
      rw below (ap (after_report height target heights) below ∙ syncing-ends height target heights)
]

-- A synchronisation that was started ends exactly when one of the reported heights reaches its target,
-- whatever is reported before and after it.
pub start_sync-ends :
    (m : SyncManager) (target : ℕ) (heights : List ℕ)
    → is_synced (update_all heights (start_sync target m))
      ≡ any (λ height. leb target height) heights
unfolding start_sync
start_sync-ends m target heights = syncing-ends 0 target heights
