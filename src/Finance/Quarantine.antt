-- ===== src/Finance/Quarantine.antt =====
-- quarantine.rs: collateral locked for a misbehaving node. A node id is its 32 bytes as a number.
-- Log lines are left out.
use zentra_chain.Prelude.{
  ℕ, ◌+◌, ◌≤◌, ◌≡◌, Bool, false, none, some, ltb, leb, ok, err, ZentraError, ZentraResult, length,
  if◌then◌else◌, arith,
}
use zentra_chain.Prelude.Words.{u64_max, u128_max, saturating_add}
use zentra_chain.Prelude.Map.{Map, nat_key, get, insert, remove, contains_key}
use zentra_chain.Prelude.Map.Laws.{get-remove_self, beq_self}
use zentra_chain.Types.{quarantine_lock_blocks}

pub data QuarantineReason : Type 0 where
  invalid_signature malicious_release protocol_violation : QuarantineReason

pub record QuarantineEntry : Type 0 where
  pub node_id : ℕ
  pub quarantined_at_height : ℕ
  pub unlock_height : ℕ
  pub locked_collateral : ℕ
  pub reason : QuarantineReason

-- `QuarantineManager`: its one field.
abbrev pub Quarantined : Type 0
Quarantined = Map ℕ QuarantineEntry

-- The collateral that is locked for a node: none when it is not quarantined.
abbrev pub locked : ℕ → Quarantined → ℕ
locked id q = elim (get id q) [ none ↦ 0 | some e ↦ e.locked_collateral ]

abbrev entry_for : ℕ → ℕ → ℕ → QuarantineReason → Quarantined → QuarantineEntry
entry_for id height collateral reason q = record {
  node_id = id;
  quarantined_at_height = height;
  unlock_height = saturating_add u64_max height quarantine_lock_blocks;
  locked_collateral = elim (get id q) [
    | none ↦ collateral
    | some e ↦ saturating_add u128_max e.locked_collateral collateral
  ];
  reason = reason;
}

-- An entry in place keeps its `node_id`, which is its key.
unfoldable pub execute_quarantine :
    ℕ → ℕ → ℕ → QuarantineReason → Quarantined → QuarantineEntry × Quarantined
execute_quarantine id height collateral reason q =
    let e = entry_for id height collateral reason q in (e, insert id e q)

abbrev pub is_quarantined : ℕ → Quarantined → Bool
is_quarantined id q = contains_key id q

unfoldable pub can_unlock : ℕ → ℕ → Quarantined → Bool
can_unlock id height q = elim (get id q) [ none ↦ false | some e ↦ leb e.unlock_height height ]

unfoldable pub process_unlock : ℕ → ℕ → Quarantined → ZentraResult ℕ × Quarantined
process_unlock id height q = elim (get id q) [
  | none ↦ (err ZentraError.quarantine_error, q)
  | some e ↦
      if ltb height e.unlock_height
      then (err ZentraError.quarantine_error, q)
      else (ok e.locked_collateral, remove id q)
]

abbrev pub quarantined_count : Quarantined → ℕ
quarantined_count q = length q

-- The collateral locked for a node, when it is quarantined at a height without leaving the words'
-- ranges, stays locked at every height before the lock is over, and is paid out in full, with what
-- was locked before, at every later one, after which nothing is locked for the node.
pub process_unlock-execute_quarantine :
    (id height later collateral : ℕ) (reason : QuarantineReason) (q : Quarantined)
    → height + quarantine_lock_blocks ≤ u64_max
    → locked id q + collateral ≤ u128_max
    → let q' = (execute_quarantine id height collateral reason q).1 in
      ((process_unlock id later q').0 ≡ (
        if ltb later (height + quarantine_lock_blocks)
        then err ZentraError.quarantine_error
        else ok (locked id q + collateral)))
      × (locked id (process_unlock id later q').1
          ≡ (if ltb later (height + quarantine_lock_blocks) then locked id q + collateral else 0))
unfolding process_unlock execute_quarantine saturating_add
process_unlock-execute_quarantine id height later collateral reason q fits_height fits = (
  ground (arith, beq_self id),
  ground
      (arith, beq_self id, get-remove_self id (execute_quarantine id height collateral reason q).1),
)
