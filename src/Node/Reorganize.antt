-- ===== src/Node/Reorganize.antt =====
-- node.rs: `get_selected_chain` and `reorganize`, which moves the UTXO set from the chain of one
-- selected tip to that of another. The stores of blocks and of GhostDAG data are arguments, and so is
-- whether the database takes an undo record; the undo records and the set are the state. A list of
-- finished hashes is kept latest first, as the rollback reads it. Error texts are left out.
pub mod Connecting
pub mod RollingBack
pub mod Steps
pub mod Walk
use zentra_chain.Prelude.{
  ℕ, zero, suc, Bool, true, false, Option, none, some, List, [], ◌∷◌, ◌==◌, contains, reverse,
  if◌then◌else◌, is_ok, ok, err, ZentraResult,
}
use zentra_chain.Prelude.Map.{Map, get, insert, nat_key}
use zentra_chain.Types.{Hash, zero_hash, NetworkType}
use zentra_chain.Core.Data.{Block, Crypto}
use zentra_chain.Core.Utxo.{UtxoSet, BlockUndoData, disconnect_block}
use zentra_chain.Consensus.Emission.{EmissionSchedule}
use zentra_chain.Consensus.Ghostdag.{Lookup}
use zentra_chain.Node.Validate.{validate_block_transactions}
use zentra_chain.Node.Merges.{apply_block_with_merges}

pub record Stores : Type 0 where
  pub blocks : Map Hash Block
  pub ghostdag : Lookup
  -- Whether `put_undo` of a block succeeds.
  pub put_ok : Hash → Bool

pub record Chainstate : Type 0 where
  pub utxo : UtxoSet
  pub undos : Map Hash BlockUndoData

abbrev pub first_parent : List Hash → Hash
first_parent [] = zero_hash
first_parent (p ∷ ps) = p

-- The next hash of the walk, or `none` where the header is missing and the walk breaks off.
unfoldable pub chain_next : Stores → Hash → Option Hash
chain_next st h = elim (st.ghostdag h) [
  | some d ↦ some d.selected_parent
  | none ↦ elim (get h st.blocks) [ none ↦ none | some b ↦ some (first_parent b.header.parents) ]
]

abbrev push_front : Hash → Option (List Hash) → Option (List Hash)
push_front h none = none
push_front h (some hs) = some (h ∷ hs)

-- `get_selected_chain` of the node, on fuel; `none` when the fuel runs out.
unfoldable pub selected_chain : Stores → ℕ → Hash → Option (List Hash)
selected_chain st zero h = none
selected_chain st (suc fuel) h =
    let further : Option (List Hash) = elim (chain_next st h) [
      | none ↦ some (h ∷ [])
      | some p ↦ push_front h (selected_chain st fuel p)
    ] in
    if h == zero_hash then some [] else further

-- The hashes before the first one that passes the test, and that one.
unfoldable pub before : (Hash → Bool) → List Hash → List Hash
before p [] = []
before p (h ∷ hs) = let rest = before p hs in if p h then [] else h ∷ rest

unfoldable pub first_such : (Hash → Bool) → List Hash → Option Hash
first_such p [] = none
first_such p (h ∷ hs) = let rest = first_such p hs in if p h then some h else rest

-- `old_chain[0..idx]`, or the whole chain where the chains have no hash in common.
unfoldable pub to_disconnect : List Hash → List Hash → List Hash
to_disconnect old_chain new_chain = elim (first_such (λ h. contains h old_chain) new_chain) [
  | none ↦ old_chain
  | some common ↦ before (λ h. h == common) old_chain
]

-- `new_chain[0..idx]`, the oldest block first.
unfoldable pub to_connect : List Hash → List Hash → List Hash
to_connect old_chain new_chain = reverse (before (λ h. contains h old_chain) new_chain)

-- How far a loop came: whether it came to the end, the hashes that it finished, and the state.
pub record Phase : Type 0 where
  pub success : Bool
  pub so_far : List Hash
  pub state : Chainstate

abbrev pub phase : Bool → List Hash → Chainstate → Phase
phase success so_far s = record { success = success; so_far = so_far; state = s }

module _ (c : Crypto) (network : NetworkType) (emission : EmissionSchedule) (st : Stores) where
  unfoldable pub disconnect_loop : List Hash → List Hash → Chainstate → Phase
  disconnect_loop so_far [] s = phase true so_far s
  disconnect_loop so_far (h ∷ hs) s = elim (get h s.undos) [
    | none ↦ phase false so_far s
    | some undo ↦ elim (get h st.blocks) [
      | none ↦ phase false so_far s
      | some b ↦
          let (r, u) = disconnect_block c b undo s.utxo in
          elim r [
            | err e ↦ phase false so_far (record s { utxo = u })
            | ok _ ↦ disconnect_loop (h ∷ so_far) hs (record s { utxo = u })
          ]
    ]
  ]

  -- The match on the result of `apply_block_with_merges` and the storing of its undo record.
  abbrev pub keep_undo :
      Hash → ZentraResult BlockUndoData × UtxoSet → Chainstate → Bool × Chainstate
  keep_undo h (err e, u) s = (false, record s { utxo = u })
  keep_undo h (ok undo, u) s =
      if st.put_ok h
      then (true, record { utxo = u; undos = insert h undo s.undos })
      else (false, record s { utxo = u })

  -- One block of the connecting loop: validation, application and its undo record; `false` is the break,
  -- with the state that it leaves.
  abbrev pub connect_found : Hash → Option Block → Chainstate → Bool × Chainstate
  connect_found h none s = (false, s)
  connect_found h (some b) s =
      if is_ok (validate_block_transactions c network emission b s.utxo)
      then keep_undo h (apply_block_with_merges c st.blocks st.ghostdag b s.utxo) s
      else (false, s)

  unfoldable pub connect_one : Hash → Chainstate → Bool × Chainstate
  connect_one h s = connect_found h (get h st.blocks) s

  unfoldable pub connect_loop : List Hash → List Hash → Chainstate → Phase
  connect_loop so_far [] s = phase true so_far s
  connect_loop so_far (h ∷ hs) s =
      let (connected, s') = connect_one h s in
      elim connected [ false ↦ phase false so_far s' | true ↦ connect_loop (h ∷ so_far) hs s' ]

  -- A block taken out by its undo record, if both are there; a result is ignored.
  abbrev pub undone : Option BlockUndoData → Option Block → UtxoSet → UtxoSet
  undone none o u = u
  undone (some undo) none u = u
  undone (some undo) (some b) u = (disconnect_block c b undo u).1

  -- The first loop of the rollback.
  unfoldable pub roll_back : List Hash → Chainstate → Chainstate
  roll_back [] s = s
  roll_back (h ∷ hs) s =
      roll_back hs (record s { utxo = undone (get h s.undos) (get h st.blocks) s.utxo })

  -- One block of the second loop: the block is applied again without validation.
  abbrev pub reapply_found : Hash → Option Block → Chainstate → Chainstate
  reapply_found h none s = s
  reapply_found h (some b) s =
      (keep_undo h (apply_block_with_merges c st.blocks st.ghostdag b s.utxo) s).1

  unfoldable pub reapply : List Hash → Chainstate → Chainstate
  reapply [] s = s
  reapply (h ∷ hs) s = reapply hs (reapply_found h (get h st.blocks) s)

  -- `if success { .. }` round the connecting loop.
  abbrev pub connect_after : List Hash → Phase → Phase
  connect_after hs d = if d.success then connect_loop [] hs d.state else phase false [] d.state

  -- `if !success { .. }`: the rollback, with the hashes that were disconnected.
  abbrev pub conclude : List Hash → Phase → Bool × Chainstate
  conclude disconnected n =
      if n.success
      then (true, n.state)
      else (false, reapply disconnected (roll_back n.so_far n.state))

  -- From the two chains on: disconnect, connect, and on a failure roll back.
  unfoldable pub switch : List Hash → List Hash → Chainstate → Bool × Chainstate
  switch old_chain new_chain s =
      let d = disconnect_loop [] (to_disconnect old_chain new_chain) s in
      conclude d.so_far (connect_after (to_connect old_chain new_chain) d)

  abbrev switch_chains :
      Option (List Hash) → Option (List Hash) → Chainstate → Option (Bool × Chainstate)
  switch_chains (some old_chain) (some new_chain) s = some (switch old_chain new_chain s)
  switch_chains _ _ s = none

  -- `reorganize`; the Boolean is the code's `is_ok`, and `none` means that a walk ran out of fuel.
  unfoldable pub reorganize : ℕ → Option Hash → Hash → Chainstate → Option (Bool × Chainstate)
  reorganize fuel none new_tip s = some (connect_one new_tip s)
  reorganize fuel (some old_tip) new_tip s =
      if old_tip == new_tip
      then some (true, s)
      else switch_chains (selected_chain st fuel old_tip) (selected_chain st fuel new_tip) s
