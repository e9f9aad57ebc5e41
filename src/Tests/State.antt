-- ===== src/Tests/State.antt =====
-- Runs of the contract state, and the witnesses of its results.
use zentra_chain.Prelude.{ℕ, ◌≡◌, ◌≢◌, refl, List, [], ◌∷◌, arith}
use zentra_chain.Runtime.State
use zentra_chain.Runtime.State.{StateMap, empty_state, get, set, delete, contract_count, state_root}
use zentra_chain.Runtime.State.Reads.{get-set}
use zentra_chain.Runtime.State.Tidy.{start, write}
use zentra_chain.Runtime.State.Root.{state_root-same_reads, state_root-shift}
use zentra_chain.Tests.Data.{toy}

abbrev one_way : StateMap
one_way = set (set empty_state 7 (1 ∷ []) (10 ∷ [])) 8 (2 ∷ []) (20 ∷ [])

abbrev other_way : StateMap
other_way = set (set empty_state 8 (2 ∷ []) (20 ∷ [])) 7 (1 ∷ []) (10 ∷ [])

-- Deleting the last key of a contract removes the contract.
last_key : contract_count (delete one_way 7 (1 ∷ [])) ≡ 1
unfolding contract_count delete set State.put_back empty_state
last_key = refl

one_way-reads : (contract : ℕ) (k : List ℕ) → get one_way contract k ≡ get other_way contract k
one_way-reads contract k =
    let first : StateMap = set empty_state 7 (1 ∷ []) (10 ∷ []) in
    let other : StateMap = set empty_state 8 (2 ∷ []) (20 ∷ []) in
    ground (
      arith,
      get-set first 8 (2 ∷ []) (20 ∷ []) contract k,
      get-set empty_state 7 (1 ∷ []) (10 ∷ []) contract k,
      get-set other 7 (1 ∷ []) (10 ∷ []) contract k,
      get-set empty_state 8 (2 ∷ []) (20 ∷ []) contract k,
    )

state_root-same_reads_example : state_root toy one_way ≡ state_root toy other_way
state_root-same_reads_example =
    state_root-same_reads toy one_way other_way
      (write 8 (2 ∷ []) (20 ∷ []) (write 7 (1 ∷ []) (10 ∷ []) start))
      (write 7 (1 ∷ []) (10 ∷ []) (write 8 (2 ∷ []) (20 ∷ []) start)) one_way-reads

state_root-shift_example :
    (state_root toy (set empty_state 7 (1 ∷ []) (2 ∷ 3 ∷ []))
      ≡ state_root toy (set empty_state 7 (1 ∷ 2 ∷ []) (3 ∷ [])))
    × (get (set empty_state 7 (1 ∷ []) (2 ∷ 3 ∷ [])) 7 (1 ∷ [])
        ≢ get (set empty_state 7 (1 ∷ 2 ∷ []) (3 ∷ [])) 7 (1 ∷ []))
state_root-shift_example = state_root-shift toy 7 (1 ∷ []) (3 ∷ []) 2
