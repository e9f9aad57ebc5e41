-- ===== src/Runtime/State/Root.antt =====
-- state.rs, `state_root`: states with the same reads, and states with the same root.
use mathlib.Core.List.{append_assoc}
use zentra_chain.Prelude.{
  bytes_eq, ℕ, ◌≡◌, ◌∙◌, refl, sym, ap, true, false, ◌≢◌, List, [], ◌∷◌, ◌++◌, map, Option, none,
  some, ◌==◌, ==_iff, Bool-cases, inl, inr, arith,
}
use zentra_chain.Prelude.Map
use zentra_chain.Prelude.Map.{Map, IsNodup, nat_key}
use zentra_chain.Prelude.Map.Laws.{beq_self}
use zentra_chain.Prelude.Sorted.{sort_by_key, sort_by_key_unique, insert_sorted}
use zentra_chain.Types.{Hash}
use zentra_chain.Core.Data.{Crypto}
use zentra_chain.Core.Merkle.{build_merkle_tree, hash_bytes}
use zentra_chain.Runtime.State.{
  StateMap, ContractId, Namespace, empty_state, read_in, get, set, namespace, bytes_key, nat_order,
  bytes_order, leaf, merkle_root_for_contract, contract_hashes, root_of, state_root,
}
use zentra_chain.Runtime.State.Reads.{get-set}
use zentra_chain.Runtime.State.Tidy.{IsTidy, IsKept, Written, Written-IsTidy}

read_written :
    (contract : ContractId) (key value : List ℕ)
    → get (set empty_state contract key value) contract key ≡ some value
read_written contract key value =
    let here : (contract == contract) ≡ true = beq_self contract in
    let same : bytes_eq key key ≡ true = beq_self key in
    get-set empty_state contract key value contract key ∙ (rw (here, same) refl)

longer-bytes_eq : (key : List ℕ) (b : ℕ) → bytes_eq (key ++ b ∷ []) key ≡ false
longer-bytes_eq [] b = refl
longer-bytes_eq (a ∷ key) b = ground (arith, longer-bytes_eq key b)

nothing_there : (contract : ContractId) (key : List ℕ) → get empty_state contract key ≡ none
unfolding get empty_state
nothing_there contract key = refl

read_unwritten :
    (contract : ContractId) (key value : List ℕ) (b : ℕ)
    → get (set empty_state contract (key ++ b ∷ []) value) contract key ≡ none
read_unwritten contract key value b =
    let here : (contract == contract) ≡ true = beq_self contract in
    get-set empty_state contract (key ++ b ∷ []) value contract key
    ∙ (rw (here, longer-bytes_eq key b) (nothing_there contract key))

module _ (c : Crypto) where
  abbrev root_in : ContractId → Option Namespace → Option Hash
  root_in contract none = none
  root_in contract (some m) = some (merkle_root_for_contract c contract m)

  get-contract_hashes :
      (contract : ContractId) (storage : Map ContractId Namespace)
      → Map.get contract (contract_hashes c storage) ≡ root_in contract (Map.get contract storage)
  unfolding contract_hashes
  get-contract_hashes contract [] = refl
  get-contract_hashes contract ((d, m) ∷ storage) = elim (Bool-cases (d == contract)) [
    | inl same ↦
        rw same (ap (λ a. some (merkle_root_for_contract c a m)) ((==_iff d contract).0 same))
    | inr apart ↦ rw apart (get-contract_hashes contract storage)
  ]

  contract_hashes-IsNodup :
      (storage : Map ContractId Namespace) → IsNodup storage → IsNodup (contract_hashes c storage)
  unfolding contract_hashes
  contract_hashes-IsNodup [] h = tt
  contract_hashes-IsNodup ((d, m) ∷ storage) h =
      (get-contract_hashes d storage ∙ ap (root_in d) h.0, contract_hashes-IsNodup storage h.1)

  -- Two namespaces with the same lookups have the same root.
  merkle_root-same :
      (contract : ContractId) (m n : Namespace)
      → IsKept m
      → IsKept n
      → ((k : List ℕ) → Map.get k m ≡ Map.get k n)
      → merkle_root_for_contract c contract m ≡ merkle_root_for_contract c contract n
  unfolding merkle_root_for_contract
  merkle_root-same contract [] n km kn same = cc km.1
  merkle_root-same contract (x ∷ m) [] km kn same = cc kn.1
  merkle_root-same contract (x ∷ m) (y ∷ n) km kn same =
      ap (λ l. build_merkle_tree c (map (leaf c contract) l))
        (sort_by_key_unique (x ∷ m) (y ∷ n) km.0 kn.0 same)

  -- Every key has the same value in both, and a namespace that is there is kept.
  abbrev Alike : Option Namespace → Option Namespace → Type 0
  Alike o p = (k : List ℕ) → read_in k o ≡ read_in k p

  abbrev KeptIn : Option Namespace → Type 0
  KeptIn none = Unit {0}
  KeptIn (some m) = IsKept m

  -- A namespace that is kept has a key to read.
  kept_reads : (m : Namespace) → IsKept m → ((k : List ℕ) → Map.get k m ≡ none) → ⊥
  kept_reads [] kept unread = cc kept.1
  kept_reads ((k, v) ∷ m) kept unread = ground (arith, unread k, beq_self k)

  root_in-Alike :
      (contract : ContractId) (o p : Option Namespace)
      → KeptIn o
      → KeptIn p
      → Alike o p
      → root_in contract o ≡ root_in contract p
  root_in-Alike contract none none ko kp alike = refl
  root_in-Alike contract none (some n) ko kp alike = absurd (kept_reads n kp (λ k. sym (alike k)))
  root_in-Alike contract (some m) none ko kp alike = absurd (kept_reads m ko alike)
  root_in-Alike contract (some m) (some n) ko kp alike =
      ap some (merkle_root-same contract m n ko kp alike)

  KeptIn-get :
      (s : StateMap) (contract : ContractId) → IsTidy s → KeptIn (Map.get contract s.storage)
  KeptIn-get s contract t = kept_of (Map.get contract s.storage) (t.kept contract)
    where
      kept_of : (o : Option Namespace) → ((m : Namespace) → o ≡ some m → IsKept m) → KeptIn o
      kept_of none h = tt
      kept_of (some m) h = h m refl

  root_of-same :
      (storage other : Map ContractId Namespace)
      → IsNodup storage
      → IsNodup other
      → ((contract : ContractId)
          → Map.get contract (contract_hashes c storage)
            ≡ Map.get contract (contract_hashes c other))
      → root_of c storage ≡ root_of c other
  unfolding root_of contract_hashes
  root_of-same [] [] hs ho same = refl
  root_of-same [] ((d, m) ∷ other) hs ho same = absurd (ground (arith, same d, beq_self d))
  root_of-same ((d, m) ∷ storage) [] hs ho same = absurd (ground (arith, same d, beq_self d))
  root_of-same (x ∷ storage) (y ∷ other) hs ho same =
      ap (λ l. build_merkle_tree c (map (λ z. z.1) l))
        (sort_by_key_unique (contract_hashes c (x ∷ storage)) (contract_hashes c (y ∷ other))
          (contract_hashes-IsNodup (x ∷ storage) hs) (contract_hashes-IsNodup (y ∷ other) ho) same)

  -- Two states that writes, deletions and clearings brought about and that read the same at every key of
  -- every contract have the same root, in whatever order their hash maps hold the entries.
  pub state_root-same_reads :
      (s t : StateMap) (written : Written s) (also : Written t)
      (same : (contract : ContractId) (k : List ℕ) → get s contract k ≡ get t contract k)
      → state_root c s ≡ state_root c t
  unfolding state_root get
  state_root-same_reads s t written also same =
      let ts = Written-IsTidy written in
      let tt' = Written-IsTidy also in
      root_of-same s.storage t.storage ts.nodup tt'.nodup (λ contract.
        get-contract_hashes contract s.storage
        ∙ root_in-Alike contract _ _ (KeptIn-get s contract ts) (KeptIn-get t contract tt')
            (same contract)
        ∙ sym (get-contract_hashes contract t.storage))

  root_of_one :
      (contract : ContractId) (key value : List ℕ)
      → state_root c (set empty_state contract key value) ≡ leaf c contract (key, value)
  unfolding state_root root_of contract_hashes merkle_root_for_contract set namespace empty_state
      sort_by_key insert_sorted build_merkle_tree
  root_of_one contract key value = refl

  leaf-shift :
      (contract : ContractId) (key value : List ℕ) (b : ℕ)
      → leaf c contract (key, b ∷ value) ≡ leaf c contract (key ++ b ∷ [], value)
  unfolding leaf
  leaf-shift contract key value b = ap c.blake2b (
      rw
        (
          ← append_assoc (hash_bytes contract) key (b ∷ []),
          append_assoc (hash_bytes contract ++ key) (b ∷ []) value,
        )
        refl)

  -- A leaf does not say where its key ends: in a state that holds one entry only, moving the first byte
  -- of the value to the end of the key gives a state that reads differently and has the same root, for
  -- every hash function.
  pub state_root-shift :
      (contract : ContractId) (key value : List ℕ) (b : ℕ)
      → (state_root c (set empty_state contract key (b ∷ value))
          ≡ state_root c (set empty_state contract (key ++ b ∷ []) value))
        × (get (set empty_state contract key (b ∷ value)) contract key
            ≢ get (set empty_state contract (key ++ b ∷ []) value) contract key)
  state_root-shift contract key value b = (
    root_of_one contract key (b ∷ value)
        ∙ leaf-shift contract key value b
        ∙ sym (root_of_one contract (key ++ b ∷ []) value),
    λ e. cc (read_written contract key (b ∷ value), read_unwritten contract key value b, e),
  )
