-- ===== src/Runtime/State/Tidy.antt =====
-- state.rs: the shape of the states that writes bring about.
use zentra_chain.Prelude.{
  Option, none, some, ℕ, ◌≡◌, ◌∙◌, refl, sym, false, List, [], ◌∷◌, some, ◌==◌, Bool-cases,
  Option-cases, inl, inr, arith,
}
use mathlib.Core.Path.{subst}
use zentra_chain.Prelude.Map
use zentra_chain.Prelude.Map.{Map, IsNodup, nat_key}
use zentra_chain.Prelude.Map.Laws.{get-remove, insert-IsNodup, remove-IsNodup}
use zentra_chain.Runtime.State.{
  or_default, StateMap, ContractId, Namespace, empty_state, namespace, set, put_back, delete,
  clear_contract, is_empty, bytes_key,
}
use zentra_chain.Runtime.State.Reads.{get-insert_at, get-insert_other, get-remove_other}

some_inj : (m n : Namespace) → some m ≡ some n → m ≡ n
some_inj m n e = cc

-- A namespace without double keys that is not empty.
abbrev pub IsKept : Namespace → Type 0
IsKept m = IsNodup m × (is_empty m ≡ false)

-- No contract stands twice, and no namespace has a double key or is empty.
pub record IsTidy (s : StateMap) : Type 0 where
  pub nodup : IsNodup s.storage
  pub kept :
      (contract : ContractId) (m : Namespace) → Map.get contract s.storage ≡ some m → IsKept m

or_default-IsNodup :
    (o : Option Namespace) → ((m : Namespace) → o ≡ some m → IsNodup m) → IsNodup (or_default o)
or_default-IsNodup none h = tt
or_default-IsNodup (some m) h = h m refl

namespace-IsNodup :
    (s : StateMap) (contract : ContractId) → IsTidy s → IsNodup (namespace s contract)
unfolding namespace
namespace-IsNodup s contract t =
    or_default-IsNodup (Map.get contract s.storage) (λ m found. (t.kept contract m found).0)

-- Writing one namespace that is kept.
insert-IsTidy :
    (s : StateMap) (contract : ContractId) (m : Namespace)
    → IsTidy s
    → IsKept m
    → IsTidy (record { storage = Map.insert contract m s.storage })
insert-IsTidy s contract m t kept = record {
  nodup = insert-IsNodup contract m s.storage t.nodup;
  kept = λ other n found. elim (Bool-cases (contract == other)) [
    | inl same ↦
        let e : m ≡ n =
          some_inj m n (sym (get-insert_at s.storage contract other m same) ∙ found) in
        subst IsKept e kept
    | inr apart ↦ t.kept other n (sym (get-insert_other s.storage contract other m apart) ∙ found)
  ];
}

remove-IsTidy :
    (s : StateMap) (contract : ContractId)
    → IsTidy s
    → IsTidy (record { storage = Map.remove contract s.storage })
remove-IsTidy s contract t = record {
  nodup = remove-IsNodup contract s.storage t.nodup;
  kept = λ other n found. elim (Bool-cases (contract == other)) [
    | inl same ↦ absurd (ground (arith, found, get-remove contract other s.storage, same))
    | inr apart ↦ t.kept other n (sym (get-remove_other s.storage contract other apart) ∙ found)
  ];
}

put_back-IsTidy :
    (s : StateMap) (contract : ContractId) (m : Namespace)
    → IsTidy s
    → IsNodup m
    → IsTidy (put_back s contract m)
unfolding put_back
put_back-IsTidy s contract [] t nodup = remove-IsTidy s contract t
put_back-IsTidy s contract (x ∷ m) t nodup = insert-IsTidy s contract (x ∷ m) t (nodup, refl)

set-IsTidy :
    (s : StateMap) (contract : ContractId) (key value : List ℕ)
    → IsTidy s
    → IsTidy (set s contract key value)
unfolding set
set-IsTidy s contract key value t =
    insert-IsTidy s contract (Map.insert key value (namespace s contract)) t
      (insert-IsNodup key value (namespace s contract) (namespace-IsNodup s contract t), refl)

delete-IsTidy :
    (s : StateMap) (contract : ContractId) (key : List ℕ)
    → IsTidy s
    → IsTidy (delete s contract key)
unfolding delete
delete-IsTidy s contract key t = elim (Option-cases (Map.get contract s.storage)) [
  | inl missing ↦ rw (missing, delete) t
  | inr (m, found) ↦
      rw (found, delete)
        (put_back-IsTidy s contract (Map.remove key m) t
          (remove-IsNodup key m (t.kept contract m found).0))
]

-- The states that writes, deletions and clearings bring about.
pub data Written : StateMap → Type 0 where
  start : Written empty_state
  write :
      {s : StateMap} (contract : ContractId) (key value : List ℕ)
      → Written s
      → Written (set s contract key value)
  erase :
      {s : StateMap} (contract : ContractId) (key : List ℕ)
      → Written s
      → Written (delete s contract key)
  clear : {s : StateMap} (contract : ContractId) → Written s → Written (clear_contract s contract)

empty_state-IsTidy : IsTidy empty_state
unfolding empty_state
empty_state-IsTidy = record { nodup = tt; kept = λ contract m found. cc found }

clear_contract-IsTidy :
    (s : StateMap) (contract : ContractId) → IsTidy s → IsTidy (clear_contract s contract)
unfolding clear_contract
clear_contract-IsTidy s contract t = remove-IsTidy s contract t

pub Written-IsTidy : {s : StateMap} → Written s → IsTidy s
Written-IsTidy start = empty_state-IsTidy
Written-IsTidy (write {s} contract key value w) = set-IsTidy s contract key value (Written-IsTidy w)
Written-IsTidy (erase {s} contract key w) = delete-IsTidy s contract key (Written-IsTidy w)
Written-IsTidy (clear {s} contract w) = clear_contract-IsTidy s contract (Written-IsTidy w)
