-- ===== src/Runtime/State/Reads.antt =====
-- state.rs: what is read after a write, and the states that writes bring about.
use zentra_chain.Prelude.{
  Option, ℕ, ◌≡◌, ◌∙◌, refl, ap, true, false, ◌&&◌, List, [], ◌∷◌, none, some, ◌==◌, ==_iff,
  bytes_eq, if◌then◌else◌, Bool-cases, Option-cases, inl, inr, arith,
}
use zentra_chain.Prelude.Map
use zentra_chain.Prelude.Map.{Map, IsNodup, nat_key}
use zentra_chain.Prelude.Map.Laws.{get-insert, get-remove, get-remove_self, beq_self}
use zentra_chain.Runtime.State.{
  or_default, StateMap, ContractId, Namespace, read_in, get, namespace, set, put_back, delete,
  bytes_key,
}

-- The entry of a contract after another contract's was removed.
pub get-remove_other :
    (storage : Map ContractId Namespace) (contract other : ContractId)
    → (contract == other) ≡ false
    → Map.get other (Map.remove contract storage) ≡ Map.get other storage
get-remove_other storage contract other apart = rw (get-remove contract other storage, apart) refl

get-insert_here :
    (storage : Map ContractId Namespace) (contract : ContractId) (m : Namespace)
    → Map.get contract (Map.insert contract m storage) ≡ some m
get-insert_here storage contract m =
    get-insert contract contract m storage
    ∙ ap (λ b. if b then some m else Map.get contract storage) (beq_self contract)

pub get-insert_other :
    (storage : Map ContractId Namespace) (contract other : ContractId) (m : Namespace)
    → (contract == other) ≡ false
    → Map.get other (Map.insert contract m storage) ≡ Map.get other storage
get-insert_other storage contract other m apart =
    get-insert contract other m storage
    ∙ ap (λ b. if b then some m else Map.get other storage) apart

pub get-insert_at :
    (storage : Map ContractId Namespace) (contract other : ContractId) (m : Namespace)
    → (contract == other) ≡ true
    → Map.get other (Map.insert contract m storage) ≡ some m
get-insert_at storage contract other m same =
    get-insert contract other m storage ∙ ap (λ b. if b then some m else Map.get other storage) same

read_in-or_default : (o : Option Namespace) (k : List ℕ) → Map.get k (or_default o) ≡ read_in k o
read_in-or_default none k = refl
read_in-or_default (some m) k = refl

get-namespace :
    (s : StateMap) (contract : ContractId) (k : List ℕ)
    → Map.get k (namespace s contract) ≡ get s contract k
unfolding get namespace
get-namespace s contract k = read_in-or_default (Map.get contract s.storage) k

get-set_same :
    (s : StateMap) (contract : ContractId) (key value k : List ℕ)
    → get (set s contract key value) contract k
      ≡ Map.get k (Map.insert key value (namespace s contract))
unfolding get set
get-set_same s contract key value k =
    ap (read_in k)
      (get-insert_here s.storage contract (Map.insert key value (namespace s contract)))

get-set_other :
    (s : StateMap) (contract : ContractId) (key value : List ℕ) (other : ContractId) (k : List ℕ)
    → (contract == other) ≡ false
    → get (set s contract key value) other k ≡ get s other k
unfolding get set
get-set_other s contract key value other k apart =
    ap (read_in k) (
      get-insert_other s.storage contract other (Map.insert key value (namespace s contract)) apart)

get-put_back_same :
    (s : StateMap) (contract : ContractId) (m : Namespace) (k : List ℕ)
    → get (put_back s contract m) contract k ≡ Map.get k m
unfolding get put_back
get-put_back_same s contract [] k = ap (read_in k) (get-remove_self contract s.storage)
get-put_back_same s contract (x ∷ m) k = ap (read_in k) (get-insert_here s.storage contract (x ∷ m))

get-put_back_other :
    (s : StateMap) (contract other : ContractId) (m : Namespace) (k : List ℕ)
    → (contract == other) ≡ false
    → get (put_back s contract m) other k ≡ get s other k
unfolding get put_back
get-put_back_other s contract other [] k apart =
    ap (read_in k) (get-remove_other s.storage contract other apart)
get-put_back_other s contract other (x ∷ m) k apart =
    ap (read_in k) (get-insert_other s.storage contract other (x ∷ m) apart)

get-delete_same :
    (s : StateMap) (contract : ContractId) (key k : List ℕ)
    → get (delete s contract key) contract k ≡ (if bytes_eq key k then none else get s contract k)
unfolding get delete
get-delete_same s contract key k = elim (Option-cases (Map.get contract s.storage)) [
  | inl missing ↦ rw (missing, delete) (ground (arith, missing))
  | inr (m, found) ↦
      rw (found, delete) (get-put_back_same s contract (Map.remove key m) k ∙ get-remove key k m)
]

get-delete_other :
    (s : StateMap) (contract : ContractId) (key : List ℕ) (other : ContractId) (k : List ℕ)
    → (contract == other) ≡ false
    → get (delete s contract key) other k ≡ get s other k
unfolding delete
get-delete_other s contract key other k apart = elim (Option-cases (Map.get contract s.storage)) [
  | inl missing ↦ rw (missing, delete) refl
  | inr (m, found) ↦
      rw (found, delete) (get-put_back_other s contract other (Map.remove key m) k apart)
]

-- A key read after it was written has the value written, and every other key of every contract has the
-- value that it had.
pub get-set :
    (s : StateMap) (contract : ContractId) (key value : List ℕ) (other : ContractId) (k : List ℕ)
    → get (set s contract key value) other k
      ≡ (if (contract == other) && bytes_eq key k then some value else get s other k)
get-set s contract key value other k = elim (Bool-cases (contract == other)) [
  | inl same ↦
      rw (same, ← (==_iff contract other).0 same)
        (get-set_same s contract key value k
          ∙ get-insert key k value (namespace s contract)
          ∙ ap (λ r. if bytes_eq key k then some value else r) (get-namespace s contract k))
  | inr apart ↦ rw apart (get-set_other s contract key value other k apart)
]

-- A key read after it was deleted is absent, and every other key of every contract has the value that it
-- had.
pub get-delete :
    (s : StateMap) (contract : ContractId) (key : List ℕ) (other : ContractId) (k : List ℕ)
    → get (delete s contract key) other k
      ≡ (if (contract == other) && bytes_eq key k then none else get s other k)
get-delete s contract key other k = elim (Bool-cases (contract == other)) [
  | inl same ↦ rw (same, ← (==_iff contract other).0 same) (get-delete_same s contract key k)
  | inr apart ↦ rw apart (get-delete_other s contract key other k apart)
]
