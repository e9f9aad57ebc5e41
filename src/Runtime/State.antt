-- ===== src/Runtime/State.antt =====
-- state.rs: the state of the contracts, a hash map of hash maps, and its merkle root. A contract id is its
-- 32 bytes read as one big-endian number; keys and values are byte lists. The order of a map's entries
-- stands for the hash map's iteration order. The log messages are left out.
pub mod Reads
pub mod Tidy
pub mod Root
use zentra_chain.Prelude.{
  ℕ, ◌≡◌, Bool, true, false, ltb, List, [], ◌∷◌, ◌++◌, map, Option, none, some, length, bytes_eq,
  bytes_eq_iff, bytes_lt, bytes_lt_irrefl, bytes_lt_trans, bytes_lt_total, not, arith,
}
use zentra_chain.Prelude.Map
use zentra_chain.Prelude.Map.{Key, Map, nat_key}
use zentra_chain.Prelude.Sorted.{Order, sort_by_key}
use zentra_chain.Types.{Hash, zero_hash}
use zentra_chain.Core.Data.{Crypto}
use zentra_chain.Core.Merkle.{build_merkle_tree, hash_bytes}

instance abbrev pub bytes_key : Key (List ℕ)
bytes_key = record { beq = bytes_eq; beq_iff = bytes_eq_iff }

instance abbrev pub bytes_order : Order (List ℕ)
bytes_order = record {
  lt = bytes_lt;
  irrefl = bytes_lt_irrefl;
  trans = bytes_lt_trans;
  total = bytes_lt_total;
}

pub ltb_irrefl : (a : ℕ) → ltb a a ≡ false
ltb_irrefl a = ground arith

pub ltb_trans : (a b c : ℕ) → ltb a b ≡ true → ltb b c ≡ true → ltb a c ≡ true
ltb_trans a b c h g = ground arith

pub ltb_total : (a b : ℕ) → ltb a b ≡ false → ltb b a ≡ false → a ≡ b
ltb_total a b h g = ground arith

instance abbrev pub nat_order : Order ℕ
nat_order = record { lt = ltb; irrefl = ltb_irrefl; trans = ltb_trans; total = ltb_total }

abbrev pub ContractId : Type 0
ContractId = ℕ

abbrev pub Namespace : Type 0
Namespace = Map (List ℕ) (List ℕ)

pub record StateMap : Type 0 where
  pub storage : Map ContractId Namespace

unfoldable pub empty_state : StateMap
empty_state = record { storage = [] }

-- `and_then(|m| m.get(key).cloned())`
abbrev pub read_in : List ℕ → Option Namespace → Option (List ℕ)
read_in key none = none
read_in key (some m) = Map.get key m

unfoldable pub get : StateMap → ContractId → List ℕ → Option (List ℕ)
get s contract key = read_in key (Map.get contract s.storage)

-- `entry(contract).or_default()`
abbrev pub or_default : Option Namespace → Namespace
or_default none = []
or_default (some m) = m

unfoldable pub namespace : StateMap → ContractId → Namespace
namespace s contract = or_default (Map.get contract s.storage)

unfoldable pub set : StateMap → ContractId → List ℕ → List ℕ → StateMap
unfolding namespace
set s contract key value = record {
  storage = Map.insert contract (Map.insert key value (namespace s contract)) s.storage;
}

-- `*m = entries`, or the removal of the contract where nothing is left.
unfoldable pub put_back : StateMap → ContractId → Namespace → StateMap
put_back s contract [] = record { storage = Map.remove contract s.storage }
put_back s contract (x ∷ m) = record { storage = Map.insert contract (x ∷ m) s.storage }

unfoldable pub delete : StateMap → ContractId → List ℕ → StateMap
delete s contract key = elim (Map.get contract s.storage) [
  | none ↦ s
  | some m ↦ put_back s contract (Map.remove key m)
]

abbrev pub is_empty : Namespace → Bool
is_empty [] = true
is_empty (x ∷ m) = false

unfoldable pub has_state : StateMap → ContractId → Bool
has_state s contract = elim (Map.get contract s.storage) [
  | none ↦ false
  | some m ↦ not (is_empty m)
]

unfoldable pub key_count : StateMap → ContractId → ℕ
key_count s contract = elim (Map.get contract s.storage) [ none ↦ 0 | some m ↦ length m ]

unfoldable pub contract_count : StateMap → ℕ
contract_count s = length s.storage

unfoldable pub clear_contract : StateMap → ContractId → StateMap
clear_contract s contract = record { storage = Map.remove contract s.storage }

module _ (c : Crypto) where
  -- `ContractId::from_bytecode`
  unfoldable pub from_bytecode : List ℕ → ContractId
  from_bytecode bytecode = c.blake2b bytecode

  -- H(contract_id ‖ key ‖ value)
  unfoldable pub leaf : ContractId → List ℕ × List ℕ → Hash
  leaf contract x = c.blake2b (hash_bytes contract ++ x.0 ++ x.1)

  unfoldable pub merkle_root_for_contract : ContractId → Namespace → Hash
  merkle_root_for_contract contract [] = zero_hash
  merkle_root_for_contract contract (x ∷ m) =
      build_merkle_tree c (map (leaf contract) (sort_by_key (x ∷ m)))

  unfoldable pub contract_hashes : Map ContractId Namespace → Map ContractId Hash
  contract_hashes storage = map (λ x. (x.0, merkle_root_for_contract x.0 x.1)) storage

  unfoldable pub root_of : Map ContractId Namespace → Hash
  root_of [] = zero_hash
  root_of (x ∷ storage) =
      build_merkle_tree c (map (λ y. y.1) (sort_by_key (contract_hashes (x ∷ storage))))

  unfoldable pub state_root : StateMap → Hash
  state_root s = root_of s.storage
