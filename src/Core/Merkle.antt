-- ===== src/Core/Merkle.antt =====
-- merkle.rs: merkle roots and inclusion proofs, and `build_merkle_tree` of
-- zentra-runtime/src/state.rs, the second implementation of the same root. The loops take as fuel
-- the length of the list, which each round at least halves; `none` is an index out of range.
pub mod Levels
pub mod Inclusion
pub mod Agreement
use zentra_chain.Prelude.{
  ℕ, zero, suc, ◌+◌, ◌-◌, ◌/◌, ◌%◌, Bool, true, false, Option, none, some, List, [], ◌∷◌, ◌++◌, ltb,
  leb, ◌==◌, length, get_elem?, if◌then◌else◌, reverse,
}
use zentra_chain.Types.{Hash, zero_hash}
use zentra_chain.Core.Data.{Crypto, Block, Transaction}
use zentra_chain.Core.Tx.{to_le_bytes, txid}

-- The 32 bytes of a hash, most significant first.
unfoldable pub hash_bytes : Hash → List ℕ
hash_bytes h = reverse (to_le_bytes 32 h)

abbrev pub push_last : List Hash → List Hash
push_last [] = []
push_last (a ∷ []) = a ∷ a ∷ []
push_last (a ∷ b ∷ l) = a ∷ push_last (b ∷ l)

-- `if current_level.len() % 2 != 0 { current_level.push(last) }`
unfoldable pub pad : List Hash → List Hash
pad l = if length l % 2 == 0 then l else push_last l

-- `current_level[0]`
abbrev pub first : List Hash → Hash
first [] = zero_hash
first (a ∷ l) = a

abbrev pub sibling : ℕ → ℕ
sibling idx = if idx % 2 == 0 then idx + 1 else idx - 1

abbrev push_step : Bool → Option Hash → Option (List (Hash × Bool)) → Option (List (Hash × Bool))
push_step side none rest = none
push_step side (some h) none = none
push_step side (some h) (some p) = some ((h, side) ∷ p)

module _ (c : Crypto) where
  -- `Hash::combine`
  unfoldable pub combine : Hash → Hash → Hash
  combine l r = c.blake2b (hash_bytes l ++ hash_bytes r)

  -- `for chunk in current_level.chunks(2)`; the level's length is even.
  unfoldable pub pairs : List Hash → List Hash
  pairs [] = []
  pairs (a ∷ []) = []
  pairs (a ∷ b ∷ l) = combine a b ∷ pairs l

  -- `while current_level.len() > 1`, on fuel
  unfoldable pub root_loop : ℕ → List Hash → List Hash
  root_loop zero l = l
  root_loop (suc f) l = elim (ltb 1 (length l)) [ true ↦ root_loop f (pairs (pad l)) | false ↦ l ]

  unfoldable pub compute_merkle_root : List Hash → Hash
  compute_merkle_root [] = zero_hash
  compute_merkle_root (a ∷ []) = a
  compute_merkle_root (a ∷ b ∷ l) = first (root_loop (length (a ∷ b ∷ l)) (a ∷ b ∷ l))

  unfoldable pub proof_loop : ℕ → List Hash → ℕ → Option (List (Hash × Bool))
  proof_loop zero l idx = some []
  proof_loop (suc f) l idx = elim (ltb 1 (length l)) [
    | true ↦
        push_step (idx % 2 == 0) (get_elem? (pad l) (sibling idx))
          (proof_loop f (pairs (pad l)) (idx / 2))
    | false ↦ some []
  ]

  unfoldable pub compute_merkle_proof : List Hash → ℕ → Option (List (Hash × Bool))
  compute_merkle_proof l index =
      if leb (length l) 1
      then some []
      else if leb (length l) index
      then some []
      else proof_loop (length l) l index

  unfoldable pub fold_proof : Hash → List (Hash × Bool) → Hash
  fold_proof h [] = h
  fold_proof h ((s, true) ∷ p) = fold_proof (combine h s) p
  fold_proof h ((s, false) ∷ p) = fold_proof (combine s h) p

  unfoldable pub verify_merkle_proof : Hash → Hash → List (Hash × Bool) → Bool
  verify_merkle_proof root id p = fold_proof id p == root

  -- state.rs: one level, an odd last leaf being combined with itself.
  unfoldable pub next_level : List Hash → List Hash
  next_level [] = []
  next_level (a ∷ []) = combine a a ∷ []
  next_level (a ∷ b ∷ l) = combine a b ∷ next_level l

  unfoldable pub tree_loop : ℕ → List Hash → List Hash
  tree_loop zero l = l
  tree_loop (suc f) l = elim (ltb 1 (length l)) [ true ↦ tree_loop f (next_level l) | false ↦ l ]

  unfoldable pub build_merkle_tree : List Hash → Hash
  build_merkle_tree [] = zero_hash
  build_merkle_tree (a ∷ []) = a
  build_merkle_tree (a ∷ b ∷ l) = first (tree_loop (length (a ∷ b ∷ l)) (a ∷ b ∷ l))
