-- ===== src/Core/Merkle/Agreement.antt =====
-- merkle.rs and state.rs: `build_merkle_tree` of the runtime against `compute_merkle_root`.
use zentra_chain.Prelude.{
  ℕ, zero, suc, ◌+◌, ◌/◌, ◌≤◌, ◌<◌, ◌≡◌, refl, ap, List, [], ◌∷◌, length, arith,
}
use zentra_chain.Types.{Hash}
use zentra_chain.Core.Data.{Crypto}
use zentra_chain.Core.Merkle.{
  pad, pairs, root_loop, first, compute_merkle_root, tree_loop, build_merkle_tree,
}
use zentra_chain.Core.Merkle.Levels.{length-pad, length-pairs, next_level-pad}

module _ (c : Crypto) where
  pub length-level : (l : List Hash) → length (pairs c (pad l)) ≡ (length l + 1) / 2
  length-level l = omega (arith, length-pairs c (pad l), length-pad l)

  -- With as much fuel as there are hashes the loop stops at one hash.
  pub root_loop_single :
      (f : ℕ) (l : List Hash)
      → 0 < length l
      → length l ≤ f
      → (r : Hash) × (root_loop c f l ≡ r ∷ [])
  unfolding root_loop
  root_loop_single f [] h g = absurd (omega arith)
  root_loop_single zero (a ∷ l) h g = absurd (omega arith)
  root_loop_single (suc f) (a ∷ []) h g = (a, ground arith)
  root_loop_single (suc f) (a ∷ b ∷ l) h g =
      let next = pairs c (pad (a ∷ b ∷ l)) in
      let n = length-level (a ∷ b ∷ l) in
      let (r, e) = root_loop_single f next (omega (arith, n)) (omega (arith, n)) in
      (r, ground (arith, e))

  tree_loop-root_loop : (f : ℕ) (l : List Hash) → tree_loop c f l ≡ root_loop c f l
  unfolding tree_loop root_loop
  tree_loop-root_loop zero l = refl
  tree_loop-root_loop (suc f) l =
      ground (arith, tree_loop-root_loop f (pairs c (pad l)), next_level-pad c l)

  -- For every list of leaves both implementations give the same root.
  pub build_merkle_tree-compute_merkle_root :
      (l : List Hash) → build_merkle_tree c l ≡ compute_merkle_root c l
  unfolding build_merkle_tree compute_merkle_root
  build_merkle_tree-compute_merkle_root [] = refl
  build_merkle_tree-compute_merkle_root (a ∷ []) = refl
  build_merkle_tree-compute_merkle_root (a ∷ b ∷ l) =
      ap first (tree_loop-root_loop (length (a ∷ b ∷ l)) (a ∷ b ∷ l))
