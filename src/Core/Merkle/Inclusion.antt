-- ===== src/Core/Merkle/Inclusion.antt =====
-- merkle.rs: inclusion proofs and their verification.
use zentra_chain.Prelude.{
  ℕ, zero, suc, ◌/◌, ◌%◌, ◌≤◌, ◌<◌, ◌≡◌, Bool, true, some, List, [], ◌∷◌, length, get_elem?, ◌==◌,
  if◌then◌else◌, arith, Bool-cases, inl, inr,
}
use zentra_chain.Types.{Hash}
use zentra_chain.Core.Data.{Crypto}
use zentra_chain.Core.Merkle.{
  pad, combine, pairs, root_loop, compute_merkle_root, sibling, proof_loop, compute_merkle_proof,
  fold_proof, verify_merkle_proof,
}
use zentra_chain.Core.Merkle.Levels.{get-pad, get-lt, get-pairs, lt_of_get, sibling-lt_pad}
use zentra_chain.Core.Merkle.Agreement.{length-level}

module _ (c : Crypto) where
  proof_step :
      (f : ℕ) (l : List Hash) (i : ℕ) (x y : Hash) (p : List (Hash × Bool))
      → 1 < length l
      → get_elem? (pad l) (sibling i) ≡ some y
      → proof_loop c f (pairs c (pad l)) (i / 2) ≡ some p
      → root_loop c f (pairs c (pad l))
        ≡ fold_proof c (if i % 2 == 0 then combine c x y else combine c y x) p ∷ []
      → (proof_loop c (suc f) l i ≡ some ((y, i % 2 == 0) ∷ p))
        × (root_loop c (suc f) l ≡ fold_proof c x ((y, i % 2 == 0) ∷ p) ∷ [])
  unfolding proof_loop root_loop fold_proof
  proof_step f l i x y p many beside found root = elim (Bool-cases (i % 2 == 0)) [
    | inl even ↦ rw even (ground arith, ground arith)
    | inr odd ↦ rw odd (ground arith, ground arith)
  ]

  -- The proof found for an index leads from its hash to the hash that the loop ends on.
  proof_loop_fold :
      (f : ℕ) (l : List Hash) (i : ℕ) (x : Hash)
      → length l ≤ f
      → get_elem? l i ≡ some x
      → (p : List (Hash × Bool)) × (proof_loop c f l i ≡ some p)
        × (root_loop c f l ≡ fold_proof c x p ∷ [])
  unfolding proof_loop root_loop fold_proof
  proof_loop_fold f [] i x h g = absurd (cc)
  proof_loop_fold zero (a ∷ l) i x h g = absurd (omega arith)
  proof_loop_fold (suc f) (a ∷ []) zero x h g = ([], ground arith, ground arith)
  proof_loop_fold (suc f) (a ∷ []) (suc i) x h g = absurd (cc)
  proof_loop_fold (suc f) (a ∷ b ∷ l) i x h g =
      let whole = a ∷ b ∷ l in
      let up = pairs c (pad whole) in
      let here = get-pad whole i x g in
      let (y, beside) = get-lt (pad whole) (sibling i) (sibling-lt_pad whole i x g) in
      let parent = if i % 2 == 0 then combine c x y else combine c y x in
      let shorter : length up ≤ f = omega (arith, length-level c whole) in
      let (p, found, root) =
        proof_loop_fold f up (i / 2) parent shorter (get-pairs c (pad whole) i x y here beside) in
      let (found', root') = proof_step f whole i x y p (omega arith) beside found root in
      ((y, i % 2 == 0) ∷ p, found', root')

  -- For every leaf, `compute_merkle_proof` finds a proof, and `verify_merkle_proof` accepts it
  -- against the root that `compute_merkle_root` computes.
  pub verify-compute_proof :
      (l : List Hash) (i : ℕ) (x : Hash)
      → get_elem? l i ≡ some x
      → (p : List (Hash × Bool)) × (compute_merkle_proof c l i ≡ some p)
        × (verify_merkle_proof c (compute_merkle_root c l) x p ≡ true)
  unfolding compute_merkle_proof verify_merkle_proof compute_merkle_root fold_proof
  verify-compute_proof [] i x h = absurd (cc)
  verify-compute_proof (a ∷ []) zero x h = ([], ground arith, ground arith)
  verify-compute_proof (a ∷ []) (suc i) x h = absurd (cc)
  verify-compute_proof (a ∷ b ∷ l) i x h =
      let whole = a ∷ b ∷ l in
      let (p, found, root) = proof_loop_fold (length whole) whole i x (omega arith) h in
      let inside = lt_of_get whole i x h in (p, ground (arith, found, inside), ground (arith, root))
