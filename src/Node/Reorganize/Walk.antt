-- ===== src/Node/Reorganize/Walk.antt =====
-- node.rs, `get_selected_chain`: the end of the walk.
use zentra_chain.Prelude.{
  ℕ, zero, suc, ◌+◌, ◌≡◌, ◌≢◌, ◌<◌, refl, Option, some, List, [], ◌∷◌, ◌==◌, ==_iff, Bool-cases,
  Option-cases, inl, inr, arith,
}
use zentra_chain.Types.{Hash, zero_hash}
use zentra_chain.Node.Reorganize.{Stores, chain_next, selected_chain, push_front}

push_front-some :
    (h : Hash) (o : Option (List Hash))
    → ((hs : List Hash) × (o ≡ some hs))
    → (hs : List Hash) × (push_front h o ≡ some hs)
push_front-some h o (hs, e) = (h ∷ hs, rw e refl)

walk_zero :
    (st : Stores) (fuel : ℕ)
    → 0 < fuel
    → (hs : List Hash) × (selected_chain st fuel zero_hash ≡ some hs)
unfolding selected_chain
walk_zero st zero positive = absurd (omega arith)
walk_zero st (suc fuel) positive = ([], refl)

-- Where each step of the walk goes to a block of a lower rank, such as its blue score, or to the zero
-- hash, the walk from a block ends within one round more than the block's rank.
pub selected_chain-ends :
    (st : Stores) (rank : Hash → ℕ) (fuel : ℕ) (tip : Hash)
    (falls : (h p : Hash) → chain_next st h ≡ some p → p ≢ zero_hash → rank p < rank h)
    (enough : rank tip + 1 < fuel)
    → (chain : List Hash) × (selected_chain st fuel tip ≡ some chain)
unfolding selected_chain
selected_chain-ends st rank zero tip falls enough = absurd (omega arith)
selected_chain-ends st rank (suc fuel) tip falls enough = elim (Bool-cases (tip == zero_hash)) [
  | inl ends ↦ ([], rw ends refl)
  | inr goes ↦ elim (Option-cases (chain_next st tip)) [
    | inl breaks ↦ (tip ∷ [], rw (goes, breaks) refl)
    | inr (p, step) ↦
        rw (goes, step)
          (push_front-some tip (selected_chain st fuel p) (elim (Bool-cases (p == zero_hash)) [
            | inl last ↦ rw ((==_iff p zero_hash).0 last) (walk_zero st fuel (omega arith))
            | inr other ↦
                let apart : p ≢ zero_hash = λ e. cc ((==_iff p zero_hash).1 e, other) in
                selected_chain-ends st rank fuel p falls (omega (arith, falls tip p step apart))
          ]))
  ]
]
