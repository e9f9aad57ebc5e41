-- ===== src/Consensus/Ghostdag/Chain.antt =====
-- ghostdag.rs: the walk along the selected parents.
use zentra_chain.Prelude.{
  ℕ, zero, suc, ◌+◌, ◌≤◌, ◌<◌, ◌≡◌, ◌≢◌, refl, some, List, [], ◌∷◌, ◌==◌, ==_iff, length, arith,
  Bool-cases, Option-cases, inl, inr,
}
use zentra_chain.Types.{Hash, zero_hash}
use zentra_chain.Consensus.Ghostdag.{
  Lookup, GhostdagData, data_of, score_of, chain_from, get_selected_chain,
}

-- Every recorded block scores above its selected parent, unless it has none.
abbrev pub IsRising : Lookup → Type 0
IsRising g =
    (h : Hash) (d : GhostdagData)
    → g h ≡ some d
    → d.selected_parent ≢ zero_hash
    → score_of g d.selected_parent < d.blue_score

-- From a hash down to one without a selected parent, along the selected parents.
abbrev pub IsChain : Lookup → Hash → List Hash → Type 0
IsChain g h [] = h ≡ zero_hash
IsChain g h (x ∷ xs) = (x ≡ h) × IsChain g (data_of g h).selected_parent xs

data_of_known : (g : Lookup) (h : Hash) (d : GhostdagData) → g h ≡ some d → data_of g h ≡ d
data_of_known g h d known = ground (arith, known)

module _ (g : Lookup) (rising : IsRising g) where
  chain_from-IsChain :
      (fuel : ℕ) (h : Hash)
      → score_of g h < fuel
      → (hs : List Hash) × (chain_from g fuel h ≡ some hs)
        × IsChain g h hs
        × (length hs ≤ score_of g h + 1)
  unfolding chain_from
  chain_from-IsChain zero h more = absurd (omega arith)
  chain_from-IsChain (suc fuel) h more = elim (Option-cases (g h)) [
    | inl unknown ↦ (h ∷ [], ground (arith, unknown), (refl, ground (arith, unknown)), omega arith)
    | inr (d, known) ↦ elim (Bool-cases (d.selected_parent == zero_hash)) [
      | inl last ↦
          (h ∷ [], ground (arith, known, last), (refl, ground (arith, known, last)), omega arith)
      | inr more_parents ↦
          let other : d.selected_parent ≢ zero_hash =
            λ e. ground (arith, more_parents, (==_iff d.selected_parent zero_hash).1 e) in
          let falls = rising h d known other in
          let same : score_of g h ≡ d.blue_score = ground (arith, known) in
          let (hs, ran, chain, short) =
            chain_from-IsChain fuel d.selected_parent (omega (arith, falls, same)) in
          (
            h ∷ hs,
            ground (arith, known, more_parents, ran),
            (refl, rw (data_of_known g h d known) chain),
            omega (arith, short, falls, same),
          )
    ]
  ]

-- Where every recorded block scores above its selected parent, the selected chain of a block is
-- found: it starts at the block, follows the selected parents until there is none, and is no longer
-- than the block's score and one.
pub get_selected_chain-IsChain :
    (g : Lookup) (tip : Hash)
    → IsRising g
    → (hs : List Hash) × (get_selected_chain g tip ≡ some hs)
      × IsChain g tip hs
      × (length hs ≤ score_of g tip + 1)
unfolding get_selected_chain
get_selected_chain-IsChain g tip rising =
    chain_from-IsChain g rising (score_of g tip + 1) tip (omega arith)
