-- ===== src/Consensus/Ghostdag/Mergeset.antt =====
-- ghostdag.rs: the split of the other parents into blue and red ones, and the score of the block.
use zentra_chain.Prelude.{
  ℕ, ◌+◌, ◌^◌, ◌≤◌, ◌<◌, ◌≡◌, refl, ◌∙◌, true, not, List, [], ◌∷◌, ◌==◌, ==_iff, length, keep,
  contains, count, length-keep-le, if◌then◌else◌, arith,
}
use zentra_chain.Types.{Hash}
use zentra_chain.Consensus.Ghostdag.{
  Lookup, data_of, score_of, select_parent, insert_all, set_insert, classify_loop,
  classify_mergeset, process_block,
}
use zentra_chain.Consensus.Ghostdag.Parents.{select_parent-contains, select_parent-max}

abbrev others : Hash → List Hash → List Hash
others sp ps = keep (λ p. not (p == sp)) ps

count-others :
    (h sp : Hash) (ps : List Hash) → count h (others sp ps) ≡ (if h == sp then 0 else count h ps)
count-others h sp [] = ground arith
count-others h sp (p ∷ ps) =
    ground (arith, count-others h sp ps, ==_iff p h, ==_iff p sp, ==_iff h sp)

-- The selected parent is left out.
length-others :
    (sp : Hash) (ps : List Hash) → contains sp ps ≡ true → length (others sp ps) < length ps
length-others sp [] h = cc
length-others sp (p ∷ ps) h =
    ground (arith, length-others sp ps, length-keep-le (λ q. not (q == sp)) ps)

module _ (g : Lookup) where
  classify_loop-count :
      (k : ℕ) (h : Hash) (ps blue_set : List Hash)
      → count h (classify_loop g k ps blue_set).0 + count h (classify_loop g k ps blue_set).1
        ≡ count h ps
  unfolding classify_loop
  classify_loop-count k h [] blue_set = refl
  classify_loop-count k h (p ∷ ps) blue_set = ground (
    arith,
    classify_loop-count k h ps blue_set,
    classify_loop-count k h ps (insert_all (data_of g p).mergeset_blues (set_insert p blue_set)),
  )

  classify_loop-length :
      (k : ℕ) (ps blue_set : List Hash)
      → length (classify_loop g k ps blue_set).0 + length (classify_loop g k ps blue_set).1
        ≡ length ps
  unfolding classify_loop
  classify_loop-length k [] blue_set = refl
  classify_loop-length k (p ∷ ps) blue_set = ground (
    arith,
    classify_loop-length k ps blue_set,
    classify_loop-length k ps (insert_all (data_of g p).mergeset_blues (set_insert p blue_set)),
  )

  -- A block's blue and red merged blocks are exactly its parents other than the selected one, each as
  -- often as it is listed as a parent.
  pub process_block-partition :
      (k : ℕ) (p : Hash) (ps : List Hash) (h : Hash)
      → count h (process_block g k (p ∷ ps)).mergeset_blues
          + count h (process_block g k (p ∷ ps)).mergeset_reds
        ≡ (if h == select_parent g (p ∷ ps) then 0 else count h (p ∷ ps))
  unfolding process_block classify_mergeset
  process_block-partition k p ps h =
      let sp = select_parent g (p ∷ ps) in
      let selected = data_of g sp in
      classify_loop-count k h (others sp (p ∷ ps))
        (insert_all selected.mergeset_blues (set_insert selected.selected_parent []))
      ∙ count-others h sp (p ∷ ps)

  -- The score before it wraps, and the number of blue blocks.
  score_parts :
      (k : ℕ) (p : Hash) (ps : List Hash)
      → score_of g (select_parent g (p ∷ ps)) + 1 + length (p ∷ ps) < 2 ^ 64
      → (blues : ℕ) × (blues ≤ length ps)
        × ((process_block g k (p ∷ ps)).blue_score
            ≡ score_of g (select_parent g (p ∷ ps)) + 1 + blues)
  unfolding process_block classify_mergeset
  score_parts k p ps room =
      let sp = select_parent g (p ∷ ps) in
      let selected = data_of g sp in
      let start = insert_all selected.mergeset_blues (set_insert selected.selected_parent []) in
      let blues = length (classify_loop g k (others sp (p ∷ ps)) start).0 in
      let few : blues ≤ length ps = omega (
        arith,
        classify_loop-length k (others sp (p ∷ ps)) start,
        length-others sp (p ∷ ps) (select_parent-contains g p ps),
      ) in
      (blues, few, omega (arith, few, room))

  -- The blue score of a block is above the score of each of its parents, and its selected parent is
  -- one of them of the highest score, as long as the scores of the parents leave room in a u64 for
  -- one more than the parents.
  pub process_block-score :
      (k : ℕ) (p : Hash) (ps : List Hash) (h : Hash)
      → contains h (p ∷ ps) ≡ true
      → score_of g (select_parent g (p ∷ ps)) + 1 + length (p ∷ ps) < 2 ^ 64
      → (score_of g h < (process_block g k (p ∷ ps)).blue_score)
        × (contains (process_block g k (p ∷ ps)).selected_parent (p ∷ ps) ≡ true)
        × (score_of g h ≤ score_of g (process_block g k (p ∷ ps)).selected_parent)
        × ((process_block g k (p ∷ ps)).blue_score
            ≤ score_of g (process_block g k (p ∷ ps)).selected_parent + 1 + length ps)
  unfolding process_block classify_mergeset
  process_block-score k p ps h found room =
      let (blues, few, e) = score_parts k p ps room in
      (
        omega (arith, e, select_parent-max g p ps h found),
        select_parent-contains g p ps,
        select_parent-max g p ps h found,
        omega (arith, e, few),
      )
