-- ===== src/Consensus/Ghostdag/Parents.antt =====
-- ghostdag.rs: the choice of the selected parent.
use zentra_chain.Prelude.{◌≤◌, ◌≡◌, refl, ap, true, List, [], ◌∷◌, ◌==◌, ==_iff, contains, arith}
use zentra_chain.Types.{Hash}
use zentra_chain.Consensus.Ghostdag.{Lookup, score_of, max_parent, select_parent}

module _ (g : Lookup) where
  score_same : (x h : Hash) → (x == h) ≡ true → score_of g x ≡ score_of g h
  score_same x h e = ap (λ t. score_of g t) ((==_iff x h).0 e)

  contains_self : (h : Hash) (hs : List Hash) → contains h (h ∷ hs) ≡ true
  contains_self h hs = ground (arith, (==_iff h h).1 refl)

  max_parent-contains :
      (best : Hash) (ps : List Hash) → contains (max_parent g best ps) (best ∷ ps) ≡ true
  unfolding max_parent
  max_parent-contains best [] = ground arith
  max_parent-contains best (p ∷ ps) =
      ground (arith, max_parent-contains p ps, max_parent-contains best ps)

  max_parent-le :
      (best : Hash) (ps : List Hash) (h : Hash)
      → contains h (best ∷ ps) ≡ true
      → score_of g h ≤ score_of g (max_parent g best ps)
  unfolding max_parent
  max_parent-le best [] h found = ground (arith, score_same best h)
  max_parent-le best (p ∷ ps) h found = ground (
    arith,
    score_same best h,
    max_parent-le p ps h,
    max_parent-le best ps h,
    max_parent-le p ps p (contains_self p ps),
    max_parent-le best ps best (contains_self best ps),
    score_same p h,
  )

  pub select_parent-contains :
      (p : Hash) (ps : List Hash) → contains (select_parent g (p ∷ ps)) (p ∷ ps) ≡ true
  unfolding select_parent
  select_parent-contains p ps = max_parent-contains p ps

  pub select_parent-max :
      (p : Hash) (ps : List Hash) (h : Hash)
      → contains h (p ∷ ps) ≡ true
      → score_of g h ≤ score_of g (select_parent g (p ∷ ps))
  unfolding select_parent
  select_parent-max p ps h found = max_parent-le p ps h found
