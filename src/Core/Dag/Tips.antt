-- ===== src/Core/Dag/Tips.antt =====
-- dag.rs: the selected tip and the order of the tips.
use zentra_chain.Prelude.{
  ◌≡◌, ◌⊎◌, refl, sym, ap, ◌∙◌, true, false, Option, none, some, List, [], ◌∷◌, ◌==◌, ==_iff,
  contains, if◌then◌else◌, arith, Bool-cases, Option-cases, inl, inr,
}
use zentra_chain.Types.{Hash}
use zentra_chain.Core.Data.{Header}
use zentra_chain.Core.Dag.{
  DagGraph, Candidate, better, candidate, best_tip, get_header, get_selected_tip,
}

better_trans :
    (a b x : Candidate)
    → better a (some b) ≡ false
    → better b (some x) ≡ false
    → better a (some x) ≡ false
better_trans a b x h k = ground arith

better_antisym : (a b : Candidate) → better a (some b) ≡ false → better b (some a) ≡ false → a ≡ b
better_antisym a b h k = ground arith

abbrev chosen : Candidate → Candidate → Candidate
chosen a b = if better a (some b) then a else b

chosen-keeps : (a b : Candidate) → better b (some (chosen a b)) ≡ false
chosen-keeps a b = ground arith

chosen-takes : (a b : Candidate) → better a (some (chosen a b)) ≡ false
chosen-takes a b = ground arith

module _ (d : DagGraph) where
  -- One round of the loop.
  abbrev step : Hash → Option Candidate → Option Candidate
  step t best = elim (get_header t d) [
    | none ↦ best
    | some hd ↦ if better (candidate t hd) best then some (candidate t hd) else best
  ]

  step_unknown : (t : Hash) (best : Option Candidate) → get_header t d ≡ none → step t best ≡ best
  step_unknown t best h = ground (arith, h)

  step_first :
      (t : Hash) (hd : Header) → get_header t d ≡ some hd → step t none ≡ some (candidate t hd)
  step_first t hd h = ground (arith, h)

  step_known :
      (t : Hash) (hd : Header) (x : Candidate)
      → get_header t d ≡ some hd
      → step t (some x) ≡ some (chosen (candidate t hd) x)
  step_known t hd x h = ground (arith, h)

  step-keeps :
      (t : Hash) (x : Candidate)
      → (y : Candidate) × (step t (some x) ≡ some y) × (better x (some y) ≡ false)
  step-keeps t x = elim (Option-cases (get_header t d)) [
    | inl unknown ↦ (x, step_unknown t (some x) unknown, ground arith)
    | inr (hd, known) ↦
        (chosen (candidate t hd) x, step_known t hd x known, chosen-keeps (candidate t hd) x)
  ]

  step-takes :
      (t : Hash) (hd : Header) (best : Option Candidate)
      → get_header t d ≡ some hd
      → (y : Candidate) × (step t best ≡ some y) × (better (candidate t hd) (some y) ≡ false)
  step-takes t hd none found = (candidate t hd, step_first t hd found, ground arith)
  step-takes t hd (some x) found =
      (chosen (candidate t hd) x, step_known t hd x found, chosen-takes (candidate t hd) x)

  best_tip-keeps :
      (ts : List Hash) (x : Candidate)
      → (y : Candidate) × (best_tip d ts (some x) ≡ some y) × (better x (some y) ≡ false)
  unfolding best_tip
  best_tip-keeps [] x = (x, refl, ground arith)
  best_tip-keeps (t ∷ ts) x =
      let (y, taken, le) = step-keeps t x in
      let (z, found, le') = best_tip-keeps ts y in
      (z, ap (best_tip d ts) taken ∙ found, better_trans x y z le le')

  best_tip-max :
      (ts : List Hash) (t : Hash) (hd : Header) (best : Option Candidate)
      → contains t ts ≡ true
      → get_header t d ≡ some hd
      → (y : Candidate) × (best_tip d ts best ≡ some y) × (better (candidate t hd) (some y) ≡ false)
  unfolding best_tip
  best_tip-max [] t hd best h found = absurd (cc h)
  best_tip-max (u ∷ ts) t hd best h found = elim (Bool-cases (u == t)) [
    | inr other ↦ best_tip-max ts t hd (step u best) (ground (arith, h, other)) found
    | inl same ↦
        let e : u ≡ t = (==_iff u t).0 same in
        let (y, taken, le) = step-takes u hd best (rw e found) in
        let (z, ran, le') = best_tip-keeps ts y in
        (z, ap (best_tip d ts) taken ∙ ran, better_trans (candidate t hd) y z (rw e at le) le')
  ]

  step-which :
      (t : Hash) (hd : Header) (best : Option Candidate) (y : Candidate)
      → get_header t d ≡ some hd
      → step t best ≡ some y
      → (best ≡ some y) ⊎ (y ≡ candidate t hd)
  step-which t hd none y known h = inr (cc (step_first t hd known))
  step-which t hd (some x) y known h = elim (Bool-cases (better (candidate t hd) (some x))) [
    | inl wins ↦ inr (ground (arith, wins, known, h))
    | inr loses ↦ inl (ground (arith, loses, known, h))
  ]

  -- The best tip is one of the tips, or the one that the loop started with.
  best_tip-from :
      (ts : List Hash) (best : Option Candidate) (y : Candidate)
      → best_tip d ts best ≡ some y
      → (best ≡ some y)
        ⊎ ((hd : Header) × (contains y.id ts ≡ true)
            × (get_header y.id d ≡ some hd)
            × (y ≡ candidate y.id hd))
  unfolding best_tip
  best_tip-from [] best y h = inl h
  best_tip-from (t ∷ ts) best y h = elim (best_tip-from ts (step t best) y h) [
    | inr (hd, listed, found, e) ↦ inr (hd, ground (arith, listed), found, e)
    | inl taken ↦ elim (Option-cases (get_header t d)) [
      | inl unknown ↦ inl (sym (step_unknown t best unknown) ∙ taken)
      | inr (hd, known) ↦ elim (step-which t hd best y known taken) [
        | inl kept ↦ inl kept
        | inr won ↦
            let e : t ≡ y.id = ap (λ x. x.id) (sym won) in
            inr (hd, ground (arith, (==_iff t y.id).1 e), rw e at known, rw e at won)
      ]
    ]
  ]

-- What one graph selects, the other selects or betters.
best_tip-transfer :
    (d d' : DagGraph) (y : Candidate)
    → ((h : Hash) → get_header h d ≡ get_header h d')
    → ((h : Hash) → contains h d.tips ≡ contains h d'.tips)
    → best_tip d d.tips none ≡ some y
    → (z : Candidate) × (best_tip d' d'.tips none ≡ some z) × (better y (some z) ≡ false)
best_tip-transfer d d' y same_blocks same_tips h = elim (best_tip-from d d.tips none y h) [
  | inl nothing ↦ absurd (cc nothing)
  | inr (hd, listed, found, e) ↦
      let (z, ran, le) =
        best_tip-max d' d'.tips y.id hd none (sym (same_tips y.id) ∙ listed)
          (sym (same_blocks y.id) ∙ found) in
      (z, ran, ap (λ x. better x (some z)) e ∙ le)
]

-- Two graphs with the same headers and the same tips, in any order, select the same tip.
pub get_selected_tip_order :
    (d d' : DagGraph)
    → ((h : Hash) → get_header h d ≡ get_header h d')
    → ((h : Hash) → contains h d.tips ≡ contains h d'.tips)
    → get_selected_tip d ≡ get_selected_tip d'
unfolding get_selected_tip
get_selected_tip_order d d' same_blocks same_tips =
    let back : (h : Hash) → get_header h d' ≡ get_header h d = λ h. sym (same_blocks h) in
    let back_tips : (h : Hash) → contains h d'.tips ≡ contains h d.tips = λ h. sym (same_tips h) in
    elim (Option-cases (best_tip d d.tips none)) [
      | inr (y, h) ↦
          let (z, k, le) = best_tip-transfer d d' y same_blocks same_tips h in
          let (y', h', le') = best_tip-transfer d' d z back back_tips k in
          let same : y' ≡ y = cc in
          let e = better_antisym y z le (rw same at le') in ground (arith, h, k, e)
      | inl nothing ↦ elim (Option-cases (best_tip d' d'.tips none)) [
        | inl nothing' ↦ ground (arith, nothing, nothing')
        | inr (z, k) ↦ let (y', h', le') = best_tip-transfer d' d z back back_tips k in absurd (cc)
      ]
    ]
