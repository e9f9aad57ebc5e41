-- ===== src/Prelude/Sorted.antt =====
-- Sorting the entries of a map by their keys, and how far the result depends on their order.
use mathlib.Core.Path.{◌≡◌, refl, sym, ap, ◌∙◌}
use mathlib.Core.Logic.{inl, inr}
use mathlib.Core.Bool.{Bool, true, false}
use mathlib.Core.Option.{none, some}
use mathlib.Core.List.{[], ◌∷◌}
use native.Mathlib.Omega.{arith}
use zentra_chain.Prelude.Tests.{if◌then◌else◌, Bool-cases}
use zentra_chain.Prelude.Lists.{All}
use zentra_chain.Prelude.Map.{Key, Map, get, IsNodup, nat_key}
use zentra_chain.Prelude.Map.Laws.{beq_self}

-- The `Ord` of a key type, strict.
pub record Order (K : Type 0) : Type 0 where
  pub lt : K → K → Bool
  pub irrefl : (a : K) → lt a a ≡ false
  pub trans : (a b c : K) → lt a b ≡ true → lt b c ≡ true → lt a c ≡ true
  pub total : (a b : K) → lt a b ≡ false → lt b a ≡ false → a ≡ b

module _ {K V : Type 0} ⦃k : Key K⦄ ⦃o : Order K⦄ where
  unfoldable pub insert_sorted : K → V → Map K V → Map K V
  insert_sorted a v [] = (a, v) ∷ []
  insert_sorted a v ((b, w) ∷ m) =
      let rest = insert_sorted a v m in if o.lt b a then (b, w) ∷ rest else (a, v) ∷ (b, w) ∷ m

  -- `sort_by(|a, b| a.0.cmp(&b.0))`
  unfoldable pub sort_by_key : Map K V → Map K V
  sort_by_key [] = []
  sort_by_key ((a, v) ∷ m) = insert_sorted a v (sort_by_key m)

  -- Every key is above `a`.
  abbrev pub Above : K → Map K V → Type 0
  Above a m = All (λ x. o.lt a x.0 ≡ true) m

  abbrev pub IsSorted : Map K V → Type 0
  IsSorted [] = Unit {0}
  IsSorted ((a, v) ∷ m) = Above a m × IsSorted m

  get-Above : (a j : K) (m : Map K V) {v : V} → Above a m → get j m ≡ some v → o.lt a j ≡ true
  get-Above a j [] h e = cc
  get-Above a j ((b, w) ∷ m) h e = elim (Bool-cases (k.beq b j)) [
    | inl same ↦ rw (← (k.beq_iff b j).0 same) h.0
    | inr other ↦ get-Above a j m h.1 (rw other at e)
  ]

  Above-absent : (a : K) (m : Map K V) → Above a m → get a m ≡ none
  Above-absent a [] h = refl
  Above-absent a ((b, w) ∷ m) h = elim (Bool-cases (k.beq b a)) [
    | inl same ↦ absurd (ground (arith, h.0, o.irrefl a, (k.beq_iff b a).0 same))
    | inr other ↦ rw other (Above-absent a m h.1)
  ]

  Above-trans : (a b : K) (m : Map K V) → o.lt a b ≡ true → Above b m → Above a m
  Above-trans a b [] h above = tt
  Above-trans a b ((c, w) ∷ m) h above = (o.trans a b c h above.0, Above-trans a b m h above.1)

  Above-insert_sorted :
      (a b : K) (v : V) (m : Map K V) → o.lt a b ≡ true → Above a m → Above a (insert_sorted b v m)
  unfolding insert_sorted
  Above-insert_sorted a b v [] h above = (h, tt)
  Above-insert_sorted a b v ((c, w) ∷ m) h above = elim (Bool-cases (o.lt c b)) [
    | inl later ↦ rw later (above.0, Above-insert_sorted a b v m h above.1)
    | inr here ↦ rw here (h, above)
  ]

  insert_sorted-IsSorted :
      (a : K) (v : V) (m : Map K V) → get a m ≡ none → IsSorted m → IsSorted (insert_sorted a v m)
  unfolding insert_sorted
  insert_sorted-IsSorted a v [] new sorted = (tt, tt)
  insert_sorted-IsSorted a v ((b, w) ∷ m) new sorted = elim (Bool-cases (k.beq b a)) [
    | inl same ↦ absurd (ground (arith, same, new))
    | inr apart ↦ elim (Bool-cases (o.lt b a)) [
      | inl later ↦ rw later (
        Above-insert_sorted b a v m later sorted.0,
        insert_sorted-IsSorted a v m (rw apart at new) sorted.1,
      )
      | inr here ↦ elim (Bool-cases (o.lt a b)) [
        | inl below ↦ rw here ((below, Above-trans a b m below sorted.0), sorted)
        | inr same ↦ absurd (ground (arith, apart, (k.beq_iff b a).1 (o.total b a here same)))
      ]
    ]
  ]

  get-insert_sorted :
      (a j : K) (v : V) (m : Map K V)
      → get a m ≡ none
      → get j (insert_sorted a v m) ≡ (if k.beq a j then some v else get j m)
  unfolding insert_sorted
  get-insert_sorted a j v [] new = refl
  get-insert_sorted a j v ((b, w) ∷ m) new = elim (Bool-cases (k.beq b a)) [
    | inl same ↦ absurd (ground (arith, same, new))
    | inr apart ↦
        let earlier = get-insert_sorted a j v m (rw apart at new) in
        ground (arith, apart, earlier, k.beq_iff b j, k.beq_iff a j, k.beq_iff b a)
  ]

  -- Sorting keeps every lookup of a map without double keys.
  pub get-sort_by_key : (j : K) (m : Map K V) → IsNodup m → get j (sort_by_key m) ≡ get j m
  unfolding sort_by_key
  get-sort_by_key j [] nodup = refl
  get-sort_by_key j ((a, v) ∷ m) nodup =
      get-insert_sorted a j v (sort_by_key m) (get-sort_by_key a m nodup.1 ∙ nodup.0)
      ∙ ap (λ rest. if k.beq a j then some v else rest) (get-sort_by_key j m nodup.1)

  sort_by_key-IsSorted : (m : Map K V) → IsNodup m → IsSorted (sort_by_key m)
  unfolding sort_by_key
  sort_by_key-IsSorted [] nodup = tt
  sort_by_key-IsSorted ((a, v) ∷ m) nodup =
      insert_sorted-IsSorted a v (sort_by_key m) (get-sort_by_key a m nodup.1 ∙ nodup.0)
        (sort_by_key-IsSorted m nodup.1)

  abbrev pub SameLookups : Map K V → Map K V → Type 0
  SameLookups m n = (j : K) → get j m ≡ get j n

  -- The heads of sorted maps with the same lookups have one key.
  same_head :
      (a b : K) (v w : V) (m n : Map K V)
      → IsSorted ((a, v) ∷ m)
      → IsSorted ((b, w) ∷ n)
      → SameLookups ((a, v) ∷ m) ((b, w) ∷ n)
      → k.beq a b ≡ true
  same_head a b v w m n sm sn same = elim (Bool-cases (k.beq a b)) [
    | inl e ↦ e
    | inr apart ↦
        let found_a : get a n ≡ some v =
          ground (arith, same a, beq_self a, apart, k.beq_iff b a, k.beq_iff a b) in
        let found_b : get b m ≡ some w = ground (arith, same b, beq_self b, apart) in
        absurd (
          ground (
            arith,
            get-Above b a n sn.0 found_a,
            get-Above a b m sm.0 found_b,
            o.trans a b a (get-Above a b m sm.0 found_b) (get-Above b a n sn.0 found_a),
            o.irrefl a,
          ))
  ]

  same_tails :
      (a b : K) (v w : V) (m n : Map K V)
      → IsSorted ((a, v) ∷ m)
      → IsSorted ((b, w) ∷ n)
      → a ≡ b
      → SameLookups ((a, v) ∷ m) ((b, w) ∷ n)
      → SameLookups m n
  same_tails a b v w m n sm sn key same j = elim (Bool-cases (k.beq a j)) [
    | inl here ↦
        let e : a ≡ j = (k.beq_iff a j).0 here in
        rw (← e) (Above-absent a m sm.0 ∙ sym (rw (← key) at (Above-absent b n sn.0)))
    | inr other ↦ rw (← key, other) at (same j)
  ]

  IsSorted-unique : (m n : Map K V) → IsSorted m → IsSorted n → SameLookups m n → m ≡ n
  IsSorted-unique [] [] sm sn same = refl
  IsSorted-unique [] ((b, w) ∷ n) sm sn same = absurd (ground (arith, same b, beq_self b))
  IsSorted-unique ((a, v) ∷ m) [] sm sn same = absurd (ground (arith, same a, beq_self a))
  IsSorted-unique ((a, v) ∷ m) ((b, w) ∷ n) sm sn same =
      let key : a ≡ b = (k.beq_iff a b).0 (same_head a b v w m n sm sn same) in
      let entry : v ≡ w = ground (arith, same b, key, beq_self b) in
      let tails : SameLookups m n = same_tails a b v w m n sm sn key same in
      let rest : m ≡ n = IsSorted-unique m n sm.1 sn.1 tails in rw (key, entry, rest) refl

  -- Sorting two maps without double keys and with the same lookups gives the same list.
  pub sort_by_key_unique :
      (m n : Map K V) → IsNodup m → IsNodup n → SameLookups m n → sort_by_key m ≡ sort_by_key n
  sort_by_key_unique m n hm hn same =
      IsSorted-unique (sort_by_key m) (sort_by_key n) (sort_by_key-IsSorted m hm)
        (sort_by_key-IsSorted n hn)
        (λ j. get-sort_by_key j m hm ∙ same j ∙ sym (get-sort_by_key j n hn))
