-- ===== src/Consensus/Ghostdag.antt =====
-- ghostdag.rs: the selected parent, the blue and red blocks and the scores of a new block. What a
-- node has recorded is a function from hashes, the `get_ghostdag` of the code. A `HashSet` is a list
-- without repetitions. In the release profile scores wrap.
pub mod Parents
pub mod Mergeset
pub mod Chain
use zentra_chain.Prelude.{
  ℕ, zero, suc, ◌+◌, ◌%◌, ◌^◌, Bool, not, ◌&&◌, Option, none, some, List, [], ◌∷◌, ltb, leb, ◌==◌,
  length, keep, contains, if◌then◌else◌,
}
use zentra_chain.Types.{Hash, zero_hash, ghostdag_k}

pub record GhostdagData : Type 0 where
  pub blue_score : ℕ
  pub blue_work : ℕ
  pub selected_parent : Hash
  pub mergeset_blues : List Hash
  pub mergeset_reds : List Hash

-- `GhostdagData::genesis`
abbrev pub genesis_data : GhostdagData
genesis_data = record {
  blue_score = 0;
  blue_work = 0;
  selected_parent = zero_hash;
  mergeset_blues = [];
  mergeset_reds = [];
}

abbrev pub Lookup : Type 0
Lookup = Hash → Option GhostdagData

-- `get_ghostdag(h).unwrap_or_else(GhostdagData::genesis)`
abbrev pub data_of : Lookup → Hash → GhostdagData
data_of g h = elim (g h) [ none ↦ genesis_data | some d ↦ d ]

-- `HashSet::insert`
abbrev pub set_insert : Hash → List Hash → List Hash
set_insert h s = if contains h s then s else h ∷ s

unfoldable pub insert_all : List Hash → List Hash → List Hash
insert_all [] s = s
insert_all (h ∷ hs) s = insert_all hs (set_insert h s)

module _ (g : Lookup) where
  abbrev pub score_of : Hash → ℕ
  score_of h = (data_of g h).blue_score

  -- `max_by_key`, which keeps the last of equal ones.
  unfoldable pub max_parent : Hash → List Hash → Hash
  max_parent best [] = best
  max_parent best (p ∷ ps) = max_parent (if leb (score_of best) (score_of p) then p else best) ps

  unfoldable pub select_parent : List Hash → Hash
  select_parent [] = zero_hash
  select_parent (p ∷ ps) = max_parent p ps

  -- The block's known past.
  abbrev pub past_of : Hash → List Hash
  past_of b =
      let d = data_of g b in
      insert_all d.mergeset_reds (insert_all d.mergeset_blues (set_insert d.selected_parent []))

  unfoldable pub estimate_anticone_size : Hash → List Hash → ℕ
  estimate_anticone_size b blue_set =
      length (keep (λ x. not (contains x (past_of b)) && not (x == b)) blue_set)

  -- The loop of `classify_mergeset`, with the sets that it builds.
  unfoldable pub classify_loop : ℕ → List Hash → List Hash → List Hash × List Hash
  classify_loop k [] blue_set = ([], [])
  classify_loop k (p ∷ ps) blue_set =
      let as_blue =
        classify_loop k ps (insert_all (data_of g p).mergeset_blues (set_insert p blue_set)) in
      let as_red = classify_loop k ps blue_set in
      if leb (estimate_anticone_size p blue_set) k
      then (p ∷ as_blue.0, as_blue.1)
      else (as_red.0, p ∷ as_red.1)

  unfoldable pub classify_mergeset : ℕ → List Hash → GhostdagData → List Hash × List Hash
  classify_mergeset k others selected =
      classify_loop k others
        (insert_all selected.mergeset_blues (set_insert selected.selected_parent []))

  -- The data of a block with at least one parent: lines 66 to 93.
  abbrev pub merge_parents : ℕ → List Hash → GhostdagData
  merge_parents k parents =
      let sp = select_parent parents in
      let selected = data_of g sp in
      let (blues, reds) = classify_mergeset k (keep (λ p. not (p == sp)) parents) selected in
      record {
        blue_score = (selected.blue_score + 1 + length blues) % 2 ^ 64;
        blue_work = (selected.blue_work + 1) % 2 ^ 128;
        selected_parent = sp;
        mergeset_blues = blues;
        mergeset_reds = reds;
      }

  unfoldable pub process_block : ℕ → List Hash → GhostdagData
  process_block k [] = genesis_data
  process_block k (p ∷ ps) = merge_parents k (p ∷ ps)

  -- The loop of `get_selected_chain` on fuel; `none` when the fuel runs out.
  unfoldable pub chain_from : ℕ → Hash → Option (List Hash)
  chain_from zero h = none
  chain_from (suc fuel) h =
      let rest = chain_from fuel (data_of g h).selected_parent in
      elim (g h) [
        | none ↦ some (h ∷ [])
        | some d ↦
            if d.selected_parent == zero_hash
            then some (h ∷ [])
            else elim rest [ none ↦ none | some hs ↦ some (h ∷ hs) ]
      ]

  -- A step of the chain lowers the blue score, so that one more round than the score is enough.
  unfoldable pub get_selected_chain : Hash → Option (List Hash)
  get_selected_chain tip = chain_from (score_of tip + 1) tip

-- `GhostdagManager::default_k`
abbrev pub default_process_block : Lookup → List Hash → GhostdagData
default_process_block g parents = process_block g ghostdag_k parents
