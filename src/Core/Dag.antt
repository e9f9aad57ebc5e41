-- ===== src/Core/Dag.antt =====
-- dag.rs: the graph of blocks. The database is what it holds, without its failures; `saved_tips` is
-- its metadata entry `dag_tips`. The caches, which repeat the database, are left out, and so are log
-- lines.
pub mod Tips
pub mod Frontier
use zentra_chain.Prelude.{
  ℕ, zero, suc, Bool, true, false, not, ◌||◌, ◌&&◌, Option, none, some, List, [], ◌∷◌, ◌++◌, ltb,
  ◌==◌, length, keep, any, contains, if◌then◌else◌,
}
use zentra_chain.Prelude.Map.{Map, nat_key, get, insert, contains_key}
use zentra_chain.Types.{Hash, NetworkType}
use zentra_chain.Core.Data.{Header, Block, Crypto}
use zentra_chain.Core.Blocks
use zentra_chain.Core.Blocks.{hash}

pub record DagGraph : Type 0 where
  pub blocks : Map Hash Block
  pub children : Map Hash (List Hash)
  pub tips : List Hash
  pub saved_tips : Option (List Hash)

-- `DagGraph::new`
abbrev pub empty_dag : DagGraph
empty_dag = record { blocks = []; children = []; tips = []; saved_tips = none }

abbrev pub get_block : Hash → DagGraph → Option Block
get_block h d = get h d.blocks

abbrev pub get_header : Hash → DagGraph → Option Header
get_header h d = elim (get h d.blocks) [ none ↦ none | some b ↦ some b.header ]

abbrev pub get_parents : Hash → DagGraph → List Hash
get_parents h d = elim (get h d.blocks) [ none ↦ [] | some b ↦ b.header.parents ]

abbrev pub get_children : Hash → DagGraph → List Hash
get_children h d = elim (get h d.children) [ none ↦ [] | some hs ↦ hs ]

unfoldable pub add_child_relation : Hash → Hash → DagGraph → DagGraph
add_child_relation parent child d =
    let hs = get_children parent d in
    if contains child hs
    then d
    else record d { children = insert parent (hs ++ child ∷ []) d.children }

unfoldable pub add_child_relations : List Hash → Hash → DagGraph → DagGraph
add_child_relations [] child d = d
add_child_relations (p ∷ ps) child d = add_child_relations ps child (add_child_relation p child d)

unfoldable pub insert_block : Crypto → Block → DagGraph → DagGraph
insert_block c b d =
    let h = hash c b in
    let linked =
      add_child_relations b.header.parents h (record d { blocks = insert h b d.blocks }) in
    let tips = keep (λ tip. not (contains tip b.header.parents)) d.tips ++ h ∷ [] in
    record linked { tips = tips; saved_tips = some tips }

-- A candidate for the selected tip: (blue_score, blue_work, hash).
pub record Candidate : Type 0 where
  pub score : ℕ
  pub work : ℕ
  pub id : Hash

-- Lines 140 to 144.
abbrev pub better : Candidate → Option Candidate → Bool
better x none = true
better x (some b) =
    ltb b.score x.score
    || ((x.score == b.score) && ltb b.work x.work)
    || ((x.score == b.score) && (x.work == b.work) && ltb x.id b.id)

abbrev pub candidate : Hash → Header → Candidate
candidate h hd = record { score = hd.blue_score; work = hd.blue_work; id = h }

unfoldable pub best_tip : DagGraph → List Hash → Option Candidate → Option Candidate
best_tip d [] best = best
best_tip d (t ∷ ts) best = best_tip d ts (elim (get_header t d) [
  | none ↦ best
  | some hd ↦ if better (candidate t hd) best then some (candidate t hd) else best
])

unfoldable pub get_selected_tip : DagGraph → Option Hash
get_selected_tip d = elim (best_tip d d.tips none) [ none ↦ none | some b ↦ some b.id ]

-- A graph opened on the database of an earlier one: `DagGraph::new` starts without tips.
abbrev pub reopen : DagGraph → DagGraph
reopen d = record d { tips = [] }

-- Lines 193 to 213.
abbrev pub restore_tips : Hash → DagGraph → DagGraph
restore_tips h d = elim d.saved_tips [
  | none ↦ if length d.tips == 0 then record d { tips = h ∷ [] } else d
  | some ts ↦
      if length ts == 0
      then (if length d.tips == 0 then record d { tips = h ∷ [] } else d)
      else record d { tips = ts }
]

unfoldable pub init_genesis : Crypto → NetworkType → DagGraph → Hash × DagGraph
init_genesis c network d =
    let g = Blocks.genesis c network in
    let h = hash c g in
    (h, if contains_key h d.blocks then restore_tips h d else insert_block c g d)
