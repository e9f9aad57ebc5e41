-- ===== src/Tests/Graph.antt =====
-- Runs and witnesses of the block graph and of GhostDAG.
use zentra_chain.Consensus.Ghostdag
use zentra_chain.Core.Blocks
use zentra_chain.Core.Dag
use zentra_chain.Prelude.{
  ◌+◌, ◌≤◌, ◌<◌, ◌≡◌, refl, true, false, none, some, List, [], ◌∷◌, ◌==◌, ◌||◌, contains, count,
  length, if◌then◌else◌, arith,
}
use zentra_chain.Prelude.Map.{nat_key, contains_key}
use zentra_chain.Core.Blocks.{hash, genesis}
use zentra_chain.Types.{Hash, NetworkType}
use zentra_chain.Core.Data.{Block}
use zentra_chain.Tests.Data.{toy, sample_block, block_header}
use zentra_chain.Core.Dag.{
  DagGraph, empty_dag, get_header, get_selected_tip, init_genesis, insert_block, reopen,
}
use zentra_chain.Core.Dag.Tips
use zentra_chain.Core.Dag.Frontier
use zentra_chain.Core.Dag.Frontier.{Grown, IsFrontier}
use zentra_chain.Consensus.Ghostdag.{
  Lookup, GhostdagData, process_block, get_selected_chain, score_of, select_parent,
}
use zentra_chain.Consensus.Ghostdag.Mergeset
use zentra_chain.Consensus.Ghostdag.Chain
use zentra_chain.Consensus.Ghostdag.Chain.{IsChain, IsRising}

abbrev two_tips : List Hash → DagGraph
two_tips ts = record {
  blocks =
      (21, record { header = block_header; transactions = [] })
      ∷ (22, record { header = block_header; transactions = [] })
      ∷ [];
  children = [];
  tips = ts;
  saved_tips = none;
}

same_members : (h : Hash) → contains h (21 ∷ 22 ∷ []) ≡ contains h (22 ∷ 21 ∷ [])
same_members h = ground arith

get_selected_tip_order_example :
    get_selected_tip (two_tips (21 ∷ 22 ∷ [])) ≡ get_selected_tip (two_tips (22 ∷ 21 ∷ []))
get_selected_tip_order_example =
    Tips.get_selected_tip_order (two_tips (21 ∷ 22 ∷ [])) (two_tips (22 ∷ 21 ∷ [])) (λ h. refl)
      same_members

abbrev started : DagGraph
started = (init_genesis toy NetworkType.devnet empty_dag).1

-- A block on the genesis block, and the graph that it is inserted into.
abbrev second_block : Block
second_block = record { header = record block_header { parents = 0 ∷ [] }; transactions = [] }

second_is_new : contains_key (hash toy second_block) started.blocks ≡ false
unfolding insert_block Dag.add_child_relations Dag.add_child_relation init_genesis genesis
    Blocks.genesis_header hash
second_is_new = refl

second_has_parent :
    (p : Hash)
    → contains p second_block.header.parents ≡ true
    → contains_key p started.blocks ≡ true
unfolding insert_block Dag.add_child_relations Dag.add_child_relation init_genesis genesis
    Blocks.genesis_header hash
second_has_parent p h = ground (arith, h)

Grown-IsFrontier_example : IsFrontier (insert_block toy second_block started)
Grown-IsFrontier_example =
    Frontier.Grown-IsFrontier toy NetworkType.devnet (insert_block toy second_block started)
      (Grown.next second_block Grown.start second_is_new second_has_parent)

knows_genesis :
    contains_key
      (hash toy (genesis toy NetworkType.devnet))
      (insert_block toy sample_block started).blocks
    ≡ true
unfolding insert_block Dag.add_child_relations Dag.add_child_relation init_genesis genesis
    Blocks.genesis_header hash
knows_genesis = refl

init_genesis-reopen_example :
    (init_genesis toy NetworkType.devnet (reopen (insert_block toy sample_block started))).1
    ≡ insert_block toy sample_block started
init_genesis-reopen_example =
    Frontier.init_genesis-reopen toy NetworkType.devnet sample_block started knows_genesis

-- Two blocks on the genesis block 1.
abbrev fork : Lookup
fork h =
    if (h == 2) || (h == 3)
    then some (record {
      blue_score = 1;
      blue_work = 1;
      selected_parent = 1;
      mergeset_blues = [];
      mergeset_reds = [];
    })
    else none

process_block-score_example :
    (score_of fork 2 < (process_block fork 18 (2 ∷ 3 ∷ [])).blue_score)
    × (contains (process_block fork 18 (2 ∷ 3 ∷ [])).selected_parent (2 ∷ 3 ∷ []) ≡ true)
    × (score_of fork 2 ≤ score_of fork (process_block fork 18 (2 ∷ 3 ∷ [])).selected_parent)
    × ((process_block fork 18 (2 ∷ 3 ∷ [])).blue_score
        ≤ score_of fork (process_block fork 18 (2 ∷ 3 ∷ [])).selected_parent + 1 + 1)
unfolding select_parent Ghostdag.max_parent
process_block-score_example = Mergeset.process_block-score fork 18 2 (3 ∷ []) 2 refl (omega arith)

process_block-partition_example :
    count 2 (process_block fork 18 (2 ∷ 3 ∷ [])).mergeset_blues
      + count 2 (process_block fork 18 (2 ∷ 3 ∷ [])).mergeset_reds
    ≡ (if 2 == select_parent fork (2 ∷ 3 ∷ []) then 0 else count 2 (2 ∷ 3 ∷ []))
process_block-partition_example = Mergeset.process_block-partition fork 18 2 (3 ∷ []) 2

fork-IsRising : IsRising fork
fork-IsRising h d known other = ground (arith, known)

get_selected_chain-IsChain_example :
    (hs : List Hash) × (get_selected_chain fork 2 ≡ some hs)
    × IsChain fork 2 hs
    × (length hs ≤ score_of fork 2 + 1)
get_selected_chain-IsChain_example = Chain.get_selected_chain-IsChain fork 2 fork-IsRising
