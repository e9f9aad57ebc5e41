-- ===== src/Core/Dag/Frontier.antt =====
-- dag.rs: the tips against the blocks without a child, and the tips after a restart.
use zentra_chain.Prelude.{
  ◌≡◌, refl, Bool, true, false, not, ◌||◌, ◌&&◌, List, [], ◌∷◌, ◌==◌, ==_iff, keep, contains,
  contains-append, contains-keep, arith, Bool-cases, inl, inr, length-append,
}
use zentra_chain.Prelude.Map.{Map, nat_key, insert, remove, contains_key}
use zentra_chain.Prelude.Map.Laws.{remove_absent}
use zentra_chain.Types.{Hash, NetworkType}
use zentra_chain.Core.Data.{Block, Crypto}
use zentra_chain.Core.Blocks
use zentra_chain.Core.Blocks.{hash}
use zentra_chain.Core.Dag.{
  DagGraph, add_child_relation, add_child_relations, insert_block, empty_dag, reopen, init_genesis,
}

-- Some block of the map names the hash as a parent.
abbrev pub is_parent : Hash → Map Hash Block → Bool
is_parent h [] = false
is_parent h ((_, b) ∷ m) = contains h b.header.parents || is_parent h m

-- The parents of every block are there, the tips are the blocks that are no parents, and the saved
-- tips are the tips.
pub record IsFrontier (d : DagGraph) : Type 0 where
  pub closed : (h : Hash) → is_parent h d.blocks ≡ true → contains_key h d.blocks ≡ true
  pub frontier :
      (h : Hash) → contains h d.tips ≡ (contains_key h d.blocks && not (is_parent h d.blocks))

add_child_relations-blocks :
    (ps : List Hash) (child : Hash) (d : DagGraph)
    → (add_child_relations ps child d).blocks ≡ d.blocks
unfolding add_child_relations add_child_relation
add_child_relations-blocks [] child d = refl
add_child_relations-blocks (p ∷ ps) child d =
    ground (arith, add_child_relations-blocks ps child (add_child_relation p child d))

-- Inserting a new block whose parents are all in the graph keeps the tips right.
pub insert_block-IsFrontier :
    (c : Crypto) (b : Block) (d : DagGraph)
    → contains_key (hash c b) d.blocks ≡ false
    → ((p : Hash) → contains p b.header.parents ≡ true → contains_key p d.blocks ≡ true)
    → IsFrontier d
    → IsFrontier (insert_block c b d)
unfolding insert_block
insert_block-IsFrontier c b d fresh parents v =
    let h = hash c b in
    let d1 : DagGraph = record d { blocks = insert h b d.blocks } in
    let blocks = add_child_relations-blocks b.header.parents h d1 in
    let gone : remove h d.blocks ≡ d.blocks = remove_absent h d.blocks (ground (arith, fresh)) in
    record {
      closed = λ x.
          rw (blocks, gone)
            (λ k.
              ground (
                arith,
                k,
                parents x,
                v.closed x,
                remove_absent h d.blocks (ground (arith, fresh)),
              ));
      frontier = λ x.
          rw (blocks, gone)
            (elim (Bool-cases (h == x)) [
              | inl same ↦
                  let e : h ≡ x = (==_iff h x).0 same in
                  ground (
                    arith,
                    same,
                    rw e at fresh,
                    v.closed x,
                    parents x,
                    v.frontier x,
                    contains-append x (keep (λ tip. not (contains tip b.header.parents)) d.tips)
                        (h ∷ []),
                    contains-keep x (λ tip. not (contains tip b.header.parents)) d.tips,
                  )
              | inr other ↦ ground (
                arith,
                other,
                v.frontier x,
                contains-append x (keep (λ tip. not (contains tip b.header.parents)) d.tips)
                    (h ∷ []),
                contains-keep x (λ tip. not (contains tip b.header.parents)) d.tips,
              )
            ]);
    }

-- The graphs that grow from the genesis block by blocks that are new and whose parents are there. `insert_block`
-- checks neither; `accept_external_block` of node.rs looks for both before it connects a block.
pub data Grown (c : Crypto) (network : NetworkType) : DagGraph → Type 0 where
  start : Grown c network (init_genesis c network empty_dag).1
  next :
      {d : DagGraph} (b : Block)
      → Grown c network d
      → contains_key (hash c b) d.blocks ≡ false
      → ((p : Hash) → contains p b.header.parents ≡ true → contains_key p d.blocks ≡ true)
      → Grown c network (insert_block c b d)

-- In every graph that grows from the genesis block by insertions of blocks that are not in it yet and
-- whose parents are all in it, neither of which `insert_block` checks, the parents of every block are
-- there, and the tips are exactly the blocks that are no block's parent.
pub Grown-IsFrontier :
    (c : Crypto) (network : NetworkType) (d : DagGraph) → Grown c network d → IsFrontier d
unfolding init_genesis Blocks.genesis Blocks.genesis_header
Grown-IsFrontier c network _ start =
    insert_block-IsFrontier c (Blocks.genesis c network) empty_dag refl (λ p h. cc)
      (record { closed = λ h k. cc; frontier = λ h. refl })
Grown-IsFrontier c network _ (next {d} b before fresh parents) =
    insert_block-IsFrontier c b d fresh parents (Grown-IsFrontier c network d before)

-- A graph that holds the genesis block and was last changed by an insertion is the same after its
-- database is closed, opened again and initialised.
pub init_genesis-reopen :
    (c : Crypto) (network : NetworkType) (b : Block) (d : DagGraph)
    → contains_key (hash c (Blocks.genesis c network)) (insert_block c b d).blocks ≡ true
    → (init_genesis c network (reopen (insert_block c b d))).1 ≡ insert_block c b d
unfolding init_genesis insert_block
init_genesis-reopen c network b d known = ground (
  arith,
  known,
  length-append (keep (λ tip. not (contains tip b.header.parents)) d.tips) (hash c b ∷ []),
)
