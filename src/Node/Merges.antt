-- ===== src/Node/Merges.antt =====
-- node.rs: `apply_block_with_merges`, which applies a block of the selected chain and credits the
-- coinbase of every blue block that it merges, and `mergeset_blues_of`. The stores of GhostDAG data
-- and of blocks are arguments.
use zentra_chain.Prelude.{
  ◌+◌, ◌≤◌, ◌≡◌, refl, ◌∙◌, true, Option, none, some, List, [], ◌∷◌, ◌++◌, ok, err, ZentraResult,
  arith, Bool-cases, inl, inr,
}
use zentra_chain.Prelude.Words.{u64_max}
use zentra_chain.Prelude.Map.{Map, nat_key, get}
use zentra_chain.Types.{Hash}
use zentra_chain.Core.Data.{OutPoint, out_point_key, Block, Crypto}
use zentra_chain.Core.Blocks.{hash}
use zentra_chain.Core.Utxo.{
  UtxoSet, BlockUndoData, TxUndoData, apply_block, apply_transactions, apply_merge_coinbase,
  disconnect_block, undo_transactions, remove_all,
}
use zentra_chain.Core.Utxo.Undo.{SameSet, AllFresh, burned_by}
use zentra_chain.Core.Utxo.Rollback.{undo-apply_all, length-apply, blocks_undo}
use zentra_chain.Core.Utxo.Merging.{
  Extra, Extra-none, Extra-append, listed, apply_merge_coinbase-Extra, apply_merge_coinbase-burned,
  get-undo_transactions, burned-undo_transactions, get-remove_all,
}
use zentra_chain.Consensus.Ghostdag.{Lookup}

abbrev pub mergeset_blues_of : Lookup → Hash → List Hash
mergeset_blues_of g h = elim (g h) [ none ↦ [] | some d ↦ d.mergeset_blues ]

module _ (c : Crypto) (blocks : Map Hash Block) where
  abbrev credit : Option Block → UtxoSet → List OutPoint × UtxoSet
  credit none s = ([], s)
  credit (some mb) s = apply_merge_coinbase c mb mb.header.blue_score s

  -- The loop over the merged blue blocks, with the outpoints that it creates.
  unfoldable pub credit_merges : List Hash → UtxoSet → List OutPoint × UtxoSet
  credit_merges [] s = ([], s)
  credit_merges (h ∷ hs) s =
      let (created, s') = credit (get h blocks) s in
      let (later, s'') = credit_merges hs s' in (created ++ later, s'')

  unfoldable pub apply_block_with_merges :
      Lookup → Block → UtxoSet → ZentraResult BlockUndoData × UtxoSet
  apply_block_with_merges g b s =
      let (r, s') = apply_block c b b.header.blue_score s in
      elim r [
        | err e ↦ (err e, s')
        | ok undo ↦
            let (created, s'') = credit_merges (mergeset_blues_of g (hash c b)) s' in
            (ok (record undo { merge_coinbases = undo.merge_coinbases ++ created }), s'')
      ]

  credit-Extra :
      (o : Option Block) (s : UtxoSet) → Extra (credit o s).0 s.utxos (credit o s).1.utxos
  credit-Extra none s = Extra-none s.utxos
  credit-Extra (some mb) s = apply_merge_coinbase-Extra c mb mb.header.blue_score s

  credit-burned : (o : Option Block) (s : UtxoSet) → (credit o s).1.total_burned ≡ s.total_burned
  credit-burned none s = refl
  credit-burned (some mb) s = apply_merge_coinbase-burned c mb mb.header.blue_score s

  credit_merges-Extra :
      (hs : List Hash) (s : UtxoSet)
      → Extra (credit_merges hs s).0 s.utxos (credit_merges hs s).1.utxos
  unfolding credit_merges
  credit_merges-Extra [] s = Extra-none s.utxos
  credit_merges-Extra (h ∷ hs) s =
      let s' = (credit (get h blocks) s).1 in
      Extra-append (credit (get h blocks) s).0 (credit_merges hs s').0 s.utxos s'.utxos
        (credit_merges hs s').1.utxos (credit-Extra (get h blocks) s) (credit_merges-Extra hs s')

  credit_merges-burned :
      (hs : List Hash) (s : UtxoSet) → (credit_merges hs s).1.total_burned ≡ s.total_burned
  unfolding credit_merges
  credit_merges-burned [] s = refl
  credit_merges-burned (h ∷ hs) s =
      credit_merges-burned hs (credit (get h blocks) s).1 ∙ credit-burned (get h blocks) s

  -- What a successful run consists of.
  record Merged (g : Lookup) (b : Block) (undo : BlockUndoData) (s s' : UtxoSet) : Type 0 where
    txs_undo : List TxUndoData
    mid : UtxoSet
    ran : apply_transactions c b.transactions b.header.blue_score s ≡ (ok txs_undo, mid)
    same_txs : undo.txs_undo ≡ txs_undo
    same_created : undo.merge_coinbases ≡ (credit_merges (mergeset_blues_of g (hash c b)) mid).0
    same_after : s' ≡ (credit_merges (mergeset_blues_of g (hash c b)) mid).1

  Merged-from :
      (g : Lookup) (b : Block) (undo : BlockUndoData) (s s' : UtxoSet)
      (r : ZentraResult BlockUndoData)
      → (apply_block c b b.header.blue_score s).0 ≡ r
      → apply_block_with_merges g b s ≡ (ok undo, s')
      → Merged g b undo s s'
  unfolding apply_block_with_merges
  Merged-from g b undo s s' (err e) first h = absurd (ground arith)
  Merged-from g b undo s s' (ok u) first h =
      let mid = (apply_block c b b.header.blue_score s).1 in
      let whole : apply_block c b b.header.blue_score s ≡ (ok u, mid) = ground (arith, first) in
      let (ran, none_merged) = blocks_undo c b b.header.blue_score u s mid whole in
      record {
        txs_undo = u.txs_undo;
        mid = mid;
        ran = ran;
        same_txs = ground (arith, first);
        same_created = ground (arith, first, none_merged);
        same_after = ground (arith, first);
      }

  -- A block that was applied with its merges can be disconnected, and this gives the entries and the
  -- burn counter back, if the block's transactions have pairwise different ids, the set held no entry
  -- of any index under one of these ids and none of the outpoints that the merges created, and the
  -- counter and all the burns of the block together fit a u64.
  pub disconnect-apply_block_with_merges :
      (g : Lookup) (b : Block) (undo : BlockUndoData) (s s' : UtxoSet)
      → apply_block_with_merges g b s ≡ (ok undo, s')
      → AllFresh c b.transactions s.utxos
      → ((k : OutPoint) → listed k undo.merge_coinbases ≡ true → get k s.utxos ≡ none)
      → s.total_burned + burned_by c b.transactions ≤ u64_max
      → (n : UtxoSet) × (disconnect_block c b undo s' ≡ (ok tt, n)) × SameSet n s
  unfolding disconnect_block
  disconnect-apply_block_with_merges g b undo s s' h fresh uncreated fits =
      let m = Merged-from g b undo s s' (apply_block c b b.header.blue_score s).0 refl h in
      let hs = mergeset_blues_of g (hash c b) in
      let extra = credit_merges-Extra hs m.mid in
      let count = length-apply c b.transactions b.header.blue_score m.txs_undo s m.mid m.ran in
      let back =
        undo-apply_all c b.transactions b.header.blue_score m.txs_undo s m.mid m.ran fresh fits in
      let undone = undo_transactions c b.transactions undo.txs_undo s' in
      (
        record undone { utxos = remove_all undo.merge_coinbases undone.utxos },
        ground (arith, count, m.same_txs),
        record {
          same_utxos = λ k. elim (Bool-cases (listed k undo.merge_coinbases)) [
            | inl made ↦
                ground (
                  arith,
                  made,
                  uncreated k made,
                  get-remove_all k undo.merge_coinbases undone.utxos,
                )
            | inr other ↦
                let apart : get k s'.utxos ≡ get k m.mid.utxos =
                  rw m.same_after (extra.outside k (rw m.same_created at other)) in
                ground (
                  arith,
                  other,
                  m.same_txs,
                  get-remove_all k undo.merge_coinbases undone.utxos,
                  get-undo_transactions c k b.transactions m.txs_undo s' m.mid apart,
                  back.same_utxos k,
                )
          ];
          same_burned = ground (
            arith,
            m.same_txs,
            back.same_burned,
            burned-undo_transactions c b.transactions m.txs_undo s' m.mid
                (rw m.same_after (credit_merges-burned hs m.mid)),
          );
        },
      )
