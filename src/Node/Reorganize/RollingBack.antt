-- ===== src/Node/Reorganize/RollingBack.antt =====
-- node.rs, `reorganize`: the first loop of its rollback, on sets with the same entries.
use zentra_chain.Prelude.{
  ◌∙◌, refl, sym, ap, Option, none, some, List, [], ◌∷◌, ◌==◌, length, if◌then◌else◌, Bool-cases,
  inl, inr,
}
use zentra_chain.Prelude.Map.{Map, get, nat_key}
use zentra_chain.Types.{Hash, NetworkType}
use zentra_chain.Core.Data.{Block, Crypto, out_point_key}
use zentra_chain.Core.Utxo.{UtxoSet, BlockUndoData, disconnect_block, undo_transactions}
use zentra_chain.Core.Utxo.Undo.{SameSet}
use zentra_chain.Core.Utxo.Merging.{
  listed, get-undo_transactions, burned-undo_transactions, get-remove_all,
}
use zentra_chain.Consensus.Emission.{EmissionSchedule}
use zentra_chain.Node.Reorganize.{Stores, roll_back, undone}

pub SameSet-refl : (s : UtxoSet) → SameSet s s
SameSet-refl s = record { same_utxos = λ k. refl; same_burned = refl }

module _ (c : Crypto) where
  -- Disconnecting a block from sets with the same entries gives sets with the same entries.
  pub disconnect_block-SameSet :
      (b : Block) (undo : BlockUndoData) (s n : UtxoSet)
      → SameSet s n
      → SameSet (disconnect_block c b undo s).1 (disconnect_block c b undo n).1
  unfolding disconnect_block
  disconnect_block-SameSet b undo s n same =
      elim (Bool-cases (length b.transactions == length undo.txs_undo)) [
        | inr odd ↦ rw odd same
        | inl even ↦ rw even record {
          same_utxos = λ k.
              get-remove_all k undo.merge_coinbases
                (undo_transactions c b.transactions undo.txs_undo s).utxos
              ∙ ap (λ r. if listed k undo.merge_coinbases then none else r)
                  (get-undo_transactions c k b.transactions undo.txs_undo s n (same.same_utxos k))
              ∙ sym (
                  get-remove_all k undo.merge_coinbases
                    (undo_transactions c b.transactions undo.txs_undo n).utxos);
          same_burned =
              burned-undo_transactions c b.transactions undo.txs_undo s n same.same_burned;
        }
      ]

module _ (c : Crypto) (network : NetworkType) (emission : EmissionSchedule) (st : Stores) where
  undone-SameSet :
      (o : Option BlockUndoData) (b : Option Block) (s n : UtxoSet)
      → SameSet s n
      → SameSet (undone c network emission st o b s) (undone c network emission st o b n)
  undone-SameSet none b s n same = same
  undone-SameSet (some undo) none s n same = same
  undone-SameSet (some undo) (some b) s n same = disconnect_block-SameSet c b undo s n same

  -- Rolling back from sets with the same entries, with the same undo records.
  pub roll_back-SameSet :
      (hs : List Hash) (s n : UtxoSet) (undos : Map Hash BlockUndoData)
      → SameSet s n
      → SameSet
          (roll_back c network emission st hs (record { utxo = s; undos = undos })).utxo
          (roll_back c network emission st hs (record { utxo = n; undos = undos })).utxo
  unfolding roll_back
  roll_back-SameSet [] s n undos same = same
  roll_back-SameSet (h ∷ hs) s n undos same =
      roll_back-SameSet hs (undone c network emission st (get h undos) (get h st.blocks) s)
        (undone c network emission st (get h undos) (get h st.blocks) n) undos
        (undone-SameSet (get h undos) (get h st.blocks) s n same)
