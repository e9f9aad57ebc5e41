-- ===== src/Node/Reorganize/Connecting.antt =====
-- node.rs, `reorganize` where the new chain extends the old one and a block cannot be connected.
use zentra_chain.Prelude.{List}
use zentra_chain.Prelude.Map.{Map, nat_key}
use zentra_chain.Types.{Hash, NetworkType}
use zentra_chain.Core.Data.{Crypto, out_point_key}
use zentra_chain.Core.Utxo.{UtxoSet}
use zentra_chain.Core.Utxo.Undo.{SameSet}
use zentra_chain.Consensus.Emission.{EmissionSchedule}
use zentra_chain.Node.Reorganize.{Stores, Phase, roll_back}

module _ (c : Crypto) (network : NetworkType) (emission : EmissionSchedule) (st : Stores) where
  -- Rolling back from where a phase came to gives what rolling back its beginning gives.
  abbrev RollsBack : List Hash → UtxoSet → Phase → Type 0
  RollsBack so_far u p =
      SameSet (roll_back c network emission st p.so_far p.state).utxo
        (roll_back c network emission st so_far (record { utxo = u; undos = p.state.undos })).utxo
