-- ===== src/Tests/Reorg.antt =====
-- A run of `reorganize` whose second block is missing, and the witness of its result.
use zentra_chain.Prelude.Words
use zentra_chain.Consensus.Emission
use zentra_chain.Core.Merkle
use zentra_chain.Core.Blocks
use zentra_chain.Node.Validate
use zentra_chain.Node.Merges
use zentra_chain.Core.Tx
use zentra_chain.Core.Utxo
use zentra_chain.Node.Reorganize
use zentra_chain.Prelude.{◌≡◌, refl, true, none, some, List, [], ◌∷◌}
use zentra_chain.Prelude.Map.{nat_key}
use zentra_chain.Types.{Hash}
use zentra_chain.Core.Data.{out_point_key}
use zentra_chain.Node.Reorganize.{Stores, Chainstate, to_connect, selected_chain, reorganize}
use zentra_chain.Tests.Data.{sample_block, before_block}

abbrev stores : Stores
stores = record { blocks = (10, sample_block) ∷ []; ghostdag = λ h. none; put_ok = λ h. true }

abbrev at_nine : Chainstate
at_nine = record { utxo = before_block; undos = [] }

abbrev old_chain : List Hash
old_chain = 9 ∷ []

-- The block 99 is not known.
abbrev new_chain : List Hash
new_chain = 99 ∷ 10 ∷ 9 ∷ []

oldest_first : to_connect old_chain new_chain ≡ 10 ∷ 99 ∷ []
unfolding to_connect Reorganize.before
oldest_first = refl

-- The walk of an unknown tip breaks off after the tip.
unknown_tip : selected_chain stores 5 99 ≡ some (99 ∷ [])
unfolding selected_chain Reorganize.chain_next
unknown_tip = refl

known_tip : selected_chain stores 5 10 ≡ some (10 ∷ 9 ∷ [])
unfolding selected_chain Reorganize.chain_next
known_tip = refl
