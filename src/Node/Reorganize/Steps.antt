-- ===== src/Node/Reorganize/Steps.antt =====
-- node.rs, `reorganize`: one block of its connecting loop.
use zentra_chain.Prelude.{
  ◌+◌, ◌≤◌, ◌≡◌, ◌≢◌, ◌∙◌, refl, ap, true, false, Option, none, some, List, [], ◌∷◌, ◌==◌, All,
  if◌then◌else◌, Bool-cases, inl, inr, ok, err, Result, is_ok, ◌++◌, arith,
}
use mathlib.Core.Logic.{◌⊎◌}
use zentra_chain.Prelude.Words.{u64_max}
use zentra_chain.Prelude.Map.{Map, get, insert, nat_key}
use zentra_chain.Prelude.Map.Laws.{get-insert}
use zentra_chain.Types.{Hash, NetworkType}
use zentra_chain.Core.Data.{Block, Transaction, Crypto, OutPoint, out_point_key}
use zentra_chain.Core.Utxo.{UtxoSet, Utxos, BlockUndoData, apply_block}
use zentra_chain.Core.Utxo.Undo.{AllFresh, IsFresh, burned_by}
use zentra_chain.Core.Utxo.Merging.{listed}
use zentra_chain.Core.Blocks.{hash}
use zentra_chain.Consensus.Ghostdag.{Lookup}
use zentra_chain.Consensus.Emission.{EmissionSchedule}
use zentra_chain.Node.Validate.{validate_block_transactions, BlockError}
use zentra_chain.Node.Validate.Soundness.{outputs_sum}
use zentra_chain.Node.Validate.NoInflation.{validate_no_inflation}
use zentra_chain.Node.Merges.{credit_merges, mergeset_blues_of, apply_block_with_merges}
use zentra_chain.Node.Reorganize.{
  Stores, connect_found, Chainstate, phase, connect_one, connect_loop,
}

-- No hash stands twice.
abbrev pub Distinct : List Hash → Type 0
Distinct [] = Unit {0}
Distinct (h ∷ hs) = All (λ x. x ≢ h) hs × Distinct hs

is_ok-tt : (r : Result BlockError (Unit {0})) → is_ok r ≡ true → r ≡ ok tt
is_ok-tt (ok u) h = refl
is_ok-tt (err e) h = cc

AllFresh-IsFresh :
    (c : Crypto) (txs : List Transaction) (m : Utxos)
    → AllFresh c txs m
    → All (λ tx. IsFresh c tx m) txs
AllFresh-IsFresh c [] m h = tt
AllFresh-IsFresh c (tx ∷ txs) m h = (h.0, AllFresh-IsFresh c txs m h.2)

-- A block that is applied is applied with its merges.
with_merges :
    (c : Crypto) (blocks : Map Hash Block) (g : Lookup) (b : Block) (undo : BlockUndoData)
    (s after : UtxoSet)
    → apply_block c b b.header.blue_score s ≡ (ok undo, after)
    → (undo' : BlockUndoData) × (u : UtxoSet) × (apply_block_with_merges c blocks g b s
        ≡ (ok undo', u))
unfolding apply_block_with_merges
with_merges c blocks g b undo s after applied =
    let (created, u) = credit_merges c blocks (mergeset_blues_of g (hash c b)) after in
    (record undo { merge_coinbases = undo.merge_coinbases ++ created }, u, ground (arith, applied))

module _ (c : Crypto) (network : NetworkType) (emission : EmissionSchedule) (st : Stores) where
  -- What is asked of a block and the set that it is connected to: the database takes its undo record
  -- (where it does not, the code leaves the block applied), its transactions have pairwise different
  -- ids, the set holds no entry of any index under these ids and none of the outpoints that its merges
  -- create, the outputs of each transaction come to a u64, and so do the burn counter and all the burns
  -- of the block together.
  pub record IsSafe (h : Hash) (b : Block) (s : UtxoSet) : Type 0 where
    pub stored : st.put_ok h ≡ true
    pub unused : AllFresh c b.transactions s.utxos
    pub in_range : All (λ tx. outputs_sum tx ≤ u64_max) b.transactions
    pub fits : s.total_burned + burned_by c b.transactions ≤ u64_max
    pub uncreated :
        (undo : BlockUndoData) (n : UtxoSet)
        → apply_block_with_merges c st.blocks st.ghostdag b s ≡ (ok undo, n)
        → (k : OutPoint) → listed k undo.merge_coinbases ≡ true
        → get k s.utxos ≡ none

  -- Every block that the loop comes to is safe where it comes to it.
  abbrev pub AllSafe : List Hash → Chainstate → Type 0
  AllSafe [] s = Unit {0}
  AllSafe (h ∷ hs) s =
      ((b : Block) → get h st.blocks ≡ some b → IsSafe h b s.utxo)
      × AllSafe hs (connect_one c network emission st h s).1

  -- A block that was connected: it is known, it was applied, and its undo record is stored.
  pub record Connected (h : Hash) (s s' : Chainstate) : Type 0 where
    pub block : Block
    pub undo : BlockUndoData
    pub known : get h st.blocks ≡ some block
    pub applied : apply_block_with_merges c st.blocks st.ghostdag block s.utxo ≡ (ok undo, s'.utxo)
    pub recorded : s'.undos ≡ insert h undo s.undos

  -- A safe block that passes validation is applied with its merges.
  validated-applied :
      (h : Hash) (b : Block) (s : UtxoSet)
      → IsSafe h b s
      → validate_block_transactions c network emission b s ≡ ok tt
      → (undo : BlockUndoData) × (u : UtxoSet) × (apply_block_with_merges c st.blocks st.ghostdag b
            s
          ≡ (ok undo, u))
  validated-applied h b s safe valid =
      let (undo, after, applied, worth) =
        validate_no_inflation c network emission b s
          (AllFresh-IsFresh c b.transactions s.utxos safe.unused) safe.in_range valid in
      with_merges c st.blocks st.ghostdag b undo s after applied

  -- A safe block that passes validation is connected; any other leaves the state as it is.
  connect_one-cases :
      (h : Hash) (o : Option Block) (s : Chainstate)
      → get h st.blocks ≡ o
      → ((b : Block) → o ≡ some b → IsSafe h b s.utxo)
      → (connect_found c network emission st h o s ≡ (false, s))
        ⊎ (((connect_found c network emission st h o s).0 ≡ true)
            × Connected h s (connect_found c network emission st h o s).1)
  connect_one-cases h none s found safe = inl refl
  connect_one-cases h (some b) s found safe =
      elim (Bool-cases (is_ok (validate_block_transactions c network emission b s.utxo))) [
        | inr invalid ↦ inl (rw invalid refl)
        | inl valid ↦
            let ready = safe b refl in
            let (undo, u, applied) = validated-applied h b s.utxo ready (is_ok-tt _ valid) in
            inr (
              rw (valid, applied, ready.stored)
                (
                  refl,
                  record {
                    block = b;
                    undo = undo;
                    known = found;
                    applied = applied;
                    recorded = refl;
                  },
                ))
      ]

  pub connect_loop-stops :
      (so_far hs : List Hash) (h : Hash) (s : Chainstate)
      → connect_one c network emission st h s ≡ (false, s)
      → connect_loop c network emission st so_far (h ∷ hs) s ≡ phase false so_far s
  unfolding connect_loop
  connect_loop-stops so_far hs h s e =
      let broke : (connect_one c network emission st h s).0 ≡ false = ap (λ x. x.0) e in
      rw (broke, connect_loop) (ap (λ x. phase false so_far x.1) e)

  pub connect_loop-goes :
      (so_far hs : List Hash) (h : Hash) (s : Chainstate)
      → (connect_one c network emission st h s).0 ≡ true
      → connect_loop c network emission st so_far (h ∷ hs) s
        ≡ connect_loop c network emission st
            (h ∷ so_far)
            hs
            (connect_one c network emission st h s).1
  unfolding connect_loop
  connect_loop-goes so_far hs h s e = rw (e, connect_loop) refl

  pub connect_one-step :
      (h : Hash) (s : Chainstate)
      → ((b : Block) → get h st.blocks ≡ some b → IsSafe h b s.utxo)
      → (connect_one c network emission st h s ≡ (false, s))
        ⊎ (((connect_one c network emission st h s).0 ≡ true)
            × Connected h s (connect_one c network emission st h s).1)
  unfolding connect_one
  connect_one-step h s safe = connect_one-cases h (get h st.blocks) s refl safe

  pub insert_other :
      (k h : Hash) (s s' : Chainstate) (undo : BlockUndoData)
      → s'.undos ≡ insert h undo s.undos
      → h ≢ k
      → get k s'.undos ≡ get k s.undos
  insert_other k h s s' undo e apart =
      let other : (h == k) ≡ false = ground arith in
      rw e (get-insert h k undo s.undos ∙ ap (λ b. if b then some undo else get k s.undos) other)
