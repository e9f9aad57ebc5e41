-- ===== src/Finance/Vault/Signers.antt =====
-- vault.rs: the signatures of `validate_ingest`.
use zentra_chain.Prelude.{
  bytes_eq, ℕ, zero, suc, ◌%◌, ◌≤◌, ◌<◌, ◌≡◌, refl, ap, true, false, not, none, some, List, [], ◌∷◌,
  ◌++◌, reverse, ltb, length, get_elem?, set, any, All, ok, ok_or, >>=-eq-ok, fail_if-ok,
  ZentraError, arith,
}
use zentra_chain.Core.Tx.{to_le_bytes}
use zentra_chain.Finance.Pol.{
  ProtocolOwnedLiquidity, IngestResult, process_cross_chain_ingest,
  process_cross_chain_ingest-total,
}
use zentra_chain.Finance.Tss.{Ed25519, TssManager, partial_ok, identify_abort}
use zentra_chain.Finance.Vault.{
  IngestStatus, IngestRequest, MintResult, OmniVault, status_eq, submit_ingest, validate_ingest,
  build_ingest_message, mint_zusd, book,
}
use zentra_chain.Finance.Vault.Backing.{ok_or-some}

module _ (e : Ed25519) where
  identify_abort-none :
      (m : TssManager) (sigs : List (ℕ × List ℕ)) (message : List ℕ)
      → identify_abort e m sigs message ≡ none
      → All (λ s. partial_ok e m message s ≡ true) sigs
  unfolding identify_abort
  identify_abort-none m [] message h = tt
  identify_abort-none m (s ∷ sigs) message h =
      let good : partial_ok e m message s ≡ true = ground (arith, h) in
      (good, identify_abort-none m sigs message (ground (arith, h, good)))

  -- A validated request was pending, and it is the only one that changes: it becomes validated. Every
  -- signature that was handed in is valid for the request's message, and they are at least as many
  -- as the threshold.
  pub validate_ingest-signed :
      (index : ℕ) (sigs : List (ℕ × List ℕ)) (v v' : OmniVault)
      → validate_ingest e index sigs v ≡ ok v'
      → (r : IngestRequest) × (get_elem? v.pending_ingests index ≡ some r)
        × (r.status ≡ IngestStatus.pending)
        × (v.tss.threshold ≤ length sigs)
        × (All (λ s. partial_ok e v.tss (build_ingest_message r) s ≡ true) sigs)
        × (v' ≡ record v {
          pending_ingests =
              set v.pending_ingests index (record r { status = IngestStatus.validated });
        })
  unfolding validate_ingest
  validate_ingest-signed index sigs v v' h =
      let (r, found, h1) =
        >>=-eq-ok (ok_or (get_elem? v.pending_ingests index) ZentraError.transaction_validation) _
          h in
      let (is_pending, h2) =
        fail_if-ok (not (status_eq r.status IngestStatus.pending))
          ZentraError.transaction_validation _ h1 in
      let (enough, h3) =
        fail_if-ok (ltb (length sigs % 65_536) v.tss.threshold) ZentraError.tss_error _ h2 in
      let clean : identify_abort e v.tss sigs (build_ingest_message r) ≡ none =
        ground (arith, h3) in
      (
        r,
        ok_or-some (get_elem? v.pending_ingests index) ZentraError.transaction_validation found,
        ground (arith, is_pending),
        ground (arith, enough),
        identify_abort-none v.tss sigs (build_ingest_message r) clean,
        ground (arith, h3, clean),
      )

  abbrev pub repeat : ℕ → ℕ × List ℕ → List (ℕ × List ℕ)
  repeat zero s = []
  repeat (suc n) s = s ∷ repeat n s

  length-repeat : (n : ℕ) (s : ℕ × List ℕ) → length (repeat n s) ≡ n
  length-repeat zero s = refl
  length-repeat (suc n) s = ap suc (length-repeat n s)

  identify_abort-repeat :
      (m : TssManager) (n : ℕ) (s : ℕ × List ℕ) (message : List ℕ)
      → partial_ok e m message s ≡ true
      → identify_abort e m (repeat n s) message ≡ none
  unfolding identify_abort
  identify_abort-repeat m zero s message h = refl
  identify_abort-repeat m (suc n) s message h = rw h (identify_abort-repeat m n s message h)

  -- One validator is enough: its one valid signature, handed in as often as the u16 threshold says,
  -- validates a pending request.
  pub validate_ingest-one_signer :
      (index : ℕ) (r : IngestRequest) (s : ℕ × List ℕ) (v : OmniVault)
      → get_elem? v.pending_ingests index ≡ some r
      → r.status ≡ IngestStatus.pending
      → v.tss.threshold < 65_536
      → partial_ok e v.tss (build_ingest_message r) s ≡ true
      → validate_ingest e index (repeat v.tss.threshold s) v
        ≡ ok (record v {
          pending_ingests =
              set v.pending_ingests index (record r { status = IngestStatus.validated });
        })
  unfolding validate_ingest
  validate_ingest-one_signer index r s v at_index is_pending word good = ground (
    arith,
    at_index,
    is_pending,
    length-repeat v.tss.threshold s,
    identify_abort-repeat v.tss v.tss.threshold s (build_ingest_message r) good,
  )

-- The chain's name and the transaction hash are not told apart in the signed message: moving a byte
-- from the one to the other gives another request with the same message.
pub build_ingest_message-shift :
    (chain hash : List ℕ) (x : ℕ) (r : IngestRequest)
    → build_ingest_message (record r { external_chain = chain ++ x ∷ []; external_tx_hash = hash })
      ≡ build_ingest_message (record r { external_chain = chain; external_tx_hash = x ∷ hash })
unfolding build_ingest_message
build_ingest_message-shift chain hash x r =
    ap
      (λ t.
        t
        ++ reverse (to_le_bytes 32 r.depositor_address.payload)
        ++ to_le_bytes 16 r.stablecoin_amount)
      (shift chain hash)
  where
    shift : (xs ys : List ℕ) → (xs ++ x ∷ []) ++ ys ≡ xs ++ x ∷ ys
    shift [] ys = refl
    shift (y ∷ xs) ys = ap (λ t. y ∷ t) (shift xs ys)

get_elem?-end :
    (xs : List IngestRequest) (r : IngestRequest) → get_elem? (xs ++ r ∷ []) (length xs) ≡ some r
get_elem?-end [] r = refl
get_elem?-end (x ∷ xs) r = get_elem?-end xs r

mint_validated :
    (index : ℕ) (r : IngestRequest) (v : OmniVault) (res : IngestResult)
    (pol : ProtocolOwnedLiquidity)
    → get_elem? v.pending_ingests index ≡ some r
    → r.status ≡ IngestStatus.validated
    → process_cross_chain_ingest r.stablecoin_amount v.pol ≡ some (res, pol)
    → mint_zusd index v ≡ some (ok (book index r v res pol))
unfolding mint_zusd
mint_validated index r v res pol at_index ready ran = ground (arith, at_index, ready, ran)

-- A new request that is submitted with the status `validated`, a positive amount and a hash that no
-- earlier request has is accepted, and can be minted at once, without a signature.
pub mint-submit_unsigned :
    (r : IngestRequest) (v : OmniVault)
    → 0 < r.stablecoin_amount
    → r.status ≡ IngestStatus.validated
    → any (λ x. bytes_eq x.external_tx_hash r.external_tx_hash) v.pending_ingests ≡ false
    → (v1 : OmniVault) × (v2 : OmniVault) × (m : MintResult) × (submit_ingest r v ≡ ok v1)
      × (mint_zusd (length v.pending_ingests) v1 ≡ some (ok (m, v2)))
unfolding submit_ingest
mint-submit_unsigned r v pos ready fresh =
    let v1 : OmniVault = record v { pending_ingests = v.pending_ingests ++ r ∷ [] } in
    let index = length v.pending_ingests in
    let (res, pol, ran, small) = process_cross_chain_ingest-total r.stablecoin_amount v.pol in
    (
      v1,
      (book index r v1 res pol).1,
      (book index r v1 res pol).0,
      ground (arith, pos, fresh),
      mint_validated index r v1 res pol (get_elem?-end v.pending_ingests r) ready ran,
    )
