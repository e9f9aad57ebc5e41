-- ===== src/Consensus/Validator/Signed.antt =====
-- validator.rs: what a block that passes holds.
use zentra_chain.Prelude.{
  ℕ, ◌+◌, ◌≤◌, ◌≡◌, Bool, true, false, not, List, [], ◌∷◌, keep, length, ltb, All, ZentraError,
  ZentraResult, ok, fail_if, ◌>>◌, >>=-eq-ok, fail_if-ok, arith,
}
use zentra_chain.Prelude.Words.{u64_max, saturating_add-le}
use zentra_chain.Types.{max_txs_per_block, max_block_size}
use zentra_chain.Core.Data.{Transaction, Header, Block, Crypto}
use zentra_chain.Core.Tx.{is_coinbase, total_output_amount, validate_basic, verify_signatures}
use zentra_chain.Core.Blocks.{
  validate_block_basic, validate_header_basic, validate_merkle_root, validate_each, size_bytes,
}
use zentra_chain.Consensus.Emission.{EmissionSchedule, block_reward}
use zentra_chain.Consensus.Lanes.{verify_block_pow, pow_meets_target, target_of}
use zentra_chain.Consensus.Validator.{
  fold_fees, check_coinbase, validate_transaction, validate_transactions, validate_after_coinbase,
  validate_block,
}

-- A transaction that is no coinbase, with the signature of every input verified.
abbrev pub IsSigned : Crypto → Transaction → Type 0
IsSigned c tx = (is_coinbase tx ≡ false) × (verify_signatures c tx ≡ ok tt)

-- A guard, a step and two guards that let a run through.
last_guards :
    (few small rooted first single : Bool) (e1 e2 e3 e4 e5 : ZentraError)
    (each : ZentraResult (Unit {0}))
    → (fail_if few e1
        >> (fail_if small e2
            >> (fail_if rooted e3 >> (each >> (fail_if first e4 >> (fail_if single e5 >> ok tt))))))
      ≡ ok tt
    → (first ≡ false) × (single ≡ false)
last_guards few small rooted first single e1 e2 e3 e4 e5 each h =
    let (a, h1) = fail_if-ok few e1 _ h in
    let (b, h2) = fail_if-ok small e2 _ h1 in
    let (d, h3) = fail_if-ok rooted e3 _ h2 in
    let (v, ran, h4) = >>=-eq-ok each _ h3 in
    let (no_first, h5) = fail_if-ok first e4 _ h4 in
    let (no_single, h6) = fail_if-ok single e5 _ h5 in (no_first, no_single)

-- The first transaction is a coinbase and no other is.
one_coinbase :
    (c : Crypto) (header : Header) (coinbase : Transaction) (txs : List Transaction)
    → validate_block_basic c (record { header = header; transactions = coinbase ∷ txs }) ≡ ok tt
    → (is_coinbase coinbase ≡ true) × (length (keep is_coinbase txs) ≡ 0)
unfolding validate_block_basic
one_coinbase c header coinbase txs h =
    let (v, basic, h1) = >>=-eq-ok (validate_header_basic header) _ h in
    let (first, single) =
      last_guards (ltb max_txs_per_block (length (coinbase ∷ txs)))
        (ltb max_block_size
          (size_bytes c (record { header = header; transactions = coinbase ∷ txs })))
        (not (validate_merkle_root c (record { header = header; transactions = coinbase ∷ txs })))
        (not (is_coinbase coinbase)) (ltb 1 (length (keep is_coinbase (coinbase ∷ txs))))
        ZentraError.too_many_transactions ZentraError.block_too_large
        ZentraError.invalid_merkle_root ZentraError.block_validation ZentraError.block_validation
        (validate_each (coinbase ∷ txs)) h1 in
    (ground (arith, first), ground (arith, first, single))

transactions-IsSigned :
    (c : Crypto) (txs : List Transaction)
    → length (keep is_coinbase txs) ≡ 0
    → validate_transactions c txs ≡ ok tt
    → All (IsSigned c) txs
unfolding validate_transactions validate_transaction
transactions-IsSigned c [] none h = tt
transactions-IsSigned c (tx ∷ txs) none h =
    let plain : is_coinbase tx ≡ false = ground (arith, none) in
    let (v, one, rest) = >>=-eq-ok (validate_transaction c tx) _ h in
    let (v', basic, signed) = >>=-eq-ok (validate_basic tx) _ one in
    (
      (plain, ground (arith, plain, signed)),
      transactions-IsSigned c txs (ground (arith, none, plain)) rest,
    )

-- A block with at least one transaction that `validate_block` accepts begins with a coinbase whose
-- outputs come to no more than the reward and the burned fees of the others, every other transaction is
-- no coinbase and has verified signatures, and the header's work meets the target of its bits. Nothing
-- is said of a block without transactions.
pub validate_block-IsSigned :
    (c : Crypto) (sha256 : List ℕ → List ℕ) (header : Header) (coinbase : Transaction)
    (txs : List Transaction) (emission : EmissionSchedule) (height : ℕ)
    (accepted : validate_block c sha256
        (record { header = header; transactions = coinbase ∷ txs })
        emission
        height
      ≡ ok tt)
    → (is_coinbase coinbase ≡ true)
      × (total_output_amount coinbase ≤ block_reward emission height + fold_fees 0 txs)
      × All (IsSigned c) txs
      × (pow_meets_target c sha256 header (target_of header.bits) ≡ true)
unfolding validate_block check_coinbase validate_after_coinbase verify_block_pow pow_meets_target
validate_block-IsSigned c sha256 header coinbase txs emission height accepted =
    let b : Block = record { header = header; transactions = coinbase ∷ txs } in
    let (v1, basic, h1) = >>=-eq-ok (validate_block_basic c b) _ accepted in
    let (v2, work, h2) = >>=-eq-ok (verify_block_pow c sha256 header) _ h1 in
    let (root, h3) =
      fail_if-ok (not (validate_merkle_root c b)) ZentraError.invalid_merkle_root _ h2 in
    let (v3, paid, h4) = >>=-eq-ok (check_coinbase emission height (coinbase ∷ txs)) _ h3 in
    let (first, single) = one_coinbase c header coinbase txs basic in
    let capped = saturating_add-le u64_max (block_reward emission height) (fold_fees 0 txs) in
    (
      first,
      ground (arith, first, paid, capped),
      transactions-IsSigned c txs single (ground (arith, first, h4)),
      ground (arith, work),
    )
