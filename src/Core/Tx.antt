-- ===== src/Core/Tx.antt =====
-- transaction.rs: ids, amounts, signatures, structural validation and the coinbase transaction.
use zentra_chain.Prelude.{
  ℕ, zero, suc, ◌/◌, ◌%◌, Bool, true, false, not, ◌&&◌, List, [], ◌∷◌, map, ◌==◌, length,
  if◌then◌else◌, ok, ◌>>◌, fail_if, ZentraError, ZentraResult, keep,
}
use zentra_chain.Prelude.Words
use zentra_chain.Prelude.Words.{u64_max}
use zentra_chain.Types.{Hash, Address, TransactionType, NetworkType, is_coinbase_type}
use zentra_chain.Types.Amount.{Amount}
use zentra_chain.Core.Data.{TxInput, TxOutput, standard, burn, Transaction, Crypto}

unfoldable pub amount : TxOutput → Amount
amount (standard a v s) = v
amount (burn v t) = v

unfoldable pub is_burn : TxOutput → Bool
is_burn (standard a v s) = false
is_burn (burn v t) = true

unfoldable pub is_standard : TxOutput → Bool
is_standard (standard a v s) = true
is_standard (burn v t) = false

unfoldable pub is_coinbase : Transaction → Bool
is_coinbase tx = is_coinbase_type tx.tx_type

-- `fold(Amount::ZERO, |acc, out| acc.saturating_add(out.amount()))`
unfoldable pub fold_amounts : Amount → List TxOutput → Amount
fold_amounts acc [] = acc
fold_amounts acc (o ∷ os) = fold_amounts (Words.saturating_add u64_max acc (amount o)) os

unfoldable pub total_output_amount : Transaction → Amount
total_output_amount tx = fold_amounts 0 tx.outputs

unfoldable pub total_burn_amount : Transaction → Amount
total_burn_amount tx = fold_amounts 0 (keep is_burn tx.outputs)

unfoldable pub total_standard_amount : Transaction → Amount
total_standard_amount tx = fold_amounts 0 (keep is_standard tx.outputs)

abbrev any_zero : List TxOutput → Bool
any_zero [] = false
any_zero (o ∷ os) = let rest = any_zero os in if amount o == 0 then true else rest

unfoldable pub validate_basic : Transaction → ZentraResult (Unit {0})
unfolding is_coinbase
validate_basic tx = do
  fail_if (not (is_coinbase tx) && (length tx.inputs == 0)) ZentraError.transaction_validation
  fail_if (length tx.outputs == 0) ZentraError.transaction_validation
  fail_if (any_zero tx.outputs) ZentraError.transaction_validation
  ok tt

-- `to_le_bytes` of a word of `n` bytes.
unfoldable pub to_le_bytes : ℕ → ℕ → List ℕ
to_le_bytes zero v = []
to_le_bytes (suc n) v = (v % 256) ∷ to_le_bytes n (v / 256)

unfoldable pub create_coinbase : Amount → Address → ℕ → Transaction
create_coinbase reward miner height = record {
  version = 1;
  tx_type = TransactionType.coinbase;
  inputs = [];
  outputs = standard miner reward [] ∷ [];
  payload = to_le_bytes 8 height;
  lock_time = height;
}

module _ (c : Crypto) where
  unfoldable pub txid : Transaction → Hash
  txid tx = c.blake2b (c.borsh_tx tx)

  abbrev unsigned : TxInput → TxInput
  unsigned i = record i { signature = [] }

  unfoldable pub signing_hash : Transaction → Hash
  signing_hash tx = c.blake2b (c.borsh_tx (record tx { inputs = map unsigned tx.inputs }))

  unfoldable pub verify_inputs : Hash → List TxInput → ZentraResult (Unit {0})
  verify_inputs h [] = ok tt
  verify_inputs h (i ∷ is) = do
    fail_if (not (length i.signature == 64)) ZentraError.invalid_signature
    fail_if (not (c.key_ok i.public_key)) ZentraError.invalid_signature
    fail_if (not (c.sig_ok i.signature)) ZentraError.invalid_signature
    fail_if (not (c.verify i.public_key h i.signature)) ZentraError.invalid_signature
    verify_inputs h is

  unfoldable pub verify_signatures : Transaction → ZentraResult (Unit {0})
  unfolding is_coinbase
  verify_signatures tx = if is_coinbase tx then ok tt else verify_inputs (signing_hash tx) tx.inputs

  -- `Address::from_public_key`
  unfoldable pub from_public_key : ℕ → NetworkType → Address
  from_public_key key network = record { payload = c.blake2b (c.key_bytes key); network = network }
