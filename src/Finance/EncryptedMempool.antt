-- ===== src/Finance/EncryptedMempool.antt =====
-- encrypted_mempool.rs: the pool of encrypted transactions and the keystream cipher. A key is its 32
-- bytes. Log messages are left out.
pub mod Keystream
pub mod Opening
use zentra_chain.Prelude.{
  ℕ, zero, suc, ◌+◌, ◌%◌, ◌^◌, Bool, true, false, List, [], ◌∷◌, ◌++◌, map, Option, none, some,
  length, any, ltb, ◌==◌, if◌then◌else◌, ok, err, ZentraError, ZentraResult,
}
use Prim.Native.Nat.{bit_xor}
use zentra_chain.Types.{Hash, Address, NetworkType}
use zentra_chain.Core.Data.{Crypto}
use zentra_chain.Core.Tx.{to_le_bytes}
use zentra_chain.Core.Merkle.{hash_bytes}
use zentra_chain.Finance.Tss.{take}

pub record EncryptedTransaction : Type 0 where
  pub ciphertext : List ℕ
  pub commitment : Hash
  pub submitter : Address
  pub submitted_at : ℕ

pub record EncryptedMempool : Type 0 where
  pub pending : List EncryptedTransaction
  pub decryption_key : Option (List ℕ)

-- `EncryptedMempool::new`
unfoldable pub new_encrypted : EncryptedMempool
new_encrypted = record { pending = []; decryption_key = none }

abbrev pub no_bytes : List ℕ → Bool
no_bytes [] = true
no_bytes (b ∷ bs) = false

abbrev pub has_commitment : Hash → List EncryptedTransaction → Bool
has_commitment h pending = any (λ tx. tx.commitment == h) pending

unfoldable pub submit_encrypted :
    EncryptedTransaction → EncryptedMempool → ZentraResult (Unit {0}) × EncryptedMempool
submit_encrypted tx p =
    if no_bytes tx.ciphertext
    then (err ZentraError.transaction_validation, p)
    else if has_commitment tx.commitment p.pending
    then (err ZentraError.transaction_validation, p)
    else (ok tt, record p { pending = p.pending ++ tx ∷ [] })

-- `a.iter().zip(b).map(|(x, k)| x ^ k)`
unfoldable pub xor_bytes : List ℕ → List ℕ → List ℕ
xor_bytes (x ∷ xs) (k ∷ ks) = bit_xor x k ∷ xor_bytes xs ks
xor_bytes _ _ = []

unfoldable pub set_decryption_key : List ℕ → EncryptedMempool → EncryptedMempool
set_decryption_key key p = record p { decryption_key = some key }

unfoldable pub get_commitments : EncryptedMempool → List Hash
get_commitments p = map (λ tx. tx.commitment) p.pending

unfoldable pub pending_count : EncryptedMempool → ℕ
pending_count p = length p.pending

unfoldable pub has_decryption_key : EncryptedMempool → Bool
has_decryption_key p = elim p.decryption_key [ none ↦ false | some _ ↦ true ]

unfoldable pub clear : EncryptedMempool → EncryptedMempool
clear p = record { pending = []; decryption_key = none }

module _ (c : Crypto) where
  -- One block of the keystream: H(key ‖ index).
  unfoldable pub key_block : List ℕ → ℕ → List ℕ
  key_block key index = hash_bytes (c.blake2b (key ++ to_le_bytes 8 index))

  -- The loop of `generate_keystream`; the fuel is the length wanted, since a round adds 32 bytes.
  unfoldable pub keystream_loop : ℕ → List ℕ → ℕ → ℕ → List ℕ → List ℕ
  keystream_loop zero key length_wanted index keystream = keystream
  keystream_loop (suc fuel) key length_wanted index keystream =
      let rest =
        keystream_loop fuel key length_wanted ((index + 1) % 2 ^ 64)
          (keystream ++ key_block key index) in
      if ltb (length keystream) length_wanted then rest else keystream

  unfoldable pub generate_keystream : List ℕ → ℕ → List ℕ
  generate_keystream key length_wanted =
      take length_wanted (keystream_loop length_wanted key length_wanted 0 [])

  unfoldable pub encrypt_transaction : List ℕ → List ℕ → EncryptedTransaction
  encrypt_transaction tx epoch_key = record {
    ciphertext = xor_bytes tx (generate_keystream epoch_key (length tx));
    commitment = c.blake2b tx;
    submitter = record { payload = c.blake2b epoch_key; network = NetworkType.devnet };
    submitted_at = 0;
  }

  unfoldable pub decrypt_one : List ℕ → EncryptedTransaction → List ℕ
  decrypt_one key tx = xor_bytes tx.ciphertext (generate_keystream key (length tx.ciphertext))

  -- Without a key nothing happens; with one the pool is emptied and the key is used up.
  unfoldable pub decrypt_all : EncryptedMempool → List (List ℕ) × EncryptedMempool
  decrypt_all p = elim p.decryption_key [
    | none ↦ ([], p)
    | some key ↦ (map (decrypt_one key) p.pending, record { pending = []; decryption_key = none })
  ]
