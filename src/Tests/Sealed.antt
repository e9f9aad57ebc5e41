-- ===== src/Tests/Sealed.antt =====
-- Runs of the encrypted mempool and of the synchronisation, and the witnesses of their results.
use zentra_chain.Core.Tx
use zentra_chain.Core.Merkle
use zentra_chain.Prelude.{ℕ, ◌≡◌, refl, none, List, [], ◌∷◌, map, any, leb, err, ZentraError, arith}
use zentra_chain.Finance.EncryptedMempool
use zentra_chain.Finance.EncryptedMempool.{
  EncryptedMempool, EncryptedTransaction, new_encrypted, submit_encrypted, set_decryption_key,
  encrypt_transaction, decrypt_all,
}
use zentra_chain.Finance.EncryptedMempool.Opening.{decrypt_all-encrypt}
use zentra_chain.Node.Sync.{is_synced, start_sync, update_all, new_sync, start_sync-ends}
use zentra_chain.Tests.Data.{toy}

abbrev key : List ℕ
key = 7 ∷ 8 ∷ []

abbrev payloads : List (List ℕ)
payloads = (1 ∷ 2 ∷ 3 ∷ []) ∷ (250 ∷ []) ∷ []

abbrev sealed : EncryptedMempool
sealed =
    set_decryption_key key
      (submit_encrypted (encrypt_transaction toy (250 ∷ []) key)
        (submit_encrypted (encrypt_transaction toy (1 ∷ 2 ∷ 3 ∷ []) key) new_encrypted).1).1

sealed-pending : sealed.pending ≡ map (λ tx. encrypt_transaction toy tx key) payloads
unfolding set_decryption_key submit_encrypted encrypt_transaction EncryptedMempool.xor_bytes
    EncryptedMempool.generate_keystream EncryptedMempool.keystream_loop EncryptedMempool.key_block
    Merkle.hash_bytes Tx.to_le_bytes new_encrypted
sealed-pending = refl

-- The same transaction is refused a second time.
refuses_again :
    (submit_encrypted (encrypt_transaction toy (250 ∷ []) key) sealed).0
    ≡ err ZentraError.transaction_validation
unfolding submit_encrypted encrypt_transaction EncryptedMempool.xor_bytes
    EncryptedMempool.generate_keystream EncryptedMempool.keystream_loop EncryptedMempool.key_block
    Merkle.hash_bytes Tx.to_le_bytes set_decryption_key new_encrypted
refuses_again = refl

decrypt_all-encrypt_example :
    decrypt_all toy sealed ≡ (payloads, record { pending = []; decryption_key = none })
unfolding set_decryption_key
decrypt_all-encrypt_example =
    decrypt_all-encrypt toy key payloads sealed (omega arith) sealed-pending refl

start_sync-ends_example :
    is_synced (update_all (3 ∷ 12 ∷ 5 ∷ []) (start_sync 10 new_sync))
    ≡ any (λ height. leb 10 height) (3 ∷ 12 ∷ 5 ∷ [])
start_sync-ends_example = start_sync-ends new_sync 10 (3 ∷ 12 ∷ 5 ∷ [])
