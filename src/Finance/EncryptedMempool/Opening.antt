-- ===== src/Finance/EncryptedMempool/Opening.antt =====
-- encrypted_mempool.rs: decrypting what was encrypted.
use zentra_chain.Prelude.{
  ℕ, suc, ◌≡◌, ◌≤◌, refl, ap, List, [], ◌∷◌, map, none, some, length, Bytes, All, arith,
}
use zentra_chain.Prelude.Xor.{bit_xor-cancel}
use zentra_chain.Core.Data.{Crypto}
use zentra_chain.Finance.EncryptedMempool.{
  EncryptedMempool, xor_bytes, generate_keystream, encrypt_transaction, decrypt_one, decrypt_all,
}
use zentra_chain.Finance.EncryptedMempool.Keystream.{
  length-generate_keystream, generate_keystream-Bytes,
}

xor_bytes-cancel :
    (xs ks : List ℕ)
    → Bytes xs
    → Bytes ks
    → length xs ≤ length ks
    → xor_bytes (xor_bytes xs ks) ks ≡ xs
unfolding xor_bytes
xor_bytes-cancel [] ks hx hk room = refl
xor_bytes-cancel (x ∷ xs) [] hx hk room = absurd (omega arith)
xor_bytes-cancel (x ∷ xs) (k ∷ ks) hx hk room =
    rw (bit_xor-cancel x k hx.0 hk.0, xor_bytes-cancel xs ks hx.1 hk.1 (omega arith)) refl

length-xor_bytes : (xs ks : List ℕ) → length xs ≤ length ks → length (xor_bytes xs ks) ≡ length xs
unfolding xor_bytes
length-xor_bytes [] ks room = refl
length-xor_bytes (x ∷ xs) [] room = absurd (omega arith)
length-xor_bytes (x ∷ xs) (k ∷ ks) room = ap suc (length-xor_bytes xs ks (omega arith))

module _ (c : Crypto) where
  decrypt_one-encrypt :
      (key tx : List ℕ) → Bytes tx → decrypt_one c key (encrypt_transaction c tx key) ≡ tx
  unfolding decrypt_one encrypt_transaction
  decrypt_one-encrypt key tx bytes =
      let ks : List ℕ = generate_keystream c key (length tx) in
      let room : length tx ≤ length ks =
        omega (arith, length-generate_keystream c key (length tx)) in
      rw (length-xor_bytes tx ks room)
        (xor_bytes-cancel tx ks bytes (generate_keystream-Bytes c key (length tx)) room)

  map-decrypt :
      (key : List ℕ) (txs : List (List ℕ))
      → All Bytes txs
      → map (decrypt_one c key) (map (λ tx. encrypt_transaction c tx key) txs) ≡ txs
  map-decrypt key [] bytes = refl
  map-decrypt key (tx ∷ txs) bytes =
      rw (decrypt_one-encrypt key tx bytes.0, map-decrypt key txs bytes.1) refl

  -- A pool that holds the encryptions of transactions under one key, and was given that key, hands out
  -- exactly those transactions in the order of submission, and is empty and without a key afterwards.
  pub decrypt_all-encrypt :
      (key : List ℕ) (txs : List (List ℕ)) (p : EncryptedMempool) (bytes : All Bytes txs)
      (held : p.pending ≡ map (λ tx. encrypt_transaction c tx key) txs)
      (given : p.decryption_key ≡ some key)
      → decrypt_all c p ≡ (txs, record { pending = []; decryption_key = none })
  unfolding decrypt_all
  decrypt_all-encrypt key txs p bytes held given =
      rw (given, decrypt_all, held, map-decrypt key txs bytes) refl
