-- ===== src/Finance/EncryptedMempool/Keystream.antt =====
-- encrypted_mempool.rs, `generate_keystream`: how long the keystream is, and what its entries are.
use zentra_chain.Prelude.{
  ℕ, zero, suc, ◌+◌, ◌%◌, ◌/◌, ◌^◌, ◌≡◌, ◌≤◌, ◌∙◌, refl, ap, List, [], ◌∷◌, ◌++◌, reverse, length,
  length-append, Bytes, ltb, Bool-cases, inl, inr, arith,
}
use mathlib.Core.List.{reverse-cons}
use zentra_chain.Core.Data.{Crypto}
use zentra_chain.Core.Tx.{to_le_bytes}
use zentra_chain.Core.Merkle.{hash_bytes}
use zentra_chain.Finance.Tss.{take}
use zentra_chain.Finance.EncryptedMempool.{key_block, keystream_loop, generate_keystream}

Bytes-append : (xs ys : List ℕ) → Bytes xs → Bytes ys → Bytes (xs ++ ys)
Bytes-append [] ys hx hy = hy
Bytes-append (x ∷ xs) ys hx hy = (hx.0, Bytes-append xs ys hx.1 hy)

Bytes-reverse : (xs : List ℕ) → Bytes xs → Bytes (reverse xs)
Bytes-reverse [] h = tt
Bytes-reverse (x ∷ xs) h =
    rw (reverse-cons x xs) (Bytes-append (reverse xs) (x ∷ []) (Bytes-reverse xs h.1) (h.0, tt))

length-reverse : (xs : List ℕ) → length (reverse xs) ≡ length xs
length-reverse [] = refl
length-reverse (x ∷ xs) =
    rw (reverse-cons x xs) (omega (arith, length-append (reverse xs) (x ∷ []), length-reverse xs))

length-to_le_bytes : (n v : ℕ) → length (to_le_bytes n v) ≡ n
unfolding to_le_bytes
length-to_le_bytes zero v = refl
length-to_le_bytes (suc n) v = ap suc (length-to_le_bytes n (v / 256))

to_le_bytes-Bytes : (n v : ℕ) → Bytes (to_le_bytes n v)
unfolding to_le_bytes
to_le_bytes-Bytes zero v = tt
to_le_bytes-Bytes (suc n) v = (omega arith, to_le_bytes-Bytes n (v / 256))

length-take : (n : ℕ) (xs : List ℕ) → n ≤ length xs → length (take n xs) ≡ n
length-take zero xs h = refl
length-take (suc n) [] h = absurd (omega arith)
length-take (suc n) (x ∷ xs) h = ap suc (length-take n xs (omega arith))

take-Bytes : (n : ℕ) (xs : List ℕ) → Bytes xs → Bytes (take n xs)
take-Bytes zero xs h = tt
take-Bytes (suc n) [] h = tt
take-Bytes (suc n) (x ∷ xs) h = (h.0, take-Bytes n xs h.1)

module _ (c : Crypto) where
  length-key_block : (key : List ℕ) (index : ℕ) → length (key_block c key index) ≡ 32
  unfolding key_block hash_bytes
  length-key_block key index = length-reverse (to_le_bytes 32 _) ∙ length-to_le_bytes 32 _

  key_block-Bytes : (key : List ℕ) (index : ℕ) → Bytes (key_block c key index)
  unfolding key_block hash_bytes
  key_block-Bytes key index = Bytes-reverse (to_le_bytes 32 _) (to_le_bytes-Bytes 32 _)

  -- The loop comes to the length wanted where its fuel covers what is missing.
  keystream_loop-enough :
      (fuel : ℕ) (key : List ℕ) (n index : ℕ) (keystream : List ℕ)
      → n ≤ length keystream + fuel
      → n ≤ length (keystream_loop c fuel key n index keystream)
  unfolding keystream_loop
  keystream_loop-enough zero key n index keystream h = omega arith
  keystream_loop-enough (suc fuel) key n index keystream h =
      let grown : length (keystream ++ key_block c key index) ≡ length keystream + 32 =
        omega
          (arith, length-append keystream (key_block c key index), length-key_block key index) in
      ground (
        arith,
        keystream_loop-enough fuel key n ((index + 1) % 2 ^ 64)
            (keystream ++ key_block c key index),
        grown,
      )

  keystream_loop-Bytes :
      (fuel : ℕ) (key : List ℕ) (n index : ℕ) (keystream : List ℕ)
      → Bytes keystream
      → Bytes (keystream_loop c fuel key n index keystream)
  unfolding keystream_loop
  keystream_loop-Bytes zero key n index keystream h = h
  keystream_loop-Bytes (suc fuel) key n index keystream h =
      elim (Bool-cases (ltb (length keystream) n)) [
        | inl short ↦ rw short (
            keystream_loop-Bytes fuel key n ((index + 1) % 2 ^ 64)
              (keystream ++ key_block c key index)
              (Bytes-append keystream (key_block c key index) h (key_block-Bytes key index)))
        | inr long ↦ rw long h
      ]

  pub length-generate_keystream : (key : List ℕ) (n : ℕ) → length (generate_keystream c key n) ≡ n
  unfolding generate_keystream
  length-generate_keystream key n =
      length-take n _ (keystream_loop-enough n key n 0 [] (omega arith))

  pub generate_keystream-Bytes : (key : List ℕ) (n : ℕ) → Bytes (generate_keystream c key n)
  unfolding generate_keystream
  generate_keystream-Bytes key n = take-Bytes n _ (keystream_loop-Bytes n key n 0 [] tt)
