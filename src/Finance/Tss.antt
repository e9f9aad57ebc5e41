-- ===== src/Finance/Tss.antt =====
-- tss.rs: the simulated threshold signatures of the vault's validators. Ed25519 and Blake2b-256 are
-- the parameter `Ed25519`; the keys that `generate_keys` draws are an argument of it.
use Prim.Native.Nat.{max}
use zentra_chain.Prelude.{bytes_eq, bytes_eq_iff}
use zentra_chain.Prelude.{
  ℕ, zero, suc, ◌%◌, ◌≡◌, Bool, true, false, not, Option, none, some, List, [], ◌∷◌, ◌++◌, ltb,
  ◌==◌, length, get_elem?, ok, ◌>>=◌, ◌>>◌, fail_if, ok_or, ZentraError, ZentraResult,
  if◌then◌else◌, arith, refl, >>=-eq-ok, fail_if-ok, length-append,
}

-- ed25519_dalek and blake2: keys and signatures are byte strings. `public_of` is the verifying key
-- of a secret key, `key_ok` says whether `VerifyingKey::from_bytes` succeeds, and `hash` is the
-- 32-byte digest.
pub record Ed25519 : Type 0 where
  pub public_of : List ℕ → List ℕ
  pub key_ok : List ℕ → Bool
  pub sign_bytes : List ℕ → List ℕ → List ℕ
  pub verify_bytes : List ℕ → List ℕ → List ℕ → Bool
  pub hash : List ℕ → List ℕ

pub record TssKeyPair : Type 0 where
  pub public_share : List ℕ
  pub secret_share : List ℕ
  pub participant_index : ℕ
  pub pair_threshold : ℕ
  pub total_participants : ℕ

-- `capacity` is that of the participants' vector.
pub record TssManager : Type 0 where
  pub participants : List TssKeyPair
  pub group_public_key : List ℕ
  pub threshold : ℕ
  pub capacity : ℕ

abbrev zeros : ℕ → List ℕ
zeros zero = []
zeros (suc n) = 0 ∷ zeros n

-- `TssManager::new`
abbrev pub new_manager : ℕ → ℕ → TssManager
new_manager threshold total = record {
  participants = [];
  group_public_key = zeros 32;
  threshold = threshold;
  capacity = total;
}

-- `&bytes[..n]` and `&bytes[n..]`
abbrev pub take : ℕ → List ℕ → List ℕ
take zero xs = []
take (suc n) [] = []
take (suc n) (x ∷ xs) = x ∷ take n xs

abbrev pub drop : ℕ → List ℕ → List ℕ
drop zero xs = xs
drop (suc n) [] = []
drop (suc n) (x ∷ xs) = drop n xs

module _ (e : Ed25519) where
  -- The loop of `generate_keys` from participant `i`, with `count` participants to go.
  unfoldable pub key_pairs : (ℕ → List ℕ) → ℕ → ℕ → ℕ → ℕ → List TssKeyPair
  key_pairs draw threshold total i zero = []
  key_pairs draw threshold total i (suc count) =
      record {
        public_share = e.public_of (draw i);
        secret_share = draw i;
        participant_index = i;
        pair_threshold = threshold;
        total_participants = total;
      }
      ∷ key_pairs draw threshold total (suc i) count

  unfoldable pub combined_keys : List TssKeyPair → List ℕ
  combined_keys [] = []
  combined_keys (k ∷ ks) = k.public_share ++ combined_keys ks

  -- `draw i` is the secret key that the generator gives for participant `i`.
  unfoldable pub generate_keys : (ℕ → List ℕ) → TssManager → ZentraResult (List ℕ × TssManager)
  generate_keys draw m =
      let total = max m.capacity 1 % 65_536 in
      let pairs = key_pairs draw m.threshold total 0 total in
      let key = e.hash (combined_keys pairs) in
      do
        fail_if (m.threshold == 0) ZentraError.tss_error
        fail_if (ltb total m.threshold) ZentraError.tss_error
        ok (key, record m { participants = pairs; group_public_key = key })

  -- The loop over the signers: the partial signatures one after the other.
  unfoldable pub partial_signatures : TssManager → List ℕ → List ℕ → ZentraResult (List ℕ)
  partial_signatures m message [] = ok []
  partial_signatures m message (idx ∷ signers) = do
    p ← ok_or (get_elem? m.participants idx) ZentraError.tss_error
    fail_if (not (length p.secret_share == 32)) ZentraError.tss_error
    rest ← partial_signatures m message signers
    ok (e.sign_bytes p.secret_share message ++ rest)

  unfoldable pub sign : TssManager → List ℕ → List ℕ → ZentraResult (List ℕ)
  sign m message signers = do
    fail_if (length m.participants == 0) ZentraError.tss_error
    fail_if (ltb (length signers % 65_536) m.threshold) ZentraError.tss_error
    partial_sigs ← partial_signatures m message signers
    ok (e.hash (partial_sigs ++ m.group_public_key ++ message) ++ partial_sigs)

  unfoldable pub verify : TssManager → List ℕ → List ℕ → Bool
  verify m message signature =
      if ltb (length signature) 32
      then false
      else bytes_eq (take 32 signature)
          (e.hash (drop 32 signature ++ m.group_public_key ++ message))

  -- Whether one partial signature is valid: the tests of lines 271 to 306.
  abbrev pub partial_ok : TssManager → List ℕ → ℕ × List ℕ → Bool
  partial_ok m message (idx, sig) = elim (get_elem? m.participants idx) [
    | none ↦ false
    | some p ↦
        if e.key_ok p.public_share
        then (if length sig == 64 then e.verify_bytes p.public_share message sig else false)
        else false
  ]

  unfoldable pub identify_abort : TssManager → List (ℕ × List ℕ) → List ℕ → Option ℕ
  identify_abort m [] message = none
  identify_abort m (s ∷ sigs) message =
      if partial_ok m message s then identify_abort m sigs message else some s.0

  take_hash : (n : ℕ) (xs ys : List ℕ) → length xs ≡ n → take n (xs ++ ys) ≡ xs
  take_hash zero [] ys h = refl
  take_hash zero (x ∷ xs) ys h = absurd (omega (arith, h))
  take_hash (suc n) [] ys h = absurd (omega (arith, h))
  take_hash (suc n) (x ∷ xs) ys h = ground (arith, take_hash n xs ys (omega (arith, h)))

  drop_hash : (n : ℕ) (xs ys : List ℕ) → length xs ≡ n → drop n (xs ++ ys) ≡ ys
  drop_hash zero [] ys h = refl
  drop_hash zero (x ∷ xs) ys h = absurd (omega (arith, h))
  drop_hash (suc n) [] ys h = absurd (omega (arith, h))
  drop_hash (suc n) (x ∷ xs) ys h = drop_hash n xs ys (omega (arith, h))

  -- With 32-byte digests, every signature that `sign` returns passes `verify`.
  pub verify-sign :
      (m : TssManager) (message signers signature : List ℕ)
      → ((bytes : List ℕ) → length (e.hash bytes) ≡ 32)
      → sign m message signers ≡ ok signature
      → verify m message signature ≡ true
  unfolding sign verify
  verify-sign m message signers signature digest h =
      let (some_keys, h1) = fail_if-ok (length m.participants == 0) ZentraError.tss_error _ h in
      let (enough, h2) =
        fail_if-ok (ltb (length signers % 65_536) m.threshold) ZentraError.tss_error _ h1 in
      let (parts, found, h3) = >>=-eq-ok (partial_signatures m message signers) _ h2 in
      let digest_bytes = e.hash (parts ++ m.group_public_key ++ message) in
      let size = digest (parts ++ m.group_public_key ++ message) in
      let made : signature ≡ digest_bytes ++ parts = cc h3 in
      rw (made, take_hash 32 digest_bytes parts size, drop_hash 32 digest_bytes parts size)
        (ground (
          arith,
          length-append digest_bytes parts,
          size,
          (bytes_eq_iff digest_bytes digest_bytes).1 refl,
        ))
