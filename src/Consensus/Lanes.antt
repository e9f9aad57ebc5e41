-- ===== src/Consensus/Lanes.antt =====
-- lanes.rs: the proof-of-work function of each lane, and the check of a header's work. `sha256` stands
-- for the digest of the crate sha2. Serialisation to a byte vector does not fail.
use zentra_chain.Prelude.{
  ℕ, zero, suc, ◌+◌, ◌*◌, ◌/◌, ◌%◌, ◌^◌, Bool, Option, none, some, List, [], ◌∷◌, ◌++◌, set,
  get_elem?, leb, if◌then◌else◌, value, ok, err, ZentraError, ZentraResult,
}
use Prim.Native.Nat.{bit_xor}
use zentra_chain.Types.{Hash, LaneId}
use zentra_chain.Core.Data.{Header, Crypto}
use zentra_chain.Core.Tx.{to_le_bytes}
use zentra_chain.Core.Merkle.{hash_bytes}
use zentra_chain.Core.Pow.{target_from_bits}
use zentra_chain.Finance.Tss.{take, drop}

abbrev byte : Option ℕ → ℕ
byte none = 0
byte (some b) = b

-- `bytes[i]`; the code's indices are in range.
abbrev byte_at : List ℕ → ℕ → ℕ
byte_at bytes i = byte (get_elem? bytes i)

-- `bytes[i] ^= k`
abbrev xor_at : List ℕ → ℕ → ℕ → List ℕ
xor_at bytes i k = set bytes i (bit_xor (byte_at bytes i) k)

-- `header_bytes` with the nonce after it.
unfoldable pub with_nonce : List ℕ → ℕ → List ℕ
with_nonce bytes nonce = bytes ++ to_le_bytes 8 nonce

-- `b"zentra-cpu-pow-v1"`
abbrev cpu_label : List ℕ
cpu_label =
    122 ∷ 101 ∷ 110 ∷ 116 ∷ 114 ∷ 97 ∷ 45 ∷ 99 ∷ 112 ∷ 117 ∷ 45 ∷ 112 ∷ 111 ∷ 119 ∷ 45 ∷ 118 ∷ 49
    ∷ []

-- `Header::target_from_bits`, as a number.
unfoldable pub target_of : ℕ → Hash
target_of bits = value (target_from_bits bits)

module _ (c : Crypto) (sha256 : List ℕ → List ℕ) where
  -- The first loop: `chunks` chunks of 32 bytes, each the hash of the one before.
  unfoldable pub fill_scratchpad : ℕ → Hash → List ℕ × Hash
  fill_scratchpad zero result = ([], result)
  fill_scratchpad (suc chunks) result =
      let next = c.blake2b (hash_bytes result) in
      let (rest, last) = fill_scratchpad chunks next in (hash_bytes next ++ rest, last)

  -- The place in the scratchpad of 2048 bytes that a round reads and writes.
  unfoldable pub mix_index : ℕ → List ℕ → ℕ
  mix_index round bytes = bit_xor (bit_xor (byte_at bytes 0 * 8) (byte_at bytes 13)) round % 2_016

  unfoldable pub mix_round : ℕ → ℕ → List ℕ × Hash → List ℕ × Hash
  mix_round nonce round (scratchpad, result) =
      let idx = mix_index round (hash_bytes result) in
      let mix = hash_bytes result ++ take 32 (drop idx scratchpad) in
      let key = (nonce / 2 ^ ((round % 8) * 8)) % 256 in
      let next = c.blake2b (xor_at mix (round % 64) key) in
      (take idx scratchpad ++ hash_bytes next ++ drop (idx + 32) scratchpad, next)

  unfoldable pub mix_rounds : ℕ → ℕ → ℕ → List ℕ × Hash → List ℕ × Hash
  mix_rounds zero nonce round state = state
  mix_rounds (suc n) nonce round state =
      mix_rounds n nonce (round + 1) (mix_round nonce round state)

  unfoldable pub random_x : List ℕ → ℕ → Hash
  random_x bytes nonce =
      let start = c.blake2b (with_nonce bytes nonce ++ cpu_label) in
      (mix_rounds 128 nonce 0 (fill_scratchpad 64 start)).1

  unfoldable pub double_hash : List ℕ → Hash
  double_hash bytes = c.blake2b (hash_bytes (c.blake2b bytes))

  unfoldable pub kaw_pow : List ℕ → ℕ → Hash
  kaw_pow bytes nonce = double_hash (with_nonce bytes nonce ++ 1 ∷ [])

  unfoldable pub double_sha256 : List ℕ → ℕ → Hash
  double_sha256 bytes nonce = value (sha256 (sha256 (with_nonce bytes nonce)))

  unfoldable pub scrypt_rounds : ℕ → ℕ → Hash → Hash
  scrypt_rounds zero i state = state
  scrypt_rounds (suc n) i state =
      scrypt_rounds n (i + 1) (c.blake2b (xor_at (hash_bytes state) 0 i))

  unfoldable pub scrypt : List ℕ → ℕ → Hash
  scrypt bytes nonce = scrypt_rounds 64 0 (c.blake2b (with_nonce bytes nonce ++ 3 ∷ []))

  unfoldable pub yescrypt_rounds : ℕ → List ℕ → Hash → Hash
  yescrypt_rounds zero preimage result = result
  yescrypt_rounds (suc n) preimage result =
      yescrypt_rounds n preimage (c.blake2b (hash_bytes result ++ take 8 preimage))

  unfoldable pub yescrypt : List ℕ → ℕ → Hash
  yescrypt bytes nonce =
      let preimage = with_nonce bytes nonce ++ 4 ∷ [] in
      yescrypt_rounds 32 preimage (c.blake2b preimage)

  -- `get_verifier(lane).compute_pow_hash(..)`
  unfoldable pub compute_pow_hash : LaneId → List ℕ → ℕ → Hash
  compute_pow_hash LaneId.cpu bytes nonce = random_x bytes nonce
  compute_pow_hash LaneId.gpu bytes nonce = kaw_pow bytes nonce
  compute_pow_hash LaneId.btc_asic bytes nonce = double_sha256 bytes nonce
  compute_pow_hash LaneId.ltc_asic bytes nonce = scrypt bytes nonce
  compute_pow_hash LaneId.fpga bytes nonce = yescrypt bytes nonce

  -- The hash of a header's work: the header without its nonce, then the nonce.
  unfoldable pub header_work : Header → Hash
  header_work h = compute_pow_hash h.lane_id (c.borsh_header (record h { nonce = 0 })) h.nonce

  unfoldable pub pow_meets_target : Header → Hash → Bool
  pow_meets_target h target = leb (header_work h) target

  unfoldable pub verify_block_pow : Header → ZentraResult (Unit {0})
  verify_block_pow h =
      if leb (header_work h) (target_of h.bits) then ok tt else err ZentraError.difficulty_not_met
