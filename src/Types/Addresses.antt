-- ===== src/Types/Addresses.antt =====
-- hash.rs and address.rs: hashes, addresses and burn types. What stands outside the repository is
-- the record `Crypto` of the other components.
use zentra_chain.Prelude.{ℕ, ◌≡◌, ◌↔◌, Bool, true, ◌&&◌, ◌==◌, arith}
use zentra_chain.Prelude.Map.{Key}
use zentra_chain.Types.Constants.{NetworkType, network_eq, network_eq_iff}

abbrev pub Hash : Type 0
Hash = ℕ

-- `Hash::ZERO`
abbrev pub zero_hash : Hash
zero_hash = 0

-- `payload` is the hash of the public key.
pub record Address : Type 0 where
  pub payload : Hash
  pub network : NetworkType

abbrev pub address_eq : Address → Address → Bool
address_eq a b = (a.payload == b.payload) && network_eq a.network b.network

pub address_eq_iff : (a b : Address) → (address_eq a b ≡ true) ↔ (a ≡ b)
address_eq_iff a b = ground (arith, network_eq_iff a.network b.network)

instance abbrev pub address_key : Key Address
address_key = record { beq = address_eq; beq_iff = address_eq_iff }

pub data BurnType : Type 0 where
  lp_token_burn stablecoin_burn fee_burn user_burn : BurnType
