-- ===== src/Finance/Vault/Reached.antt =====
-- vault.rs: the vaults that sequences of calls lead to.
use zentra_chain.Prelude.{ℕ, ◌≡◌, some, List, ok}
use zentra_chain.Finance.Tss.{Ed25519, TssManager, generate_keys}
use zentra_chain.Finance.Pol.{ProtocolOwnedLiquidity}
use zentra_chain.Finance.Vault.{
  IngestRequest, MintResult, OmniVault, submit_ingest, validate_ingest, mint_zusd, burn_zusd,
  new_vault,
}

-- One call of the vault that succeeded, the generation of the validators' keys, or any change of the
-- vault's liquidity by that part's own operations, such as funding its pool.
pub data Step (e : Ed25519) : OmniVault → OmniVault → Type 0 where
  submitted : {v v' : OmniVault} (r : IngestRequest) → submit_ingest r v ≡ ok v' → Step e v v'
  validated :
      {v v' : OmniVault} (index : ℕ) (sigs : List (ℕ × List ℕ))
      → validate_ingest e index sigs v ≡ ok v'
      → Step e v v'
  minted :
      {v v' : OmniVault} (index : ℕ) (m : MintResult)
      → mint_zusd index v ≡ some (ok (m, v'))
      → Step e v v'
  keyed :
      {v : OmniVault} (draw : ℕ → List ℕ) (key : List ℕ) (tss : TssManager)
      → generate_keys e draw v.tss ≡ ok (key, tss)
      → Step e v (record v { tss = tss })
  funded : {v : OmniVault} (pol : ProtocolOwnedLiquidity) → Step e v (record v { pol = pol })
  burned : {v v' : OmniVault} (amount : ℕ) → burn_zusd amount v ≡ ok v' → Step e v v'

-- The vaults that a sequence of calls leads to.
pub data Reached (e : Ed25519) (threshold total : ℕ) : OmniVault → Type 0 where
  start : Reached e threshold total (new_vault threshold total)
  next :
      {v v' : OmniVault} → Reached e threshold total v → Step e v v' → Reached e threshold total v'
