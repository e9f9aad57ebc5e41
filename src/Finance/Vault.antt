-- ===== src/Finance/Vault.antt =====
-- vault.rs: the Omni-Vault, which mints zUSD against deposits on other chains and burns it again.
-- `none` is a panic of the pool. The burner's address and the burn record of line 323, which nothing
-- reads, are left out, and so are log lines.
pub mod Backing
pub mod Reached
pub mod Signers
use zentra_chain.Prelude.{
  bytes_eq, ℕ, suc, ◌+◌, ◌-◌, ◌%◌, Bool, true, false, not, Option, none, some, List, [], ◌∷◌, ◌++◌,
  reverse, ltb, ◌==◌, length, get_elem?, set, any, Result, ok, err, ◌>>=◌, ◌>>◌, fail_if, ok_or,
  ZentraError, ZentraResult, if◌then◌else◌,
}
use zentra_chain.Prelude.Words.{u128_max, saturating_add}
use zentra_chain.Types.{Address}
use zentra_chain.Core.Tx.{to_le_bytes}
use zentra_chain.Finance.Amm.{get_reserves}
use zentra_chain.Finance.Pol.{
  ProtocolOwnedLiquidity, IngestResult, empty_pol, process_cross_chain_ingest,
}
use zentra_chain.Finance.Tss.{Ed25519, TssManager, new_manager, identify_abort}

pub data IngestStatus : Type 0 where
  pending validated minted rejected : IngestStatus

abbrev pub status_eq : IngestStatus → IngestStatus → Bool
status_eq IngestStatus.pending IngestStatus.pending = true
status_eq IngestStatus.validated IngestStatus.validated = true
status_eq IngestStatus.minted IngestStatus.minted = true
status_eq IngestStatus.rejected IngestStatus.rejected = true
status_eq _ _ = false

pub record IngestRequest : Type 0 where
  pub external_chain : List ℕ
  pub external_tx_hash : List ℕ
  pub depositor_address : Address
  pub stablecoin_amount : ℕ
  pub status : IngestStatus

pub record MintResult : Type 0 where
  pub zusd_minted : ℕ
  pub fee_deducted : ℕ
  pub lp_burned : ℕ

pub record VaultStats : Type 0 where
  pub total_minted : ℕ
  pub total_burned : ℕ
  pub circulating_zusd : ℕ
  pub pol_reserves : ℕ × ℕ

pub record OmniVault : Type 0 where
  pub tss : TssManager
  pub pol : ProtocolOwnedLiquidity
  pub pending_ingests : List IngestRequest
  pub total_zusd_minted : ℕ
  pub total_zusd_burned : ℕ

-- `OmniVault::new`
abbrev pub new_vault : ℕ → ℕ → OmniVault
new_vault threshold total_validators = record {
  tss = new_manager threshold total_validators;
  pol = empty_pol;
  pending_ingests = [];
  total_zusd_minted = 0;
  total_zusd_burned = 0;
}

unfoldable pub submit_ingest : IngestRequest → OmniVault → ZentraResult OmniVault
submit_ingest r v = do
  fail_if (r.stablecoin_amount == 0) ZentraError.transaction_validation
  fail_if (any (λ x. bytes_eq x.external_tx_hash r.external_tx_hash) v.pending_ingests)
      ZentraError.transaction_validation
  ok (record v { pending_ingests = v.pending_ingests ++ r ∷ [] })

-- `build_ingest_message`: the parts one after the other. An address's payload is 32 bytes.
unfoldable pub build_ingest_message : IngestRequest → List ℕ
build_ingest_message r =
    r.external_chain
    ++ r.external_tx_hash
    ++ reverse (to_le_bytes 32 r.depositor_address.payload)
    ++ to_le_bytes 16 r.stablecoin_amount

unfoldable pub validate_ingest :
    Ed25519 → ℕ → List (ℕ × List ℕ) → OmniVault → ZentraResult OmniVault
validate_ingest e index sigs v = do
  r ← ok_or (get_elem? v.pending_ingests index) ZentraError.transaction_validation
  fail_if (not (status_eq r.status IngestStatus.pending)) ZentraError.transaction_validation
  fail_if (ltb (length sigs % 65_536) v.tss.threshold) ZentraError.tss_error
  elim (identify_abort e v.tss sigs (build_ingest_message r)) [
    | some bad ↦ err ZentraError.tss_error
    | none ↦ ok (record v {
      pending_ingests = set v.pending_ingests index (record r { status = IngestStatus.validated });
    })
  ]

abbrev book :
    ℕ → IngestRequest → OmniVault → IngestResult → ProtocolOwnedLiquidity → MintResult × OmniVault
book index r v res pol = (
  record {
    zusd_minted = res.net_amount;
    fee_deducted = res.fee_deducted;
    lp_burned = res.lp_tokens_burned;
  },
  record v {
    pol = pol;
    pending_ingests = set v.pending_ingests index (record r { status = IngestStatus.minted });
    total_zusd_minted = saturating_add u128_max v.total_zusd_minted res.net_amount;
  },
)

unfoldable pub mint_zusd : ℕ → OmniVault → Option (ZentraResult (MintResult × OmniVault))
mint_zusd index v = elim (get_elem? v.pending_ingests index) [
  | none ↦ some (err ZentraError.transaction_validation)
  | some r ↦
      if status_eq r.status IngestStatus.validated
      then elim (process_cross_chain_ingest r.stablecoin_amount v.pol) [
        | none ↦ none
        | some (res, pol) ↦ some (ok (book index r v res pol))
      ]
      else some (err ZentraError.transaction_validation)
]

unfoldable pub burn_zusd : ℕ → OmniVault → ZentraResult OmniVault
burn_zusd amount v = do
  fail_if (amount == 0) ZentraError.transaction_validation
  fail_if (ltb (v.total_zusd_minted - v.total_zusd_burned) amount)
      ZentraError.transaction_validation
  ok (record v { total_zusd_burned = saturating_add u128_max v.total_zusd_burned amount })

unfoldable pub get_vault_stats : OmniVault → VaultStats
get_vault_stats v = record {
  total_minted = v.total_zusd_minted;
  total_burned = v.total_zusd_burned;
  circulating_zusd = v.total_zusd_minted - v.total_zusd_burned;
  pol_reserves = get_reserves v.pol.pool;
}
