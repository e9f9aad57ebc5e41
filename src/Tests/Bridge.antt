-- ===== src/Tests/Bridge.antt =====
-- Runs and witnesses of the vault and its threshold signatures.
use zentra_chain.Prelude.{
  ℕ, ◌≤◌, ◌≡◌, refl, true, List, [], ◌∷◌, ◌++◌, ok, some, arith, length, get_elem?, set, All, ◌==◌,
}
use zentra_chain.Tests.Data.{bytes, alice}
use zentra_chain.Finance.Tss
use zentra_chain.Finance.Tss.{Ed25519, TssKeyPair, TssManager, sign, verify, partial_ok}
use zentra_chain.Finance.Vault.{
  IngestStatus, IngestRequest, MintResult, OmniVault, new_vault, submit_ingest, validate_ingest,
  mint_zusd, build_ingest_message,
}
use zentra_chain.Finance.Pol.{ProtocolOwnedLiquidity, empty_pol}
use zentra_chain.Finance.Vault.Reached.{Reached}
use zentra_chain.Finance.Vault.Signers
use zentra_chain.Finance.Vault.Signers.{repeat}

-- Keys, signatures and digests of fixed lengths; every signature of the right length is valid.
abbrev toy_keys : Ed25519
toy_keys = record {
  public_of = λ s. s;
  key_ok = λ k. true;
  sign_bytes = λ s m. bytes 64;
  verify_bytes = λ k m s. length s == 64;
  hash = λ m. bytes 32;
}

abbrev validator : TssKeyPair
validator = record {
  public_share = bytes 32;
  secret_share = bytes 32;
  participant_index = 0;
  pair_threshold = 2;
  total_participants = 1;
}

abbrev manager : TssManager
manager = record {
  participants = validator ∷ [];
  group_public_key = bytes 32;
  threshold = 2;
  capacity = 1;
}

abbrev signature : List ℕ
signature = bytes 160

signs : sign toy_keys manager (1 ∷ []) (0 ∷ 0 ∷ []) ≡ ok signature
unfolding sign Tss.partial_signatures
signs = refl

verify-sign_example : verify toy_keys manager (1 ∷ []) signature ≡ true
verify-sign_example =
    Tss.verify-sign toy_keys manager (1 ∷ []) (0 ∷ 0 ∷ []) signature (λ m. refl) signs

abbrev request : IngestRequest
request = record {
  external_chain = 1 ∷ 2 ∷ [];
  external_tx_hash = 3 ∷ [];
  depositor_address = alice;
  stablecoin_amount = 1000;
  status = IngestStatus.pending;
}

abbrev vault : OmniVault
vault = record (new_vault 2 1) { tss = manager; pending_ingests = request ∷ [] }

abbrev validated_vault : OmniVault
validated_vault = record vault {
  pending_ingests = record request { status = IngestStatus.validated } ∷ [];
}

validates :
    validate_ingest toy_keys 0 ((0, bytes 64) ∷ (0, bytes 64) ∷ []) vault ≡ ok validated_vault
unfolding validate_ingest Tss.identify_abort
validates = refl

validate_ingest-signed_example :
    (r : IngestRequest) × (get_elem? vault.pending_ingests 0 ≡ some r)
    × (r.status ≡ IngestStatus.pending)
    × (vault.tss.threshold ≤ 2)
    × (All
        (λ s. partial_ok toy_keys vault.tss (build_ingest_message r) s ≡ true)
        ((0, bytes 64) ∷ (0, bytes 64) ∷ []))
    × (validated_vault ≡ record vault {
      pending_ingests = set vault.pending_ingests 0 (record r { status = IngestStatus.validated });
    })
validate_ingest-signed_example =
    Signers.validate_ingest-signed toy_keys 0 ((0, bytes 64) ∷ (0, bytes 64) ∷ []) vault
      validated_vault validates

validate_ingest-one_signer_example :
    validate_ingest toy_keys 0 (repeat toy_keys 2 (0, bytes 64)) vault ≡ ok validated_vault
validate_ingest-one_signer_example =
    Signers.validate_ingest-one_signer toy_keys 0 request (0, bytes 64) vault refl refl
      (omega arith) refl

build_ingest_message-shift_example :
    build_ingest_message
      (record request { external_chain = (1 ∷ []) ++ 2 ∷ []; external_tx_hash = 3 ∷ [] })
    ≡ build_ingest_message
        (record request { external_chain = 1 ∷ []; external_tx_hash = 2 ∷ 3 ∷ [] })
build_ingest_message-shift_example = Signers.build_ingest_message-shift (1 ∷ []) (3 ∷ []) 2 request

abbrev unsigned_request : IngestRequest
unsigned_request = record request { external_tx_hash = 4 ∷ []; status = IngestStatus.validated }

mint-submit_unsigned_example :
    (v1 : OmniVault) × (v2 : OmniVault) × (m : MintResult) × (submit_ingest unsigned_request vault
      ≡ ok v1)
    × (mint_zusd 1 v1 ≡ some (ok (m, v2)))
mint-submit_unsigned_example =
    Signers.mint-submit_unsigned unsigned_request vault (omega arith) refl refl

-- A vault of one validator: its keys are made, a deposit is submitted, validated and minted, and a part of
-- the zUSD is burned.
abbrev keyed_manager : TssManager
keyed_manager = record {
  participants =
      record {
        public_share = bytes 32;
        secret_share = bytes 32;
        participant_index = 0;
        pair_threshold = 1;
        total_participants = 1;
      }
      ∷ [];
  group_public_key = bytes 32;
  threshold = 1;
  capacity = 1;
}

abbrev keyed_vault : OmniVault
keyed_vault = record (new_vault 1 1) { tss = keyed_manager }

abbrev submitted_vault : OmniVault
submitted_vault = record keyed_vault { pending_ingests = request ∷ [] }

abbrev ready_vault : OmniVault
ready_vault = record keyed_vault {
  pending_ingests = record request { status = IngestStatus.validated } ∷ [];
}

-- The liquidity after the fee of the deposit.
abbrev fed : ProtocolOwnedLiquidity
fed = record empty_pol {
  pool = record empty_pol.pool { reserve_zusd = 5 };
  total_ingest_fees_collected = 5;
}

abbrev minted_vault : OmniVault
minted_vault = record keyed_vault {
  pol = fed;
  pending_ingests = record request { status = IngestStatus.minted } ∷ [];
  total_zusd_minted = 995;
}

abbrev burned_vault : OmniVault
burned_vault = record minted_vault { total_zusd_burned = 400 }
