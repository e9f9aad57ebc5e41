-- ===== src/Finance/Pol.antt =====
-- pol.rs: protocol-owned liquidity. `none` is a panic of the pool's square root.
use zentra_chain.Prelude.{
  ℕ, ◌-◌, ◌*◌, ◌/◌, ◌%◌, ◌^◌, ◌≤◌, ◌≡◌, Option, none, some, ◌==◌, ◌&&◌, if◌then◌else◌, arith, refl,
  Bool-cases, inl, inr,
}
use zentra_chain.Prelude.Words.{u128_max, saturating_add}
use zentra_chain.Types.{cross_chain_ingest_fee_bps, bps_denominator}
use zentra_chain.Finance.Amm.{LiquidityPool, empty_pool, inject_protocol_liquidity, get_reserves}
use zentra_chain.Finance.Amm.Liquidity.{inject_protocol_liquidity-some}

pub record IngestResult : Type 0 where
  pub net_amount : ℕ
  pub fee_deducted : ℕ
  pub lp_tokens_burned : ℕ

pub record PolMetrics : Type 0 where
  pub total_reserves_ztr : ℕ
  pub total_reserves_zusd : ℕ
  pub total_lp_burned : ℕ
  pub total_fees_collected : ℕ

pub record ProtocolOwnedLiquidity : Type 0 where
  pub pool : LiquidityPool
  pub total_ingest_fees_collected : ℕ
  pub total_swap_fees_collected : ℕ
  pub total_lp_tokens_burned : ℕ

-- `ProtocolOwnedLiquidity::new`
abbrev pub empty_pol : ProtocolOwnedLiquidity
empty_pol = record {
  pool = empty_pool;
  total_ingest_fees_collected = 0;
  total_swap_fees_collected = 0;
  total_lp_tokens_burned = 0;
}

-- The fee of line 100, whose product wraps in the release profile.
abbrev pub ingest_fee : ℕ → ℕ
ingest_fee zusd = ((zusd * cross_chain_ingest_fee_bps) % 2 ^ 128) / bps_denominator

unfoldable pub process_cross_chain_ingest :
    ℕ → ProtocolOwnedLiquidity → Option (IngestResult × ProtocolOwnedLiquidity)
process_cross_chain_ingest zusd p =
    if zusd == 0
    then some (record { net_amount = 0; fee_deducted = 0; lp_tokens_burned = 0 }, p)
    else elim (inject_protocol_liquidity 0 (ingest_fee zusd) p.pool) [
      | none ↦ none
      | some (lp, pool) ↦ some (
        record {
          net_amount = zusd - ingest_fee zusd;
          fee_deducted = ingest_fee zusd;
          lp_tokens_burned = lp;
        },
        record p {
          pool = pool;
          total_ingest_fees_collected =
              saturating_add u128_max p.total_ingest_fees_collected (ingest_fee zusd);
          total_lp_tokens_burned = saturating_add u128_max p.total_lp_tokens_burned lp;
        },
      )
    ]

unfoldable pub process_swap_fee : ℕ → ℕ → ProtocolOwnedLiquidity → Option ProtocolOwnedLiquidity
process_swap_fee fee_ztr equivalent_zusd p =
    if (fee_ztr == 0) && (equivalent_zusd == 0)
    then some p
    else elim (inject_protocol_liquidity fee_ztr equivalent_zusd p.pool) [
      | none ↦ none
      | some (lp, pool) ↦ some (record p {
        pool = pool;
        total_swap_fees_collected = saturating_add u128_max p.total_swap_fees_collected fee_ztr;
        total_lp_tokens_burned = saturating_add u128_max p.total_lp_tokens_burned lp;
      })
    ]

unfoldable pub get_pol_metrics : ProtocolOwnedLiquidity → PolMetrics
get_pol_metrics p = record {
  total_reserves_ztr = (get_reserves p.pool).0;
  total_reserves_zusd = (get_reserves p.pool).1;
  total_lp_burned = p.total_lp_tokens_burned;
  total_fees_collected =
      saturating_add u128_max p.total_ingest_fees_collected p.total_swap_fees_collected;
}

-- An ingest of one side only never panics, and pays out no more than it takes in.
pub process_cross_chain_ingest-total :
    (zusd : ℕ) (p : ProtocolOwnedLiquidity)
    → (r : IngestResult) × (p' : ProtocolOwnedLiquidity) × (process_cross_chain_ingest zusd p
        ≡ some (r, p'))
      × (r.net_amount ≤ zusd)
unfolding process_cross_chain_ingest
process_cross_chain_ingest-total zusd p =
    let (lp, pool, found) =
      inject_protocol_liquidity-some 0 (ingest_fee zusd) p.pool (omega arith) in
    elim (Bool-cases (zusd == 0)) [
      | inl nothing ↦ (
        record { net_amount = 0; fee_deducted = 0; lp_tokens_burned = 0 },
        p,
        ground (arith, nothing),
        omega arith,
      )
      | inr something ↦ (
        record {
          net_amount = zusd - ingest_fee zusd;
          fee_deducted = ingest_fee zusd;
          lp_tokens_burned = lp;
        },
        record p {
          pool = pool;
          total_ingest_fees_collected =
              saturating_add u128_max p.total_ingest_fees_collected (ingest_fee zusd);
          total_lp_tokens_burned = saturating_add u128_max p.total_lp_tokens_burned lp;
        },
        rw (something, found) refl,
        omega arith,
      )
    ]
