-- ===== src/Consensus/Emission/Supply.antt =====
-- emission.rs: the rewards of the blocks below a height, the emitted supply and the maximum supply.
use zentra_chain.Prelude.{ℕ, zero, suc, ◌+◌, ◌*◌, ◌/◌, ◌≤◌, ◌<◌, ◌≡◌, ltb, if◌then◌else◌, arith}
use Prim.Native.Nat.{min}
use zentra_chain.Prelude.Words.{u64_max}
use zentra_chain.Types.{NetworkType, max_supply_zents, max_halvings, halving_interval}
use zentra_chain.Consensus.Emission.{
  EmissionSchedule, new, shr, total_emitted_at_height, block_reward,
}
use zentra_chain.Consensus.Emission.Sum.{
  plain, plain_none, plain-le, plain-add_one, emit_loop-plain,
}

-- The schedule's interval is positive, and its whole emission fits in a u64.
pub record IsSound (s : EmissionSchedule) : Type 0 where
  pub interval : 0 < s.halving_interval
  pub fits : 2 * (s.halving_interval * s.initial_reward) ≤ u64_max

-- What the miners of the blocks below a height were paid.
unfoldable pub rewards_below : EmissionSchedule → ℕ → ℕ
rewards_below s zero = 0
rewards_below s (suc h) = rewards_below s h + block_reward s h

total_emitted_lem :
    (s : EmissionSchedule) (h : ℕ)
    → IsSound s
    → total_emitted_at_height s h ≡ min (plain s max_halvings 0 h) s.max_supply
unfolding total_emitted_at_height shr
total_emitted_lem s h v =
    let e =
      emit_loop-plain s max_halvings 0 h 0 (omega (arith, plain-le s max_halvings 0 h, v.fits)) in
    rw e (omega arith)

-- One more block raises the emitted supply by that block's reward.
pub total_emitted-step :
    (s : EmissionSchedule) (h : ℕ)
    → IsSound s
    → total_emitted_at_height s (h + 1) ≡ total_emitted_at_height s h + block_reward s h
unfolding block_reward
total_emitted-step s h v =
    let e : 0 + h / s.halving_interval ≡ h / s.halving_interval = omega arith in
    let step = rw e at (plain-add_one s max_halvings 0 h v.interval) in
    rw (total_emitted_lem s h v, total_emitted_lem s (h + 1) v, step) (ground arith)

-- The rewards of all blocks below a height add up to the supply emitted there.
pub rewards-eq-emitted :
    (s : EmissionSchedule) (h : ℕ) → IsSound s → rewards_below s h ≡ total_emitted_at_height s h
unfolding rewards_below
rewards-eq-emitted s zero v =
    rw (total_emitted_lem s 0 v, plain_none s max_halvings 0) (omega arith)
rewards-eq-emitted s (suc h) v =
    let e : h + 1 ≡ suc h = omega arith in
    omega (arith, rewards-eq-emitted s h v, rw e at (total_emitted-step s h v))

pub new-IsSound : (n : NetworkType) → IsSound (new n)
unfolding new
new-IsSound n = record { interval = omega arith; fits = omega arith }

plain-new_le : (n : NetworkType) (h : ℕ) → plain (new n) max_halvings 0 h ≤ 4_999_999_999_406_400
unfolding new shr halving_interval
plain-new_le n h = omega (arith, plain-le (new n) max_halvings 0 h)

-- On every network, the rewards of all blocks below any height add up to the supply emitted there,
-- and stay below the maximum supply.
pub rewards-lt-max_supply :
    (n : NetworkType) (h : ℕ)
    → (rewards_below (new n) h ≡ total_emitted_at_height (new n) h)
      × (rewards_below (new n) h < max_supply_zents)
rewards-lt-max_supply n h =
    let e = rewards-eq-emitted (new n) h (new-IsSound n) in
    (e, omega (arith, e, total_emitted_lem (new n) h (new-IsSound n), plain-new_le n h))

-- On every network the supply cap never cuts a reward: a block's reward is the initial reward
-- halved once for each whole interval below it.
pub block_reward-new :
    (n : NetworkType) (h : ℕ)
    → block_reward (new n) h ≡ (
        if ltb (h / halving_interval n) max_halvings
        then shr (new n).initial_reward (h / halving_interval n)
        else 0)
unfolding block_reward new
block_reward-new n h =
    let v = new-IsSound n in
    let i = halving_interval n in
    let e : 0 + h / i ≡ h / i = omega arith in
    let step = rw e at (plain-add_one (new n) max_halvings 0 h v.interval) in
    ground (arith, step, total_emitted_lem (new n) h v, plain-new_le n (h + 1))
