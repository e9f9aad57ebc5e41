-- ===== src/Consensus/Emission/Sum.antt =====
-- emission.rs: the emission loop against the plain sum of the rewards of the blocks below a height.
use zentra_chain.Prelude.{
  ℕ, zero, suc, ◌+◌, ◌-◌, ◌*◌, ◌/◌, ◌≤◌, ◌<◌, ◌≡◌, refl, ltb, ◌==◌, if◌then◌else◌, arith,
  Bool-cases, ==_iff, inl, inr,
}
use Prim.Native.Nat.{min}
use native.Mathlib.Decide.{dec_lt}
use native.Mathlib.Nat.{mul-le-mul_left, mul-le-mul_right, add-div_right, div-eq_of_lt}
use zentra_chain.Prelude.Words
use zentra_chain.Prelude.Words.{u64_max, saturating_mul_exact}
use zentra_chain.Consensus.Emission.{EmissionSchedule, shr, emit_loop}

-- The loop without saturation and without its early exit.
pub plain : EmissionSchedule → ℕ → ℕ → ℕ → ℕ
plain s zero epoch r = 0
plain s (suc n) epoch r =
    min r s.halving_interval * shr s.initial_reward epoch
    + plain s n (epoch + 1) (r - min r s.halving_interval)

shr-add_one : (x n : ℕ) → shr x (n + 1) ≡ shr x n / 2
unfolding shr
shr-add_one x n = ground arith

pub plain_none : (s : EmissionSchedule) (n epoch : ℕ) → plain s n epoch 0 ≡ 0
unfolding plain
plain_none s zero epoch = refl
plain_none s (suc n) epoch =
    let m : min 0 s.halving_interval ≡ 0 = omega arith in
    let d : 0 - min 0 s.halving_interval ≡ 0 = omega arith in
    rw (d, m) (omega (arith, plain_none s n (epoch + 1)))

-- Once the reward is zero it stays zero.
plain_zero :
    (s : EmissionSchedule) (n epoch r : ℕ) → shr s.initial_reward epoch ≡ 0 → plain s n epoch r ≡ 0
unfolding plain
plain_zero s zero epoch r h = refl
plain_zero s (suc n) epoch r h =
    let next = r - min r s.halving_interval in
    let rest =
      plain_zero s n (epoch + 1) next (omega (arith, shr-add_one s.initial_reward epoch, h)) in
    rw (h, rest) (omega arith)

halves : (x : ℕ) → x / 2 * 2 ≤ x
halves x = omega arith

-- All the epochs from one on emit at most twice what that one emits.
pub plain-le :
    (s : EmissionSchedule) (n epoch r : ℕ)
    → plain s n epoch r ≤ 2 * (s.halving_interval * shr s.initial_reward epoch)
unfolding plain
plain-le s zero epoch r = omega arith
plain-le s (suc n) epoch r =
    let i = s.halving_interval in
    let x = shr s.initial_reward epoch in
    let half : i * shr s.initial_reward (epoch + 1) * 2 ≤ i * x =
      rw shr-add_one (grind (arith, mul-le-mul_left i (halves x))) in
    omega (
      arith,
      plain-le s n (epoch + 1) (r - min r i),
      mul-le-mul_right {m = min r i} {n = i} x (omega arith),
      half,
    )

quotient : (r i : ℕ) → 0 < i → i ≤ r → r / i ≡ (r - i) / i + 1
quotient r i h g =
    let e : r - i + i ≡ r = omega arith in
    let d : (r - i + i) / i ≡ (r - i) / i + 1 = add-div_right (r - i) h in rw e at d

-- One more block adds the reward of its epoch.
pub plain-add_one :
    (s : EmissionSchedule) (n epoch r : ℕ)
    → 0 < s.halving_interval
    → plain s n epoch (r + 1)
      ≡ plain s n epoch r
        + (if ltb (r / s.halving_interval) n
            then shr s.initial_reward (epoch + r / s.halving_interval)
            else 0)
unfolding plain
plain-add_one s zero epoch r h = ground arith
plain-add_one s (suc n) epoch r h = elim (dec_lt r s.halving_interval) [
  | yes below ↦
      let i = s.halving_interval in
      let m : min (r + 1) i ≡ r + 1 = omega arith in
      let m' : min r i ≡ r = omega arith in
      let d : r + 1 - (r + 1) ≡ 0 = omega arith in
      let d' : r - r ≡ 0 = omega arith in
      let q : r / i ≡ 0 = div-eq_of_lt below in
      let e : epoch + 0 ≡ epoch = omega arith in rw (m, m', d, d', q, e) (ground arith)
  | no above ↦
      let i = s.halving_interval in
      let m : min (r + 1) i ≡ i = omega arith in
      let m' : min r i ≡ i = omega arith in
      let d : r + 1 - i ≡ (r - i) + 1 = omega arith in
      let q : r / i ≡ (r - i) / i + 1 = quotient r i h (omega arith) in
      let e : epoch + ((r - i) / i + 1) ≡ epoch + 1 + (r - i) / i = omega arith in
      rw (m, m', d, q, e) (ground (arith, plain-add_one s n (epoch + 1) (r - i) h))
]

-- Where nothing overflows, the loop is the plain sum.
pub emit_loop-plain :
    (s : EmissionSchedule) (n epoch r sum : ℕ)
    → sum + plain s n epoch r ≤ u64_max
    → emit_loop s n epoch r sum ≡ sum + plain s n epoch r
unfolding emit_loop plain
emit_loop-plain s zero epoch r sum h = omega arith
emit_loop-plain s (suc n) epoch r sum h = elim (Bool-cases (r == 0)) [
  | inl done ↦
      let z : r ≡ 0 = (==_iff r 0).0 done in
      rw (done, z) (omega (arith, plain_none s (suc n) epoch))
  | inr more ↦ elim (Bool-cases (shr s.initial_reward epoch == 0)) [
    | inl done ↦
        let z : shr s.initial_reward epoch ≡ 0 = (==_iff _ 0).0 done in
        rw (more, done) (omega (arith, plain_zero s (suc n) epoch r z))
    | inr paid ↦
        let blocks = min r s.halving_interval in
        let reward = shr s.initial_reward epoch in
        let m = saturating_mul_exact u64_max blocks reward (omega arith) in
        let a = Words.saturating_add_exact u64_max sum (blocks * reward) (omega arith) in
        let ih =
          emit_loop-plain s n (epoch + 1) (r - blocks) (sum + blocks * reward) (omega arith) in
        rw (more, paid, m, a, ih) (omega arith)
  ]
]
