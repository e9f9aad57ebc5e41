-- ===== src/Prelude/Xor.antt =====
-- `^` on bytes.
use Prim.Native.Nat.{ℕ, zero, suc, ◌<◌, bit_xor}
use mathlib.Core.Path.{◌≡◌, refl}
use mathlib.Core.Bool.{Bool, true, ◌&&◌}
use native.Mathlib.Omega.{arith}
use zentra_chain.Prelude.Tests.{◌==◌, ==_iff}

-- Every number below `n` passes.
every_below : ℕ → (ℕ → Bool) → Bool
every_below zero p = true
every_below (suc n) p = p n && every_below n p

every_below-at : (n : ℕ) (p : ℕ → Bool) (x : ℕ) → every_below n p ≡ true → x < n → p x ≡ true
unfolding every_below
every_below-at zero p x h lt = absurd (omega arith)
every_below-at (suc n) p x h lt = ground (arith, every_below-at n p x)

xor_table : every_below 256 (λ x. every_below 256 (λ k. bit_xor (bit_xor x k) k == x)) ≡ true
unfolding every_below
xor_table = refl

-- Encrypting a byte twice with one key byte gives it back.
pub bit_xor-cancel : (x k : ℕ) → x < 256 → k < 256 → bit_xor (bit_xor x k) k ≡ x
bit_xor-cancel x k hx hk = (==_iff _ x).0 (
    every_below-at 256 (λ j. bit_xor (bit_xor x j) j == x) k
      (every_below-at 256 (λ y. every_below 256 (λ j. bit_xor (bit_xor y j) j == y)) x xor_table hx)
      hk)
