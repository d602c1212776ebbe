-- ===== src/MacAddr/Bits.antt =====
-- `|` of numbers whose binary digits do not overlap is their sum.
use Prim.Native.Nat.{
  ℕ, zero, suc, ◌+◌, ◌*◌, ◌/◌, ◌^◌, ◌≤◌, ◌<◌, max, bit_or, digits, bit_or-bitwise,
}
use native.Mathlib.Nat.{mul_assoc, pow-suc}
use spp_tmp.Base.{◌≡◌, sym, ◌∙◌, arith}

-- The digits of the sum are those of `a`, at most `fuel` of them, below those of `b`.
below_shifted :
    (fuel k a b : ℕ) → a ≤ fuel → a < 2 ^ k → digits (λ y. y) max fuel a (b * 2 ^ k) ≡ a + b * 2 ^ k
below_shifted zero k zero b few small = omega arith
below_shifted zero k (suc a) b few small = absurd (omega arith)
below_shifted (suc fuel) k zero b few small = omega arith
below_shifted (suc fuel) zero (suc a) b few small = absurd (omega arith)
below_shifted (suc fuel) (suc k) (suc a) b few small =
    let p = pow-suc 2 k in
    let twice : b * 2 ^ suc k ≡ b * 2 ^ k * 2 = rw p (sym (mul_assoc b (2 ^ k) 2)) in
    let half : b * 2 ^ suc k / 2 ≡ b * 2 ^ k = omega (arith, twice) in
    let ih = below_shifted fuel k (suc a / 2) b (omega arith) (omega (arith, p)) in
    rw half (rw ih (omega (arith, twice)))

pub bit_or_disjoint : (k a b : ℕ) → a < 2 ^ k → bit_or a (b * 2 ^ k) ≡ a + b * 2 ^ k
bit_or_disjoint k a b h = bit_or-bitwise a (b * 2 ^ k) ∙ below_shifted a k a b (omega arith) h
