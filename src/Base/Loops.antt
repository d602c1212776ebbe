-- ===== src/Base/Loops.antt =====
-- The counted loop `for (i = from; i < from + n; i++)`, and its rules.
use Prim.Native.Nat.{ℕ, zero, suc, ◌+◌, ◌<◌, ◌≤◌}
use mathlib.Core.Path.{◌≡◌}
use native.Mathlib.Omega.{arith}

unfoldable pub for_from {ℓ} : {S : Type ℓ} → ℕ → ℕ → (ℕ → S → S) → S → S
for_from zero i body s = s
for_from (suc n) i body s = for_from n (i + 1) body (body i s)

-- An invariant of the loop's state, which may name the index.
pub for_from_inv {ℓ κ} :
    {S : Type ℓ} (P : ℕ → S → Type κ) (body : ℕ → S → S) (n i : ℕ) (s : S)
    → ((j : ℕ) (t : S) → i ≤ j → j < i + n → P j t → P (j + 1) (body j t))
    → P i s
    → P (i + n) (for_from n i body s)
unfolding for_from
for_from_inv P body zero i s keep h = rw (zero_right i) h
  where
    zero_right : (i : ℕ) → i + 0 ≡ i
    zero_right i = omega arith
for_from_inv P body (suc n) i s keep h = rw (shift i n) (
    for_from_inv P body n (i + 1) (body i s) (λ j t lo hi p. keep j t (omega arith) (omega arith) p)
      (keep i s (omega arith) (omega arith) h))
  where
    shift : (i n : ℕ) → i + suc n ≡ i + 1 + n
    shift i n = omega arith
