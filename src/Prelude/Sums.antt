-- ===== src/Prelude/Sums.antt =====
-- Sums over the first `n` indices of a table: what counters such as reference counts add up to.
use Prim.Native.Nat.{ℕ, zero, suc, ◌+◌, ◌≤◌, ◌<◌}
use mathlib.Core.Path.{◌≡◌, refl}
use mathlib.Core.Logic.{◌≢◌}
use mathlib.Core.Bool.{Bool}
use native.Mathlib.Omega.{arith}
use native.Mathlib.Decide.{ℕ_discrete}
use mona_rpzero.Prelude.Tests.{if◌then◌else◌}

unfoldable pub sum_below : (ℕ → ℕ) → ℕ → ℕ
sum_below f zero = 0
sum_below f (suc n) = sum_below f n + f n

pub sum_below_cong :
    (f g : ℕ → ℕ) (n : ℕ) → ((j : ℕ) → j < n → f j ≡ g j) → sum_below f n ≡ sum_below g n
unfolding sum_below
sum_below_cong f g zero h = refl
sum_below_cong f g (suc n) h =
    omega (arith, sum_below_cong f g n (λ j p. h j (omega arith)), h n (omega arith))

-- Two tables that differ at one index have sums that differ by as much.
pub sum_below_change :
    (f g : ℕ → ℕ) (n k : ℕ)
    → k < n
    → ((j : ℕ) → j ≢ k → f j ≡ g j)
    → sum_below f n + g k ≡ sum_below g n + f k
unfolding sum_below
sum_below_change f g zero k p h = absurd (omega arith)
sum_below_change f g (suc n) k p h = elim (ℕ_discrete k n) [
  | yes e ↦ rw e (omega (arith, sum_below_cong f g n (λ j q. h j (omega arith))))
  | no ne ↦ omega (arith, sum_below_change f g n k (omega arith) h, h n (λ e. ne (sym_ne e)))
]
  where
    sym_ne : n ≡ k → k ≡ n
    sym_ne e = omega arith

pub sum_below-zero : (f : ℕ → ℕ) (n : ℕ) → ((j : ℕ) → j < n → f j ≡ 0) → sum_below f n ≡ 0
unfolding sum_below
sum_below-zero f zero h = refl
sum_below-zero f (suc n) h =
    omega (arith, sum_below-zero f n (λ j p. h j (omega arith)), h n (omega arith))

-- No index holds more than the whole.
pub le-sum_below : (f : ℕ → ℕ) (n k : ℕ) → k < n → f k ≤ sum_below f n
unfolding sum_below
le-sum_below f zero k p = absurd (omega arith)
le-sum_below f (suc n) k p = elim (ℕ_discrete k n) [
  | yes e ↦ rw e (omega arith)
  | no ne ↦ omega (arith, le-sum_below f n k (omega arith))
]

-- How many of the first `n` indices pass.
unfoldable pub count_below : (ℕ → Bool) → ℕ → ℕ
unfolding sum_below
count_below p n = sum_below (λ i. if p i then 1 else 0) n
