-- ===== src/Prelude/Results.antt =====
-- The kernel's return convention: a value, or -errno. A call that may fail returns a `Result`
-- beside the state that it leaves.
use Prim.Native.Nat.{ℕ}

pub data Result {ℓ} (A : Type ℓ) : Type ℓ where
  ok : A → Result A
  err : ℕ → Result A
