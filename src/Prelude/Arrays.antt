-- ===== src/Prelude/Arrays.antt =====
-- A fixed array of the kernel: its elements by index, behind `get` and `put`. An index out of the
-- array's bounds stands for memory that the C code must not touch; each model checks its index where
-- the code does.
use Prim.Native.Nat.{ℕ, zero, suc, ◌+◌}
use mathlib.Core.Path.{◌≡◌, refl, sym, ap, subst, fun_ext}
use mathlib.Core.Logic.{◌≢◌}
use mathlib.Core.List.{List, [], ◌∷◌}
use native.Mathlib.Omega.{arith}
use native.Mathlib.Decide.{ℕ_discrete}
use mona_rpzero.Prelude.Tests.{◌==◌, ==_self, ==_ne, ltb, if◌then◌else◌}
use mona_rpzero.Prelude.Lists.{length}

pub data Table {ℓ} (A : Type ℓ) : Type ℓ where
  table : (ℕ → A) → Table A

module _ {ℓ} {A : Type ℓ} where
  unfoldable pub get : Table A → ℕ → A
  get (table t) i = t i

  -- t[i] = v
  unfoldable pub put : Table A → ℕ → A → Table A
  put (table t) i v = table (λ j. if j == i then v else t j)

  -- for (i = 0; i < n; i++) t[i] = f(t[i])
  unfoldable pub for_below : ℕ → (A → A) → Table A → Table A
  for_below n f (table t) = table (λ i. if ltb i n then f (t i) else t i)

  pub get-put :
      (t : Table A) (i j : ℕ) (v : A) → get (put t i v) j ≡ (if j == i then v else get t j)
  unfolding get put
  get-put (table t) i j v = refl

  pub get-put_self : (t : Table A) (i : ℕ) (v : A) → get (put t i v) i ≡ v
  unfolding get put
  get-put_self (table t) i v = ground arith

  pub get-put_ne : (t : Table A) (i j : ℕ) (v : A) → j ≢ i → get (put t i v) j ≡ get t j
  unfolding get put
  get-put_ne (table t) i j v h = ground arith

  pub get-for_below :
      (n : ℕ) (f : A → A) (t : Table A) (i : ℕ)
      → get (for_below n f t) i ≡ (if ltb i n then f (get t i) else get t i)
  unfolding get for_below
  get-for_below n f (table t) i = refl

  -- the `n` entries from `i` on
  unfoldable pub slice : Table A → ℕ → ℕ → List A
  slice t i zero = []
  slice t i (suc n) = get t i ∷ slice t (i + 1) n

  pub length-slice : (t : Table A) (i n : ℕ) → length (slice t i n) ≡ n
  unfolding slice
  length-slice t i zero = refl
  length-slice t i (suc n) = omega (arith, length-slice t (i + 1) n)

  -- Writing what is there, and writing twice.
  pub put-get : (t : Table A) (i : ℕ) (v : A) → get t i ≡ v → put t i v ≡ t
  unfolding get put
  put-get (table t) i v e = ap table (fun_ext (λ j. go j))
    where
      go : (j : ℕ) → (if j == i then v else t j) ≡ t j
      go j = elim (ℕ_discrete j i) [
        | yes same ↦ rw (same, ==_self i) (sym e)
        | no ne ↦ rw (==_ne j i ne) refl
      ]

  pub put-put : (t : Table A) (i : ℕ) (v w : A) → put (put t i v) i w ≡ put t i w
  unfolding put
  put-put (table t) i v w = ap table (fun_ext (λ j. go j))
    where
      go : (j : ℕ) → (if j == i then w else if j == i then v else t j) ≡ (if j == i then w else t j)
      go j = ground arith

  -- What holds of the new value, and of every other old one, holds of the table written.
  pub put_cases {κ} :
      (P : A → Type κ) (t : Table A) (i : ℕ) (v : A) (j : ℕ)
      → (j ≡ i → P v)
      → (j ≢ i → P (get t j))
      → P (get (put t i v) j)
  put_cases P t i v j new old = elim (ℕ_discrete j i) [
    | yes e ↦
        subst (λ k. P (get (put t i v) k)) (sym e) (subst P (sym (get-put_self t i v)) (new e))
    | no ne ↦ subst P (sym (get-put_ne t i j v ne)) (old ne)
  ]
