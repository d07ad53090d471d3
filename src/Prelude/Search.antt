-- ===== src/Prelude/Search.antt =====
-- `for (i = lo; i < hi; i++) if (p(i)) return i; return -1;`, with what it finds.
use Prim.Native.Nat.{ℕ, zero, suc, ◌+◌, ◌≤◌, ◌<◌}
use mathlib.Core.Path.{◌≡◌, refl}
use mathlib.Core.Logic.{inl, inr}
use mathlib.Core.Bool.{Bool, true, false}
use mathlib.Core.Option.{Option, none, some}
use native.Mathlib.Omega.{arith}
use native.Mathlib.Decide.{ℕ_discrete}
use mona_rpzero.Prelude.Tests.{if◌then◌else◌, Bool-cases}

-- The scan of the `n` indices from `i` on.
unfoldable pub first : (ℕ → Bool) → ℕ → ℕ → Option ℕ
first p i zero = none
first p i (suc n) = let rest = first p (i + 1) n in if p i then some i else rest

-- `r` is the least of the `n` indices from `i` on that passes.
pub record IsFirst (p : ℕ → Bool) (i n r : ℕ) : Type 0 where
  pub passes : p r ≡ true
  pub from : i ≤ r
  pub below : r < i + n
  pub skipped : (j : ℕ) → i ≤ j → j < r → p j ≡ false

skip :
    (p : ℕ → Bool) (i r : ℕ)
    → p i ≡ false
    → ((j : ℕ) → i + 1 ≤ j → j < r → p j ≡ false)
    → (j : ℕ) → i ≤ j
    → j < r
    → p j ≡ false
skip p i r miss rest j lo hi = elim (ℕ_discrete j i) [
  | yes e ↦ rw e miss
  | no ne ↦ rest j (omega arith) hi
]

module _ (p : ℕ → Bool) where
  pub first-IsFirst : (i n : ℕ) {r : ℕ} → first p i n ≡ some r → IsFirst p i n r
  unfolding first
  first-IsFirst i zero e = absurd (cc)
  first-IsFirst i (suc n) {r} e = elim (Bool-cases (p i)) [
    | inl hit ↦ record {
      passes = ground arith;
      from = ground arith;
      below = ground arith;
      skipped = λ j lo hi. absurd (ground arith);
    }
    | inr miss ↦
        let f : IsFirst p (i + 1) n r = first-IsFirst (i + 1) n (ground arith) in
        record {
          passes = f.passes;
          from = omega (arith, f.from);
          below = omega (arith, f.below);
          skipped = skip p i r miss f.skipped;
        }
  ]

  -- Nothing is found only where nothing passes.
  pub first-none : (i n : ℕ) → first p i n ≡ none → (j : ℕ) → i ≤ j → j < i + n → p j ≡ false
  unfolding first
  first-none i zero e j lo hi = absurd (omega arith)
  first-none i (suc n) e j lo hi = elim (Bool-cases (p i)) [
    | inl hit ↦ absurd (ground arith)
    | inr miss ↦
        skip p i (i + suc n) miss (λ k a b. first-none (i + 1) n (ground arith) k a (omega arith)) j
          lo hi
  ]

-- The scan finds the least index that passes, if the one given is that.
pub first-eq-some : (p : ℕ → Bool) (i n r : ℕ) → IsFirst p i n r → first p i n ≡ some r
unfolding first
first-eq-some p i zero r f = absurd (omega (arith, f.from, f.below))
first-eq-some p i (suc n) r f = elim (ℕ_discrete r i) [
  | yes e ↦ rw (e, rw e at f.passes) refl
  | no ne ↦ rw (f.skipped i (omega arith) (omega (arith, f.from))) (
      first-eq-some p (i + 1) n r (record {
        passes = f.passes;
        from = omega (arith, f.from);
        below = omega (arith, f.below);
        skipped = λ j lo hi. f.skipped j (omega arith) hi;
      }))
]

pub first-eq-none :
    (p : ℕ → Bool) (i n : ℕ) → ((j : ℕ) → i ≤ j → j < i + n → p j ≡ false) → first p i n ≡ none
unfolding first
first-eq-none p i zero h = refl
first-eq-none p i (suc n) h =
    rw (h i (omega arith) (omega arith))
      (first-eq-none p (i + 1) n (λ j lo hi. h j (omega arith) (omega arith)))

-- Where at most one index passes, the scan finds any index that does.
pub first_unique :
    (p : ℕ → Bool) (n r : ℕ)
    → r < n
    → p r ≡ true
    → ((j : ℕ) → j < n → p j ≡ true → j ≡ r)
    → first p 0 n ≡ some r
first_unique p n r lt hit only = first-eq-some p 0 n r (record {
  passes = hit;
  from = omega arith;
  below = omega arith;
  skipped = λ j lo hi. miss j hi;
})
  where
    miss : (j : ℕ) → j < r → p j ≡ false
    miss j hi = elim (Bool-cases (p j)) [
      | inl also ↦ absurd (omega (arith, only j (omega arith) also))
      | inr no_hit ↦ no_hit
    ]
