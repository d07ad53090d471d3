-- ===== src/Pmm/Bitmap.antt =====
-- The bitmap of pmm.c as a set of pages: what one bit operation does to every bit.
use mona_rpzero.Prelude.{
  ℕ, ◌/◌, ◌%◌, ◌<◌, ◌≡◌, refl, sym, ap, ◌∙◌, Bool, true, false, Table, get, put, get-put_self,
  get-put_ne, ◌==◌, ==_self, ==_ne, if◌then◌else◌, arith, ℕ_discrete, bit, bit-with_bit,
  bit-without_bit, with_bit-lt, without_bit-lt,
}
use mona_rpzero.Pmm.{bit_set, bit_clear, bit_test}

-- Every byte of the table is a `uint8_t`.
abbrev pub AreBytes : Table ℕ → Type 0
AreBytes m = (i : ℕ) → get m i < 256

put-AreBytes : (m : Table ℕ) (i b : ℕ) → AreBytes m → b < 256 → AreBytes (put m i b)
put-AreBytes m i b v h j = elim (ℕ_discrete j i) [
  | yes e ↦ rw (e, get-put_self m i b) h
  | no ne ↦ rw (get-put_ne m i j b ne) (v j)
]

pub bit_set-AreBytes : (m : Table ℕ) (i : ℕ) → AreBytes m → AreBytes (bit_set m i)
unfolding bit_set
bit_set-AreBytes m i v =
    put-AreBytes m (i / 8) _ v (with_bit-lt (get m (i / 8)) (i % 8) (v (i / 8)) (omega arith))

pub bit_clear-AreBytes : (m : Table ℕ) (i : ℕ) → AreBytes m → AreBytes (bit_clear m i)
unfolding bit_clear
bit_clear-AreBytes m i v =
    put-AreBytes m (i / 8) _ v (without_bit-lt (get m (i / 8)) (i % 8) (v (i / 8)) (omega arith))

-- Bit `j` after the byte of bit `i` is replaced.
bit_test-put :
    (m : Table ℕ) (i j b : ℕ) (v : Bool)
    → bit b (j % 8) ≡ (if j % 8 == i % 8 then v else bit (get m (i / 8)) (j % 8))
    → bit_test (put m (i / 8) b) j ≡ (if j == i then v else bit_test m j)
unfolding bit_test
bit_test-put m i j b v h = elim (ℕ_discrete (j / 8) (i / 8)) [
  | yes same ↦
      ap (λ y. bit y (j % 8)) (ap (get (put m (i / 8) b)) same ∙ get-put_self m (i / 8) b)
      ∙ h
      ∙ elim (ℕ_discrete j i) [
        | yes e ↦ rw e (rw (==_self (i % 8), ==_self i) refl)
        | no ne ↦
            rw (==_ne (j % 8) (i % 8) (omega arith), ==_ne j i ne)
              (ap (λ k. bit (get m k) (j % 8)) (sym same))
      ]
  | no other ↦
      ap (λ y. bit y (j % 8)) (get-put_ne m (i / 8) (j / 8) b other)
      ∙ rw (==_ne j i (λ e. other (ap (λ k. k / 8) e))) refl
]

pub bit_test-set :
    (m : Table ℕ) (i j : ℕ)
    → AreBytes m
    → bit_test (bit_set m i) j ≡ (if j == i then true else bit_test m j)
unfolding bit_set
bit_test-set m i j v =
    bit_test-put m i j _ true
      (bit-with_bit (get m (i / 8)) (i % 8) (j % 8) (v (i / 8)) (omega arith) (omega arith))

pub bit_test-clear :
    (m : Table ℕ) (i j : ℕ)
    → AreBytes m
    → bit_test (bit_clear m i) j ≡ (if j == i then false else bit_test m j)
unfolding bit_clear
bit_test-clear m i j v =
    bit_test-put m i j _ false
      (bit-without_bit (get m (i / 8)) (i % 8) (j % 8) (v (i / 8)) (omega arith) (omega arith))
