-- ===== src/Cpio/Hex.antt =====
-- The eight hexadecimal digits of a field: bounds, and the value of a field's printed form.
use mona_rpzero.Prelude.{
  ℕ, zero, suc, ◌+◌, ◌*◌, ◌%◌, ◌^◌, ◌≤◌, ◌<◌, ◌≡◌, true, Table, get, arith, subst,
}
use mona_rpzero.Cpio.{is_hex, hex_digit, hex_loop, all_hex, pad4}

pub hex_digit-lt : (c : ℕ) → is_hex c ≡ true → hex_digit c < 16
unfolding is_hex hex_digit
hex_digit-lt c h = ground arith

-- All the bytes that the loop has passed are digits.
pub all_hex-true :
    (n : ℕ) (mem : Table ℕ) (p : ℕ)
    → all_hex n mem p ≡ true
    → (i : ℕ) → i < n
    → is_hex (get mem (p + i)) ≡ true
unfolding all_hex
all_hex-true zero mem p h i lt = absurd (omega arith)
all_hex-true (suc n) mem p h zero lt = ground arith
all_hex-true (suc n) mem p h (suc i) lt =
    subst (λ k. is_hex (get mem k) ≡ true) (the_same p i)
      (all_hex-true n mem (p + 1) (ground arith) i (omega arith))
  where
    the_same : (a b : ℕ) → a + 1 + b ≡ a + (suc b)
    the_same a b = omega arith

pub hex_loop-lt :
    (n : ℕ) (mem : Table ℕ) (p v : ℕ)
    → ((i : ℕ) → i < n → is_hex (get mem (p + i)) ≡ true)
    → v < 2 ^ 32
    → hex_loop n mem p v < 2 ^ 32
unfolding hex_loop
hex_loop-lt zero mem p v h lt = lt
hex_loop-lt (suc n) mem p v h lt =
    hex_loop-lt n mem (p + 1) (v * 16 % 2 ^ 32 + hex_digit (get mem p))
      (λ i i_lt. subst (λ k. is_hex (get mem k) ≡ true) (shift p i) (h (i + 1) (omega arith)))
      (omega (arith, hex_digit-lt (get mem p) (first_digit (h 0 (omega arith)))))
  where
    shift : (a b : ℕ) → a + (b + 1) ≡ a + 1 + b
    shift a b = omega arith

    first_digit : is_hex (get mem (p + 0)) ≡ true → is_hex (get mem p) ≡ true
    first_digit e = subst (λ k. is_hex (get mem k) ≡ true) (omega arith) e

-- A field of a header whose bytes have passed the check is below 2 ^ 32.
pub field-lt :
    (mem : Table ℕ) (p off : ℕ)
    → all_hex 104 mem (p + 6) ≡ true
    → off ≤ 96
    → hex_loop 8 mem (p + 6 + off) 0 < 2 ^ 32
field-lt mem p off h small =
    hex_loop-lt 8 mem (p + 6 + off) 0
      (λ i lt.
        subst (λ k. is_hex (get mem k) ≡ true) (shift p off i)
          (all_hex-true 104 mem (p + 6) h (off + i) (omega arith)))
      (omega arith)
  where
    shift : (a b c : ℕ) → a + 6 + (b + c) ≡ a + 6 + b + c
    shift a b c = omega arith

pub pad4-lt : (n : ℕ) → pad4 n < 4
unfolding pad4
pad4-lt n = omega arith
