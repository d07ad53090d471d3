-- ===== src/Prelude/Bits.antt =====
-- C's masks and single bits. `bit_and` and `bit_or` have no laws at variables but the recursion over
-- binary digits, from which the masks of the kernel follow; single bits of a byte are tabulated.
use Prim.Native.Nat.{
  ℕ, zero, suc, ◌+◌, ◌-◌, ◌*◌, ◌/◌, ◌%◌, ◌^◌, ◌≤◌, ◌<◌, min, bit_and, bit_or, digits,
  bit_and-bitwise,
}
use mathlib.Core.Path.{◌≡◌, refl, sym}
use mathlib.Core.Bool.{Bool, true, false, not, ◌&&◌}
use native.Mathlib.Omega.{arith}
use mona_rpzero.Prelude.Tests.{◌==◌, ltb, ltb→lt, if◌then◌else◌}

-- Conjunction over `fuel` binary digits; `bit_and a b` is that over `a` of them.
abbrev conj : ℕ → ℕ → ℕ → ℕ
conj = digits (λ b. zero) min

-- 2 ^ k, by recursion
abbrev pow2 : ℕ → ℕ
pow2 zero = 1
pow2 (suc k) = 2 * pow2 k

-- the number without its `j` lowest digits, and the number with `j` zeros behind it
abbrev halve : ℕ → ℕ → ℕ
halve zero x = x
halve (suc j) x = halve j (x / 2)

abbrev double : ℕ → ℕ → ℕ
double zero x = x
double (suc j) x = 2 * double j x

-- the number that the lowest `k` digits spell
abbrev low_digits : ℕ → ℕ → ℕ
low_digits zero x = 0
low_digits (suc k) x = 2 * low_digits k (x / 2) + x % 2

double-zero : (j : ℕ) → double j (halve j 0) ≡ 0
double-zero zero = refl
double-zero (suc j) = omega (arith, double-zero j)

low_digits-zero : (k : ℕ) → low_digits k 0 ≡ 0
low_digits-zero zero = refl
low_digits-zero (suc k) = omega (arith, low_digits-zero k)

-- A mask of `k` ones behind `j` zeros clears the lowest `j` digits, if the rest fits under the ones.
conj-mask :
    (fuel j k mask ones x : ℕ)
    → x ≤ fuel
    → mask ≡ double j ones
    → ones + 1 ≡ pow2 k
    → halve j x < pow2 k
    → conj fuel x mask ≡ double j (halve j x)
conj-mask zero j k mask ones zero h e o lt = sym (double-zero j)
conj-mask zero j k mask ones (suc x) h e o lt = elim h [ ]
conj-mask (suc fuel) j k mask ones zero h e o lt = sym (double-zero j)
conj-mask (suc fuel) zero zero mask ones (suc x) h e o lt = absurd (omega arith)
conj-mask (suc fuel) zero (suc k) mask ones (suc x) h e o lt = omega (
  arith,
  conj-mask fuel 0 k (mask / 2) (ones / 2) (suc x / 2) (omega arith) (omega arith) (omega arith)
      (omega arith),
)
conj-mask (suc fuel) (suc j) k mask ones (suc x) h e o lt =
    omega (arith, conj-mask fuel j k (mask / 2) ones (suc x / 2) (omega arith) (omega arith) o lt)

-- A mask of `k` ones keeps the lowest `k` digits.
conj-low : (fuel k mask x : ℕ) → x ≤ fuel → mask + 1 ≡ pow2 k → conj fuel x mask ≡ low_digits k x
conj-low zero k mask zero h o = sym (low_digits-zero k)
conj-low zero k mask (suc x) h o = elim h [ ]
conj-low (suc fuel) k mask zero h o = sym (low_digits-zero k)
conj-low (suc fuel) zero mask (suc x) h o =
    let none_left : mask ≡ 0 = omega arith in
    rw none_left (omega (arith, clears fuel (suc x / 2) (omega arith)))
  where
    clears : (fuel x : ℕ) → x ≤ fuel → conj fuel x 0 ≡ 0
    clears zero zero h = refl
    clears zero (suc x) h = elim h [ ]
    clears (suc fuel) zero h = refl
    clears (suc fuel) (suc x) h = omega (arith, clears fuel (suc x / 2) (omega arith))
conj-low (suc fuel) (suc k) mask (suc x) h o =
    omega (arith, conj-low fuel k (mask / 2) (suc x / 2) (omega arith) (omega arith))

-- v & ~(4096 - 1) over 64 bits
pub page_mask : (x : ℕ) → x < 2 ^ 64 → bit_and x (2 ^ 64 - 4096) ≡ x / 4096 * 4096
page_mask x h = omega (
  arith,
  bit_and-bitwise x (2 ^ 64 - 4096),
  conj-mask x 12 52 (2 ^ 64 - 4096) (2 ^ 52 - 1) x (omega arith) refl refl (omega arith),
)

-- v & ~(512 - 1) over 64 bits
pub region_mask : (x : ℕ) → x < 2 ^ 64 → bit_and x (2 ^ 64 - 512) ≡ x / 512 * 512
region_mask x h = omega (
  arith,
  bit_and-bitwise x (2 ^ 64 - 512),
  conj-mask x 9 55 (2 ^ 64 - 512) (2 ^ 55 - 1) x (omega arith) refl refl (omega arith),
)

-- v & ~(16 - 1) over 64 bits
pub line_mask : (x : ℕ) → x < 2 ^ 64 → bit_and x (2 ^ 64 - 16) ≡ x / 16 * 16
line_mask x h = omega (
  arith,
  bit_and-bitwise x (2 ^ 64 - 16),
  conj-mask x 4 60 (2 ^ 64 - 16) (2 ^ 60 - 1) x (omega arith) refl refl (omega arith),
)

-- v & (4096 - 1)
pub page_offset : (x : ℕ) → bit_and x 4095 ≡ x % 4096
page_offset x =
    omega (arith, bit_and-bitwise x 4095, conj-low x 12 4095 x (omega arith) (omega arith))

-- v & (2 MiB - 1)
pub region_offset : (x : ℕ) → bit_and x 0x1fffff ≡ x % 0x200000
region_offset x =
    omega (arith, bit_and-bitwise x 0x1fffff, conj-low x 21 0x1fffff x (omega arith) (omega arith))

-- Bit `k` of a byte, and the byte with that bit set or cleared: `b |= 1 << k`, `b &= ~(1 << k)`.
abbrev pub bit : ℕ → ℕ → Bool
bit b k = b / 2 ^ k % 2 == 1

abbrev pub with_bit : ℕ → ℕ → ℕ
with_bit b k = bit_or b (2 ^ k)

abbrev pub without_bit : ℕ → ℕ → ℕ
without_bit b k = bit_and b (255 - 2 ^ k)

every_below : ℕ → (ℕ → Bool) → Bool
every_below zero ok = true
every_below (suc n) ok = ok n && every_below n ok

-- A test that passes at every number below `n` passes at each.
holds_below : (n : ℕ) (ok : ℕ → Bool) (i : ℕ) → every_below n ok ≡ true → i < n → ok i ≡ true
unfolding every_below
holds_below zero ok i all lt = elim lt [ ]
holds_below (suc n) ok i all lt = ground (arith, holds_below n ok i)

abbrev same : Bool → Bool → Bool
same true b = b
same false b = not b

same_eq : (a b : Bool) → same a b ≡ true → a ≡ b
same_eq a b h = ground arith

abbrev set_agrees : ℕ → ℕ → ℕ → Bool
set_agrees b k j = same (bit (with_bit b k) j) (if j == k then true else bit b j)

abbrev clear_agrees : ℕ → ℕ → ℕ → Bool
clear_agrees b k j = same (bit (without_bit b k) j) (if j == k then false else bit b j)

abbrev set_in : ℕ → ℕ → Bool
set_in b k = ltb (with_bit b k) 256

abbrev clear_in : ℕ → ℕ → Bool
clear_in b k = ltb (without_bit b k) 256

abbrev one_bit : ℕ → ℕ → ℕ → Bool
one_bit b k j = (set_agrees b k j && clear_agrees b k j) && (set_in b k && clear_in b k)

abbrev bits_of : ℕ → Bool
bits_of b = every_below 8 (λ k. every_below 8 (one_bit b k))

byte_table : every_below 256 bits_of ≡ true
unfolding every_below
byte_table = refl

one_bit-true : (b k j : ℕ) → b < 256 → k < 8 → j < 8 → one_bit b k j ≡ true
one_bit-true b k j hb hk hj =
    holds_below 8 (one_bit b k) j
      (holds_below 8 (λ i. every_below 8 (one_bit b i)) k (holds_below 256 bits_of b byte_table hb)
        hk)
      hj

and_parts :
    (p q r s : Bool)
    → ((p && q) && (r && s)) ≡ true
    → (p ≡ true) × (q ≡ true) × (r ≡ true) × (s ≡ true)
and_parts p q r s h = ground arith

one_bit_parts :
    (b k j : ℕ) (hb : b < 256) (hk : k < 8) (hj : j < 8)
    → (set_agrees b k j ≡ true)
      × (clear_agrees b k j ≡ true)
      × (set_in b k ≡ true)
      × (clear_in b k ≡ true)
one_bit_parts b k j hb hk hj =
    and_parts (set_agrees b k j) (clear_agrees b k j) (set_in b k) (clear_in b k)
      (one_bit-true b k j hb hk hj)

module _ (b k j : ℕ) (hb : b < 256) (hk : k < 8) (hj : j < 8) where
  pub bit-with_bit : bit (with_bit b k) j ≡ (if j == k then true else bit b j)
  bit-with_bit = same_eq (bit (with_bit b k) j) _ (one_bit_parts b k j hb hk hj).0

  pub bit-without_bit : bit (without_bit b k) j ≡ (if j == k then false else bit b j)
  bit-without_bit = same_eq (bit (without_bit b k) j) _ (one_bit_parts b k j hb hk hj).1

pub with_bit-lt : (b k : ℕ) → b < 256 → k < 8 → with_bit b k < 256
with_bit-lt b k hb hk = ltb→lt (with_bit b k) 256 (one_bit_parts b k 0 hb hk (omega arith)).2

pub without_bit-lt : (b k : ℕ) → b < 256 → k < 8 → without_bit b k < 256
without_bit-lt b k hb hk = ltb→lt (without_bit b k) 256 (one_bit_parts b k 0 hb hk (omega arith)).3
