-- ===== src/Pmm/Invariant.antt =====
-- The invariant of the allocator: the counter agrees with the bitmap; and what one page's change does.
use mona_rpzero.Prelude.{
  ℕ, zero, suc, ◌+◌, ◌-◌, ◌*◌, ◌%◌, ◌^◌, ◌≤◌, ◌<◌, ◌≡◌, refl, ap, ◌≢◌, Bool, true, false, Table,
  ◌==◌, ==_self, ==_ne, if◌then◌else◌, arith, ℕ_discrete, sum_below, sum_below_change, Bool-cases,
  inl, inr, lt→ltb, lt→leb_false, add64,
}
use mona_rpzero.Pmm.{Pmm, bit_set, bit_clear, bit_test, take_page, drop_page}
use mona_rpzero.Pmm.Bitmap.{
  AreBytes, bit_set-AreBytes, bit_clear-AreBytes, bit_test-set, bit_test-clear,
}

-- Page `i` of the range is handed out or reserved.
abbrev pub in_use : Pmm → ℕ → Bool
in_use p i = bit_test p.bitmap i

abbrev pub free_bit : Table ℕ → ℕ → ℕ
free_bit m i = if bit_test m i then 0 else 1

-- The number of free pages by the bitmap.
unfoldable pub count_free : Pmm → ℕ
count_free p = sum_below (free_bit p.bitmap) p.total_pages

-- The last page ends below 2^64.
pub record IsValid (p : Pmm) : Type 0 where
  pub bytes : AreBytes p.bitmap
  pub counted : p.free_pages ≡ count_free p
  pub bounded : p.total_pages ≤ 262144
  pub span : p.size ≡ p.total_pages * 4096
  pub aligned : p.base % 4096 ≡ 0
  pub top : p.base + p.size + 4096 ≤ 2 ^ 64

-- The same memory range.
pub record SameRange (p q : Pmm) : Type 0 where
  pub base : q.base ≡ p.base
  pub size : q.size ≡ p.size
  pub total : q.total_pages ≡ p.total_pages

pub refl-SameRange : (p : Pmm) → SameRange p p
refl-SameRange p = omega arith

pub trans-SameRange : {p q r : Pmm} → SameRange p q → SameRange q r → SameRange p r
trans-SameRange a b = omega arith

module _ (m m' : Table ℕ) (idx j : ℕ) (u : Bool) where
  free_bit_ne :
      bit_test m' j ≡ (if j == idx then u else bit_test m j)
      → j ≢ idx
      → free_bit m j ≡ free_bit m' j
  free_bit_ne h ne = ground arith

  free_bit_self :
      bit_test m' idx ≡ (if idx == idx then u else bit_test m idx)
      → free_bit m' idx ≡ (if u then 0 else 1)
  free_bit_self h = ground arith

-- The count moves with the one page that changes.
module _ (m : Table ℕ) (total idx : ℕ) (v : AreBytes m) (lt : idx < total) where
  pub count-set :
      bit_test m idx ≡ false
      → sum_below (free_bit m) total ≡ sum_below (free_bit (bit_set m idx)) total + 1
  count-set free = omega (
    arith,
    sum_below_change (free_bit m) (free_bit (bit_set m idx)) total idx lt
        (λ j. free_bit_ne m (bit_set m idx) idx j true (bit_test-set m idx j v)),
    ap (λ b. if◌then◌else◌ {A = ℕ} b 0 1) free,
    free_bit_self m (bit_set m idx) idx idx true (bit_test-set m idx idx v),
  )

  count-clear :
      bit_test m idx ≡ true
      → sum_below (free_bit (bit_clear m idx)) total ≡ sum_below (free_bit m) total + 1
  count-clear used = omega (
    arith,
    sum_below_change (free_bit m) (free_bit (bit_clear m idx)) total idx lt
        (λ j. free_bit_ne m (bit_clear m idx) idx j false (bit_test-clear m idx j v)),
    ap (λ b. if◌then◌else◌ {A = ℕ} b 0 1) used,
    free_bit_self m (bit_clear m idx) idx idx false (bit_test-clear m idx idx v),
  )

sum_ones : (f : ℕ → ℕ) (n : ℕ) → ((i : ℕ) → f i ≤ 1) → sum_below f n ≤ n
unfolding sum_below
sum_ones f zero h = omega arith
sum_ones f (suc n) h = omega (arith, sum_ones f n h, h n)

pub free-le-total : (p : Pmm) → IsValid p → p.free_pages ≤ p.total_pages
unfolding count_free
free-le-total p v =
    omega (arith, v.counted, sum_ones (free_bit p.bitmap) p.total_pages (λ i. ground arith))

-- Page `idx` is now as `used` says, no other page changed, and the counter still agrees.
pub record Changed (p q : Pmm) (idx : ℕ) (used : Bool) : Type 0 where
  pub valid : IsValid q
  pub range : SameRange p q
  pub page : (j : ℕ) → in_use q j ≡ (if j == idx then used else in_use p j)

unchanged :
    (p : Pmm) (idx : ℕ) (used : Bool) → IsValid p → in_use p idx ≡ used → Changed p p idx used
unchanged p idx used v e = record {
  valid = v;
  range = refl-SameRange p;
  page = λ j. elim (ℕ_discrete j idx) [
    | yes same ↦ rw (same, ==_self idx) e
    | no ne ↦ rw (==_ne j idx ne) refl
  ];
}

abbrev pub marked : Pmm → ℕ → Pmm
marked p idx = record p { bitmap = bit_set p.bitmap idx; free_pages = p.free_pages - 1 }

abbrev cleared : Pmm → ℕ → Pmm
cleared p idx = record p { bitmap = bit_clear p.bitmap idx; free_pages = add64 p.free_pages 1 }

module _ (p : Pmm) (idx : ℕ) (v : IsValid p) (lt : idx < p.total_pages) where
  pub mark_lem : in_use p idx ≡ false → (0 < p.free_pages) × Changed p (marked p idx) idx true
  unfolding count_free
  mark_lem free =
      let less = count-set p.bitmap p.total_pages idx v.bytes lt free in
      (
        omega (arith, v.counted),
        record {
          valid = record {
            bytes = bit_set-AreBytes p.bitmap idx v.bytes;
            counted = omega (arith, v.counted);
            bounded = v.bounded;
            span = v.span;
            aligned = v.aligned;
            top = v.top;
          };
          range = omega arith;
          page = λ j. bit_test-set p.bitmap idx j v.bytes;
        },
      )

  -- A page of the range that is taken is in use, and the counter falls if it was free.
  pub take_page_lem : Changed p (take_page p idx) idx true
  unfolding take_page
  take_page_lem = elim (Bool-cases (in_use p idx)) [
    | inl used ↦ rw used (unchanged p idx true v used)
    | inr free ↦ let m = mark_lem free in rw (free, lt→ltb 0 p.free_pages m.0) m.1
  ]

  clear_lem : in_use p idx ≡ true → Changed p (cleared p idx) idx false
  unfolding count_free
  clear_lem used =
      let more = count-clear p.bitmap p.total_pages idx v.bytes lt used in
      record {
        valid = record {
          bytes = bit_clear-AreBytes p.bitmap idx v.bytes;
          counted = omega (arith, v.counted, free-le-total p v, v.bounded);
          bounded = v.bounded;
          span = v.span;
          aligned = v.aligned;
          top = v.top;
        };
        range = omega arith;
        page = λ j. bit_test-clear p.bitmap idx j v.bytes;
      }

  pub drop_page_lem : Changed p (drop_page p idx) idx false
  unfolding drop_page
  drop_page_lem = elim (Bool-cases (in_use p idx)) [
    | inl used ↦ rw (lt→leb_false p.total_pages idx lt, used) (clear_lem used)
    | inr free ↦ rw (lt→leb_false p.total_pages idx lt, free) (unchanged p idx false v free)
  ]
