-- ===== src/Pmm/Alloc.antt =====
-- `pmm_alloc_page` and `pmm_free_page`.
use Prim.Native.Nat.{bit_and}
use mona_rpzero.Prelude.{
  ℕ, ◌+◌, ◌*◌, ◌/◌, ◌%◌, ◌^◌, ◌<◌, ◌≡◌, refl, ◌∙◌, ◌≢◌, Bool, true, false, ◌==◌, ==_ne,
  if◌then◌else◌, arith, ℕ_discrete, inl, inr, ◌⊎◌, leb, ltb, not, ◌||◌, add64, sub64, page_offset,
  if_cases, first, first-IsFirst, first-none, Option, none, some, sum_below-zero,
}
use mona_rpzero.Pmm.{Pmm, bit_test, alloc_page, free_page, drop_page}
use mona_rpzero.Pmm.Invariant.{
  IsValid, SameRange, in_use, refl-SameRange, Changed, mark_lem, marked, drop_page_lem, count_free,
  free_bit, free-le-total,
}

-- Page `idx` was free, the first such, and its address is `pa`; now it is in use.
pub record Allocates (p q : Pmm) (pa idx : ℕ) : Type 0 where
  pub inside : idx < p.total_pages
  pub was_free : in_use p idx ≡ false
  pub lowest : (j : ℕ) → j < idx → in_use p j ≡ true
  pub address : pa ≡ p.base + idx * 4096
  pub counter : q.free_pages + 1 ≡ p.free_pages
  pub changed : Changed p q idx true

all_used :
    (p : Pmm) → IsValid p → ((j : ℕ) → j < p.total_pages → in_use p j ≡ true) → p.free_pages ≡ 0
unfolding count_free
all_used p v used =
    v.counted ∙ sum_below-zero (free_bit p.bitmap) p.total_pages (λ j h. rw (used j h) refl)

not-false : (b : Bool) → not b ≡ false → b ≡ true
not-false b h = ground arith

not-true : (b : Bool) → not b ≡ true → b ≡ false
not-true b h = ground arith

allocated :
    (p : Pmm) (o : Option ℕ)
    → IsValid p
    → p.free_pages ≢ 0
    → first (λ idx. not (bit_test p.bitmap idx)) 0 p.total_pages ≡ o
    → let (q, pa) = elim o as (λ _. Pmm × ℕ) [
      | none ↦ (p, 0)
      | some idx ↦ (marked p idx, add64 p.base (idx * 4096))
    ] in
      (idx : ℕ) × Allocates p q pa idx
allocated p none v ne e = absurd (
    ne (
      all_used p v
        (λ j h. not-false _ (first-none _ 0 p.total_pages e j (omega arith) (omega arith)))))
allocated p (some idx) v ne e =
    let f = first-IsFirst (λ i. not (bit_test p.bitmap i)) 0 p.total_pages e in
    let lt : idx < p.total_pages = omega (arith, f.below) in
    let free = not-true (in_use p idx) f.passes in
    let m = mark_lem p idx v lt free in
    (
      idx,
      record {
        inside = lt;
        was_free = free;
        lowest = λ j h. not-false _ (f.skipped j (omega arith) h);
        address = omega (arith, v.top, v.span);
        counter = omega (arith, m.0);
        changed = m.1;
      },
    )

some_left :
    (p : Pmm) → IsValid p → p.free_pages ≢ 0 → (p.free_pages == 0 || p.total_pages == 0) ≡ false
some_left p v ne = ground (arith, free-le-total p v)

-- `pmm_alloc_page` on a well-formed allocator: if no page is free by the counter, it returns 0 and
-- changes nothing; otherwise it takes the lowest free page of the bitmap, returns that page's
-- address, lowers the counter by one and changes no other page.
pub alloc_page-Allocates :
    (p : Pmm)
    → IsValid p
    → let (q, pa) = alloc_page p in
      ((p.free_pages ≡ 0) × (q ≡ p) × (pa ≡ 0)) ⊎ ((idx : ℕ) × Allocates p q pa idx)
unfolding alloc_page
alloc_page-Allocates p v = elim (ℕ_discrete p.free_pages 0) [
  | yes e ↦ inl (e, simp e refl, simp e refl)
  | no ne ↦ rw (some_left p v ne) (inr (allocated p _ v ne refl))
]

-- What `pmm_free_page` does to the page that starts at `pa`.
pub record Frees (p q : Pmm) (pa : ℕ) : Type 0 where
  pub valid : IsValid q
  pub range : SameRange p q
  pub page :
      (j : ℕ)
      → j < p.total_pages
      → in_use q j ≡ (if pa == p.base + j * 4096 then false else in_use p j)

Frees-none :
    (p : Pmm) (pa : ℕ)
    → IsValid p
    → ((j : ℕ) → j < p.total_pages → pa ≢ p.base + j * 4096)
    → Frees p p pa
Frees-none p pa v no_page = record {
  valid = v;
  range = refl-SameRange p;
  page = λ j h. rw (==_ne pa (p.base + j * 4096) (no_page j h)) refl;
}

Frees-one :
    {p q : Pmm} (pa idx : ℕ) → pa ≡ p.base + idx * 4096 → Changed p q idx false → Frees p q pa
Frees-one {p} {q} pa idx at c = record {
  valid = c.valid;
  range = c.range;
  page = λ j h. ground (arith, c.page j);
}

-- `pmm_free_page` on a well-formed allocator marks the page that starts at the address as free, if
-- the address is one of a page of the memory; it changes no other page, and at any other address it
-- changes nothing. The counter agrees with the bitmap afterwards, also after a double free.
pub free_page-Frees : (p : Pmm) (pa : ℕ) → IsValid p → pa < 2 ^ 64 → Frees p (free_page p pa) pa
unfolding free_page
free_page-Frees p pa v small =
    if_cases (λ q. Frees p q pa) (p.total_pages == 0)
      (λ e. Frees-none p pa v (λ j h at. ground arith))
      (λ ne.
        if_cases (λ q. Frees p q pa) (ltb pa p.base || leb (add64 p.base p.size) pa)
          (λ out. Frees-none p pa v (λ j h at. ground (arith, v.span, v.top)))
          (λ inside.
            if_cases (λ q. Frees p q pa) (not (bit_and pa 4095 == 0))
              (λ odd. Frees-none p pa v (λ j h at. ground (arith, v.aligned, page_offset pa)))
              (λ even. page_found (ground (arith, page_offset pa)) inside)))
  where
    idx : ℕ
    idx = sub64 pa p.base / 4096

    page_found :
        pa % 4096 ≡ 0
        → (ltb pa p.base || leb (add64 p.base p.size) pa) ≡ false
        → Frees p (drop_page p idx) pa
    page_found even inside =
        Frees-one pa idx (ground (arith, v.aligned, v.top, v.span))
          (drop_page_lem p idx v (ground (arith, v.aligned, v.top, v.span)))
