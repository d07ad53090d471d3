-- ===== src/Pmm/Reserve.antt =====
-- `reserve_range`: which pages it takes from the allocator.
use mona_rpzero.Prelude.{
  ℕ, zero, suc, ◌+◌, ◌-◌, ◌*◌, ◌/◌, ◌^◌, ◌≤◌, ◌<◌, ◌≡◌, refl, ap, ◌∙◌, Bool, true, false,
  if◌then◌else◌, arith, dec_lt, leb, ltb, lt→ltb, lt→leb_false, le→leb, le→ltb_false, ◌&&◌, add64,
  sub64, page_mask,
}
use mona_rpzero.Pmm.{Pmm, take_page, reserve_loop, reserve_range, align_up, align_down}
use mona_rpzero.Pmm.Invariant.{
  IsValid, SameRange, in_use, refl-SameRange, trans-SameRange, Changed, take_page_lem,
}

-- The pages from `k` up to `m` are in use now, and nothing else changed.
record Marks (p q : Pmm) (k m : ℕ) : Type 0 where
  valid : IsValid q
  range : SameRange p q
  page : (j : ℕ) → in_use q j ≡ (if leb k j && ltb j m then true else in_use p j)

Marks-none : (p : Pmm) (k m : ℕ) → IsValid p → m ≤ k → Marks p p k m
Marks-none p k m v h = record { valid = v; range = refl-SameRange p; page = λ j. ground arith }

Marks-first :
    {p q r : Pmm} (k m : ℕ) → k < m → Changed p q k true → Marks q r (k + 1) m → Marks p r k m
Marks-first {p} {q} {r} k m lt c s = record {
  valid = s.valid;
  range = trans-SameRange c.range s.range;
  page = λ j. ground (arith, c.page j, s.page j);
}

reserve_loop-Marks :
    (fuel : ℕ) (p : Pmm) (k m pa e : ℕ)
    → IsValid p
    → m ≤ p.total_pages
    → m < fuel + k
    → pa ≡ p.base + k * 4096
    → e ≡ p.base + m * 4096
    → Marks p (reserve_loop fuel p pa e) k m
unfolding reserve_loop
reserve_loop-Marks zero p k m pa e v le more pa_at e_at = Marks-none p k m v (omega arith)
reserve_loop-Marks (suc fuel) p k m pa e v le more pa_at e_at = elim (dec_lt k m) [
  | yes lt ↦
      let idx : sub64 pa p.base / 4096 ≡ k = omega (arith, v.top, v.span) in
      let next : add64 pa 4096 ≡ p.base + (k + 1) * 4096 = omega (arith, v.top, v.span) in
      let c = take_page_lem p k v (omega arith) in
      rw (lt→ltb pa e (omega arith), idx, lt→leb_false p.total_pages k (omega arith))
        (Marks-first k m lt c (
          reserve_loop-Marks fuel (take_page p k) (k + 1) m (add64 pa 4096) e c.valid
            (omega (arith, c.range.total)) (omega arith) (omega (arith, next, c.range.base))
            (omega (arith, e_at, c.range.base))))
  | no ge ↦ rw (le→ltb_false pa e (omega arith)) (Marks-none p k m v (omega arith))
]

-- Page `j` has a byte in common with the addresses from `start` up to `end`.
abbrev pub touches_at : ℕ → ℕ → ℕ → ℕ → Bool
touches_at base start end j =
    ltb start end && (ltb start (base + j * 4096 + 4096) && ltb (base + j * 4096) end)

abbrev pub touches : Pmm → ℕ → ℕ → ℕ → Bool
touches p = touches_at p.base

-- The effect of `reserve_range`.
pub record Reserves (p q : Pmm) (start end : ℕ) : Type 0 where
  pub valid : IsValid q
  pub range : SameRange p q
  pub page :
      (j : ℕ)
      → j < p.total_pages
      → in_use q j ≡ (if touches p start end j then true else in_use p j)

align_down_lem : (x : ℕ) → x < 2 ^ 64 → align_down x 4096 ≡ x / 4096 * 4096
align_down_lem x h = page_mask x h

align_up_lem : (x : ℕ) → x + 4096 ≤ 2 ^ 64 → align_up x 4096 ≡ (x + 4095) / 4096 * 4096
align_up_lem x h = page_mask (add64 x 4095) (omega arith) ∙ ap (λ y. y / 4096 * 4096) wraps
  where
    wraps : add64 x 4095 ≡ x + 4095
    wraps = omega arith

-- The loop's page numbers are those of the pages that the range touches.
same_test :
    (p : Pmm) (start end lo hi j : ℕ)
    → IsValid p
    → j < p.total_pages
    → lo ≡ (if ltb start p.base then p.base else start)
    → hi ≡ (if ltb (p.base + p.size) end then p.base + p.size else end)
    → lo < hi
    → start < end
    → (leb ((lo - p.base) / 4096) j && ltb j ((hi - p.base + 4095) / 4096)) ≡ touches p start end j
same_test p start end lo hi j v inside lo_at hi_at lt lt' = ground (arith, v.span)

-- The loop's bounds, once the range is cut to the memory [lo, hi).
clipped :
    (p : Pmm) (start end lo hi : ℕ)
    → IsValid p
    → lo ≡ (if ltb start p.base then p.base else start)
    → hi ≡ (if ltb (p.base + p.size) end then p.base + p.size else end)
    → lo < hi
    → start < end
    → Reserves p
        (reserve_loop (suc p.total_pages) p (align_down lo 4096) (align_up hi 4096))
        start
        end
clipped p start end lo hi v lo_at hi_at lt lt' =
    let below : hi ≤ p.base + p.size = ground arith in
    let above : p.base ≤ lo = ground arith in
    let k = (lo - p.base) / 4096 in
    let m = (hi - p.base + 4095) / 4096 in
    let s =
      reserve_loop-Marks (suc p.total_pages) p k m (align_down lo 4096) (align_up hi 4096) v
        (omega (arith, v.span)) (omega (arith, v.span))
        (align_down_lem lo (omega (arith, v.top)) ∙ omega (arith, v.aligned))
        (align_up_lem hi (omega (arith, v.top)) ∙ omega (arith, v.aligned)) in
    record {
      valid = s.valid;
      range = s.range;
      page = λ j inside.
          s.page j
          ∙ ap (λ b. if b then true else in_use p j)
              (same_test p start end lo hi j v inside lo_at hi_at lt lt');
    }

untouched :
    (p : Pmm) (start end : ℕ)
    → IsValid p
    → ((j : ℕ) → j < p.total_pages → touches p start end j ≡ false)
    → Reserves p p start end
untouched p start end v none_touched = record {
  valid = v;
  range = refl-SameRange p;
  page = λ j inside. rw (none_touched j inside) refl;
}

cut :
    (p : Pmm) (start end lo hi : ℕ)
    → IsValid p
    → lo ≡ (if ltb start p.base then p.base else start)
    → hi ≡ (if ltb (p.base + p.size) end then p.base + p.size else end)
    → start < end
    → Reserves p
        (if leb hi lo
          then p
          else reserve_loop (suc p.total_pages) p (align_down lo 4096) (align_up hi 4096))
        start
        end
cut p start end lo hi v lo_at hi_at lt = elim (dec_lt lo hi) [
  | yes inside ↦ rw (lt→leb_false hi lo inside) (clipped p start end lo hi v lo_at hi_at inside lt)
  | no outside ↦
      rw (le→leb hi lo (omega arith)) (untouched p start end v (λ j h. ground (arith, v.span)))
]

-- `reserve_range` takes exactly the pages of the memory that have a byte in the range: they are in
-- use afterwards, all other pages are as before, and the counter of free pages agrees.
pub reserve_range-Reserves :
    (p : Pmm) (start end : ℕ) → IsValid p → Reserves p (reserve_range p start end) start end
unfolding reserve_range
reserve_range-Reserves p start end v =
    let wraps : add64 p.base p.size ≡ p.base + p.size = omega (arith, v.top) in
    rw wraps (elim (dec_lt start end) [
      | no empty ↦
          rw (le→leb end start (omega arith)) (untouched p start end v (λ j inside. ground arith))
      | yes lt ↦ rw (lt→leb_false end start lt) (cut p start end _ _ v refl refl lt)
    ])
