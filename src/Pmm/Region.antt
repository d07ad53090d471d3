-- ===== src/Pmm/Region.antt =====
-- `pmm_alloc_2mib_aligned` and `pmm_free_2mib_aligned`: 512 pages at a multiple of 512.
use Prim.Native.Nat.{bit_and}
use mona_rpzero.Prelude.{
  ℕ, zero, suc, ◌+◌, ◌-◌, ◌*◌, ◌/◌, ◌%◌, ◌^◌, ◌≤◌, ◌≡◌, refl, ◌∙◌, Bool, true, false, ◌&&◌, ◌||◌,
  Table, ◌==◌, ==_ne, if◌then◌else◌, if_cases, arith, ltb, leb, add64, sub64, region_mask,
  sum_below, ℕ_discrete, Bool-cases, inl, inr, ◌⊎◌, ltb_false→le, ltb→lt,
}
use mona_rpzero.Pmm.{Pmm, bit_set, bit_test, any_used, mark_all, find_region, alloc_2mib_aligned}
use mona_rpzero.Pmm.Bitmap.{AreBytes, bit_set-AreBytes, bit_test-set}
use mona_rpzero.Pmm.Invariant.{
  IsValid, SameRange, in_use, count_free, free_bit, count-set, free-le-total,
}

-- Page `j` is one of the `n` from `from` on.
abbrev pub within : ℕ → ℕ → ℕ → Bool
within from n j = leb from j && ltb j (from + n)

any_used-false :
    (n : ℕ) (m : Table ℕ) (start i : ℕ)
    → any_used n m start i ≡ false
    → (j : ℕ) → within (start + i) n j ≡ true
    → bit_test m j ≡ false
unfolding any_used
any_used-false zero m start i e j h = absurd (ground arith)
any_used-false (suc n) m start i e j h = elim (Bool-cases (j == start + i)) [
  | inl first ↦ let at : j ≡ start + i = ground arith in rw at (ground arith)
  | inr later ↦ any_used-false n m start (i + 1) (ground arith) j (ground arith)
]

record Marked (m m' : Table ℕ) (from n total : ℕ) : Type 0 where
  bytes : AreBytes m'
  bits : (j : ℕ) → bit_test m' j ≡ (if within from n j then true else bit_test m j)
  count : sum_below (free_bit m) total ≡ sum_below (free_bit m') total + n

mark_all-Marked :
    (n : ℕ) (m : Table ℕ) (start i total : ℕ)
    → AreBytes m
    → start + i + n ≤ total
    → ((j : ℕ) → within (start + i) n j ≡ true → bit_test m j ≡ false)
    → Marked m (mark_all n m start i) (start + i) n total
unfolding mark_all
mark_all-Marked zero m start i total v le free = record {
  bytes = v;
  bits = λ j. ground arith;
  count = omega arith;
}
mark_all-Marked (suc n) m start i total v le free =
    let rest : Marked (bit_set m (start + i)) (mark_all n (bit_set m (start + i)) start (i + 1))
        (start + (i + 1)) n total =
      mark_all-Marked n (bit_set m (start + i)) start (i + 1) total
        (bit_set-AreBytes m (start + i) v) (omega arith)
        (λ j h.
          bit_test-set m (start + i) j v
          ∙ rw (==_ne j (start + i) (ground arith)) (free j (ground arith))) in
    record {
      bytes = rest.bytes;
      bits = λ j. ground (arith, rest.bits j, bit_test-set m (start + i) j v);
      count = omega (
        arith,
        rest.count,
        count-set m total (start + i) v (omega arith) (free (start + i) (ground arith)),
      );
    }

-- 512 free pages from page `start` on, a multiple of 512, are in use now.
pub record AllocatesRegion (p q : Pmm) (pa start : ℕ) : Type 0 where
  pub aligned : start % 512 ≡ 0
  pub inside : start + 512 ≤ p.total_pages
  pub were_free : (j : ℕ) → within start 512 j ≡ true → in_use p j ≡ false
  pub address : pa ≡ p.base + start * 4096
  pub valid : IsValid q
  pub range : SameRange p q
  pub page : (j : ℕ) → in_use q j ≡ (if within start 512 j then true else in_use p j)
  pub counter : q.free_pages + 512 ≡ p.free_pages

region_found :
    (p : Pmm) (start : ℕ)
    → IsValid p
    → start % 512 ≡ 0
    → start + 512 ≤ p.total_pages
    → any_used 512 p.bitmap start 0 ≡ false
    → AllocatesRegion p
        (record p { bitmap = mark_all 512 p.bitmap start 0; free_pages = sub64 p.free_pages 512 })
        (add64 p.base (start * 4096))
        start
unfolding count_free
region_found p start v a le e =
    let free : (j : ℕ) → within start 512 j ≡ true → bit_test p.bitmap j ≡ false =
      λ j h. any_used-false 512 p.bitmap start 0 e j (ground arith) in
    let m =
      mark_all-Marked 512 p.bitmap start 0 p.total_pages v.bytes (omega arith)
        (λ j h. free j (ground arith)) in
    record {
      aligned = a;
      inside = le;
      were_free = free;
      address = omega (arith, v.span, v.top);
      valid = record {
        bytes = m.bytes;
        counted = omega (arith, v.counted, m.count, free-le-total p v, v.bounded);
        bounded = v.bounded;
        span = v.span;
        aligned = v.aligned;
        top = v.top;
      };
      range = omega arith;
      page = λ j. ground (arith, m.bits j);
      counter = omega (arith, v.counted, m.count, free-le-total p v, v.bounded);
    }

any_used-true :
    (n : ℕ) (m : Table ℕ) (start i : ℕ)
    → any_used n m start i ≡ true
    → ¬ ((j : ℕ) → within (start + i) n j ≡ true → bit_test m j ≡ false)
unfolding any_used
any_used-true zero m start i e free = cc
any_used-true (suc n) m start i e free = elim (Bool-cases (bit_test m (start + i))) [
  | inl used ↦ absurd (ground (arith, free (start + i)))
  | inr unused ↦ any_used-true n m start (i + 1) (ground arith) (λ j h. free j (ground arith))
]

-- The region at page `start` is part of the memory and wholly free.
pub record IsFreeRegion (p : Pmm) (start : ℕ) : Type 0 where
  pub aligned : start % 512 ≡ 0
  pub inside : start + 512 ≤ p.total_pages
  pub free : (j : ℕ) → within start 512 j ≡ true → in_use p j ≡ false

-- What the search returns: a region, or 0 and no change where none is free from page `from` on.
abbrev pub Searched : Pmm → Pmm → ℕ → ℕ → Type 0
Searched p q pa from =
    ((q ≡ p) × (pa ≡ 0) × ((s : ℕ) → from ≤ s → ¬ IsFreeRegion p s))
    ⊎ ((start : ℕ) × AllocatesRegion p q pa start)

-- The region at `aligned` is not free, and the search from the next one on has this outcome.
moved_on :
    {p q : Pmm} {pa : ℕ} (start aligned next : ℕ)
    → aligned ≡ (start + 511) / 512 * 512
    → next ≡ aligned + 512
    → any_used 512 p.bitmap aligned 0 ≡ true
    → Searched p q pa next
    → Searched p q pa start
moved_on {p} start aligned next at after busy (inr found) = inr found
moved_on {p} start aligned next at after busy (inl (same, zero_pa, none_from)) = inl (
  same,
  zero_pa,
  λ s le r. elim (ℕ_discrete s aligned) [
    | yes e ↦ any_used-true 512 p.bitmap aligned 0 busy (λ j h. r.free j (ground arith))
    | no ne ↦ none_from s (omega (arith, r.aligned)) r
  ],
)

find_region-Searched :
    (fuel : ℕ) (p : Pmm) (start : ℕ)
    → IsValid p
    → p.total_pages ≤ start + fuel
    → start ≤ p.total_pages + 512
    → let (q, pa) = find_region fuel p start in Searched p q pa start
unfolding find_region
find_region-Searched zero p start v enough low = inl (refl, refl, λ s le r. omega (arith, r.inside))
find_region-Searched (suc fuel) p start v enough low =
    let aligned = bit_and (add64 start 511) (2 ^ 64 - 512) in
    let at : aligned ≡ (start + 511) / 512 * 512 =
      region_mask (add64 start 511) (omega (arith, v.bounded)) ∙ omega (arith, v.bounded) in
    let P = λ (t : Pmm × ℕ). Searched p t.0 t.1 start in
    if_cases P (ltb p.total_pages (add64 start 512))
      (λ past. inl (refl, refl, λ s le r. omega (arith, r.inside, ltb→lt _ _ past)))
      (λ fits.
        if_cases P (ltb p.total_pages (add64 aligned 512))
          (λ past.
            inl (refl, refl, λ s le r. omega (arith, r.inside, r.aligned, at, ltb→lt _ _ past)))
          (λ inside.
            if_cases P (any_used 512 p.bitmap aligned 0)
              (λ busy.
                moved_on start aligned (add64 aligned 512) at (omega (arith, at, v.bounded)) busy (
                  find_region-Searched fuel p (add64 aligned 512) v (omega (arith, at, v.bounded))
                    (omega (arith, at, v.bounded, ltb_false→le _ _ inside))))
              (λ free. inr (
                aligned,
                region_found p aligned v (omega (arith, at))
                    (omega (arith, at, v.bounded, ltb_false→le _ _ inside)) free,
              ))))

region_free_count : (p : Pmm) (s : ℕ) → IsValid p → IsFreeRegion p s → 512 ≤ p.free_pages
unfolding count_free
region_free_count p s v r =
    let m =
      mark_all-Marked 512 p.bitmap s 0 p.total_pages v.bytes (omega (arith, r.inside))
        (λ j h. r.free j (ground arith)) in
    omega (arith, v.counted, m.count)

-- `pmm_alloc_2mib_aligned` on a well-formed allocator: either some 512 free pages that start at a
-- multiple of 512 are now in use, with the address of the first returned, the counter lower by 512
-- and all other pages as before; or no such region is free, it returns 0 and changes nothing. The
-- address 0 tells the second case only if it is not the address of a region, as with a base above 0.
pub alloc_2mib_aligned-Searched :
    (p : Pmm) → IsValid p → let (q, pa) = alloc_2mib_aligned p in Searched p q pa 0
unfolding alloc_2mib_aligned
alloc_2mib_aligned-Searched p v =
    if_cases (λ (t : Pmm × ℕ). Searched p t.0 t.1 0) (ltb p.free_pages 512 || p.total_pages == 0)
      (λ few. inl (refl, refl, λ s le r. ground (arith, r.inside, region_free_count p s v r)))
      (λ _. find_region-Searched p.total_pages p 0 v (omega arith) (omega arith))
