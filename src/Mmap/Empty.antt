-- ===== src/Mmap/Empty.antt =====
-- A length that wraps to no page: `sys_mmap` makes an empty area, on which the loop of
-- `proc_recompute_mmap_next` never ends.
use mona_rpzero.Prelude.{
  ℕ, zero, suc, ◌+◌, ◌-◌, ◌%◌, ◌^◌, ◌≤◌, ◌<◌, ◌≡◌, refl, sym, ap, ◌∙◌, true, false, Option, none,
  some, Table, get, put, first, first-eq-some, first-eq-none, not, sub64, add64, arith, subst,
  page_mask, Result, ok, err, if_cases, ltb, if◌then◌else◌, ◌==◌, ◌&&◌, ==_ne,
}
use mona_rpzero.Prelude.Errno
use mona_rpzero.Pmm.{align_up, align_down}
use mona_rpzero.Mmap.{
  Vma, Space, area, ends_at, recompute, free_vma, sys_mmap, allocate, search_down, place, tightened,
  no_file, flags_ok, lazy_bounds, proc_mmap_hi, heap_limit, heap_guard, finish_unmap, with_next,
  vma_overlaps, overlaps_at,
}
use mona_rpzero.Mmap.Areas.{proc_mmap_hi_lem}
use mona_rpzero.Mmap.Map.{IsValid, heap_limit-lt}
use mona_rpzero.Mmap.Search.{with_next-IsValid}

-- Any length of the last page rounds up to nothing.
rounds_to_zero : (len : ℕ) → 2 ^ 64 - 4095 ≤ len → len < 2 ^ 64 → align_up len 4096 ≡ 0
rounds_to_zero len lo hi = omega (arith, page_mask (add64 len 4095) (omega arith))

-- The first entry is an empty area at `top`.
abbrev pub EmptyAt : Table Vma → ℕ → Type 0
EmptyAt t top = get t 0 ≡ area top 0

finds :
    (t : Table Vma) (top : ℕ) → EmptyAt t top → top < 2 ^ 64 → first (ends_at t top) 0 32 ≡ some 0
finds t top e lt = first-eq-some (ends_at t top) 0 32 0 (record {
  passes = subst (λ (v : Vma). (v.used && add64 v.base v.len == top) ≡ true) (sym e) (ground arith);
  from = omega arith;
  below = omega arith;
  skipped = λ j lo hi. absurd (omega arith);
})

-- However many rounds the loop is given, it does not end.
pub recompute_hangs :
    (fuel : ℕ) (t : Table Vma) (top : ℕ)
    → EmptyAt t top
    → top < 2 ^ 64
    → recompute fuel t top ≡ none
unfolding recompute
recompute_hangs zero t top e lt = refl
recompute_hangs (suc fuel) t top e lt =
    rw (finds t top e lt, recompute)
      (ap (λ (v : Vma). recompute fuel t v.base) e ∙ recompute_hangs fuel t top e lt)

module _ (s : Space) (v : IsValid s) (unused : (i : ℕ) → i < 32 → (get s.vmas i).used ≡ false)
    (room : heap_limit s + heap_guard ≤ proc_mmap_hi s.stack_low) where
  abbrev ceiling : ℕ
  ceiling = proc_mmap_hi s.stack_low

  in_region : (0x400000 ≤ ceiling) × (ceiling ≤ 0x600000) × (ceiling % 4096 ≡ 0)
  in_region = proc_mmap_hi_lem s.stack_low v.stack

  no_overlap : vma_overlaps s.vmas ceiling 0 ≡ none
  unfolding vma_overlaps
  no_overlap =
      rw
        (
          first-eq-none (overlaps_at s.vmas ceiling (add64 ceiling 0)) 0 32
              (λ j lo j_lt. away j (omega arith)),
          vma_overlaps,
        )
        refl
    where
      away : (j : ℕ) → j < 32 → overlaps_at s.vmas ceiling (add64 ceiling 0) j ≡ false
      away j lt = rw (unused j lt) refl

  first_entry : free_vma s.vmas ≡ some 0
  unfolding free_vma
  first_entry =
      first-eq-some (λ i. not (get s.vmas i).used) 0 32 0
        (record {
          passes = rw (unused 0 (omega arith)) refl;
          from = omega arith;
          below = omega arith;
          skipped = λ j lo lt. absurd (omega arith);
        })

  placed :
      place s ceiling 0
      ≡ (record s { vmas = put s.vmas 0 (area ceiling 0); mmap_next = ceiling }, ok ceiling)
  unfolding place
  placed = rw (first_entry, place) refl

  abbrev with_empty : Space
  with_empty = record s { vmas = put s.vmas 0 (area ceiling 0); mmap_next = ceiling }

  abbrev Places : Option (Space × Result ℕ) → Type 0
  Places x = x ≡ some (with_empty, ok ceiling)

  limit_small : heap_limit s < 2 ^ 63 + 4096
  limit_small = heap_limit-lt s v

  at_ceiling :
      (fuel : ℕ)
      → Places (
          if ltb ceiling (add64 (heap_limit s) heap_guard)
          then some (s, err Errno.enomem)
          else elim (vma_overlaps s.vmas ceiling 0) [
            | none ↦ some (place s ceiling 0)
            | some ovb ↦ search_down fuel s 0 (align_down ovb 4096)
          ])
  at_ceiling fuel =
      if_cases Places (ltb ceiling (add64 (heap_limit s) heap_guard))
        (λ h. absurd (ground (arith, limit_small))) (λ _. rw no_overlap (ap some placed))

  -- The search places the empty area at the ceiling at once.
  searched_at : (fuel : ℕ) → Places (search_down (suc fuel) s 0 ceiling)
  unfolding search_down
  searched_at fuel =
      if_cases Places (ltb ceiling (add64 0x400000 0)) (λ h. absurd (ground (arith, in_region)))
        (λ _.
          subst
            (λ b. Places (
              if ltb b (add64 (heap_limit s) heap_guard)
              then some (s, err Errno.enomem)
              else elim (vma_overlaps s.vmas b 0) [
                | none ↦ some (place s b 0)
                | some ovb ↦ search_down fuel s 0 (align_down ovb 4096)
              ]))
            (sym same) (at_ceiling fuel))
    where
      same : align_down (sub64 ceiling 0) 4096 ≡ ceiling
      same = omega (arith, page_mask (sub64 ceiling 0) (omega arith), in_region)

-- The process with the empty area as its first entry.
abbrev pub with_empty_area : Space → Space
with_empty_area s =
    let hi = proc_mmap_hi s.stack_low in
    record s { vmas = put s.vmas 0 (area hi 0); mmap_next = hi }

module _ (s : Space) (v : IsValid s) (unused : (i : ℕ) → i < 32 → (get s.vmas i).used ≡ false)
    (room : heap_limit s + heap_guard ≤ proc_mmap_hi s.stack_low) (fresh : s.mmap_next ≡ 0) where
  abbrev top : ℕ
  top = proc_mmap_hi s.stack_low

  tight : tightened s ≡ record s { mmap_next = top }
  tight =
      if_cases (λ (x : Space). x ≡ record s { mmap_next = top }) (s.mmap_next == 0) (λ h. refl)
        (λ h. absurd (ground arith))

  allocated : allocate s 0 ≡ some (with_empty_area s, ok top)
  unfolding allocate
  allocated =
      let hi_lem : (0x400000 ≤ top) × (top ≤ 0x600000) × (top % 4096 ≡ 0) =
        proc_mmap_hi_lem s.stack_low v.stack in
      let same : align_down top 4096 ≡ top = omega (arith, page_mask top (omega arith)) in
      subst
        (λ (x : Space).
          search_down (suc (align_down x.mmap_next 4096)) x 0 (align_down x.mmap_next 4096)
          ≡ some (with_empty_area s, ok top))
        (sym tight)
        (subst
          (λ e.
            search_down (suc e) (record s { mmap_next = top }) 0 e
            ≡ some (with_empty_area s, ok top))
          (sym same)
          (searched_at (record s { mmap_next = top })
            (with_next-IsValid 4096 (omega arith) (omega arith) (omega arith) s top v (omega arith))
            unused room top))

-- With the bounds of a process set, its heap and stack apart, and no area mapped yet, a mapping of any
-- length in the last page below 2^64 is granted, as an empty area at the ceiling of the areas. From
-- then on, while that entry stands, a `sys_munmap` that has touched any area never ends: the loop
-- that recomputes the ceiling has no last round, however many it is given.
pub empty_area_hangs :
    (s : Space) (len flags : ℕ)
    → IsValid (lazy_bounds s)
    → ((i : ℕ) → i < 32 → (get (lazy_bounds s).vmas i).used ≡ false)
    → heap_limit (lazy_bounds s) + heap_guard ≤ proc_mmap_hi (lazy_bounds s).stack_low
    → (lazy_bounds s).mmap_next ≡ 0
    → 2 ^ 64 - 4095 ≤ len
    → len < 2 ^ 64
    → flags_ok flags ≡ true
    → let hi = proc_mmap_hi (lazy_bounds s).stack_low in
      (sys_mmap s 0 len flags no_file 0 ≡ some (with_empty_area (lazy_bounds s), ok hi))
      × ((t : Table Vma) → EmptyAt t hi → (fuel : ℕ) → recompute fuel t hi ≡ none)
      × ((t : Table Vma)
          → EmptyAt t hi
          → finish_unmap (with_empty_area (lazy_bounds s)) ((t, true), true) ≡ none)
unfolding sys_mmap finish_unmap
empty_area_hangs s len flags v unused room fresh lo lt flags_fine = (
  rw (==_ne len 0 (λ e. absurd (omega arith)), flags_fine)
      (ap (allocate (lazy_bounds s)) (rounds_to_zero len lo lt)
        ∙ allocated (lazy_bounds s) v unused room fresh),
  λ t e fuel. recompute_hangs fuel t hi e hi_lt,
  λ t e.
      ap (with_next (record (with_empty_area (lazy_bounds s)) { vmas = t }))
        (recompute_hangs (suc hi) t hi e hi_lt),
)
  where
    hi : ℕ
    hi = proc_mmap_hi (lazy_bounds s).stack_low

    hi_lt : hi < 2 ^ 64
    hi_lt = omega (arith, (proc_mmap_hi_lem (lazy_bounds s).stack_low v.stack).1)
