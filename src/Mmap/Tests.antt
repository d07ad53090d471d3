-- ===== src/Mmap/Tests.antt =====
-- Runs of `sys_brk`, `sys_mmap` and `sys_munmap`.
use mona_rpzero.Prelude.{
  ℕ, ◌+◌, ◌-◌, ◌^◌, ◌≡◌, refl, ◌≢◌, true, false, Option, none, some, Table, table, get, put,
  get-put_self, get-put_ne, put_cases, if◌then◌else◌, ◌==◌, arith, Result, ok, err, ◌≤◌, ◌<◌, ap,
  subst, sym,
}
use mona_rpzero.Mmap.{
  Vma, Space, area, sys_brk, sys_mmap, lazy_bounds, lazy_heap, no_file, proc_mmap_hi, finish_unmap,
  recompute,
}
use mona_rpzero.Mmap.Areas.{AreAreas, put-AreAreas}
use mona_rpzero.Mmap.Map.{IsValid}
use mona_rpzero.Mmap.Brk.{BrkOutcome, sys_brk-BrkOutcome, brk_over_area}
use mona_rpzero.Mmap.Empty.{EmptyAt, with_empty_area, empty_area_hangs}

abbrev no_area : Vma
no_area = record { used = false; base = 0; len = 0 }

abbrev no_areas : Table Vma
no_areas = table (λ i. no_area)

abbrev with_areas : Table Vma → Space
with_areas t = record {
  heap_base = 0x410000;
  heap_end = 0x420000;
  stack_low = 0x5f0000;
  sp_el0 = 0x5f0000;
  mmap_next = 0;
  vmas = t;
}

no_areas-AreAreas : AreAreas no_areas
unfolding get
no_areas-AreAreas = record { each = λ i lt u. absurd cc; apart = λ i j i_lt j_lt ne u w. absurd cc }

abbrev one_area : Table Vma
one_area = put no_areas 3 (area 0x500000 0x3000)

one_area-AreAreas : AreAreas one_area
unfolding get
one_area-AreAreas =
    put-AreAreas no_areas 3 (area 0x500000 0x3000) no_areas-AreAreas (λ u. omega arith)
      (λ j lt ne u w. absurd cc)

with_areas-IsValid : (t : Table Vma) → AreAreas t → IsValid (with_areas t)
with_areas-IsValid t a = record {
  areas = a;
  heap = omega arith;
  heap_end = omega arith;
  stack = omega arith;
  saved_stack = omega arith;
  next = omega arith;
}

-- MAP_PRIVATE | MAP_ANONYMOUS
abbrev anonymous : ℕ
anonymous = 0x22

brk_example :
    BrkOutcome (lazy_bounds (with_areas one_area)) 0x430001 (sys_brk (with_areas one_area) 0x430001)
brk_example =
    sys_brk-BrkOutcome (with_areas one_area) 0x430001
      (with_areas-IsValid one_area one_area-AreAreas) (omega arith)

brk_over_area_example :
    let (s', brk) = sys_brk (with_areas one_area) 0x503000 in
    (brk ≡ 0x503000) × (s'.heap_end ≡ 0x503000) × (0x500000 < s'.heap_end)
unfolding lazy_bounds lazy_heap get put
brk_over_area_example =
    brk_over_area (with_areas one_area) 3 (with_areas-IsValid one_area one_area-AreAreas)
      (omega arith) refl (omega arith) (omega arith)

room_left : 0x420000 + 0x10000 ≤ proc_mmap_hi 0x5f0000
unfolding proc_mmap_hi
room_left = omega arith

empty_example :
    let hi = proc_mmap_hi 0x5f0000 in
    (sys_mmap (with_areas no_areas) 0 (2 ^ 64 - 1) anonymous no_file 0
      ≡ some (with_empty_area (with_areas no_areas), ok hi))
    × ((t : Table Vma) → EmptyAt t hi → (fuel : ℕ) → recompute fuel t hi ≡ none)
    × ((t : Table Vma)
        → EmptyAt t hi
        → finish_unmap (with_empty_area (with_areas no_areas)) ((t, true), true) ≡ none)
unfolding lazy_bounds lazy_heap get
empty_example =
    empty_area_hangs (with_areas no_areas) (2 ^ 64 - 1) anonymous
      (with_areas-IsValid no_areas no_areas-AreAreas) (λ i lt. refl) room_left refl (omega arith)
      (omega arith) refl

-- The address returned; two pages go right below the guard of the stack.
base_of : Option (Space × Result ℕ) → Option ℕ
base_of none = none
base_of (some (s, ok base)) = some base
base_of (some (s, err e)) = none

maps_at_ceiling :
    base_of (sys_mmap (with_areas no_areas) 0 8192 anonymous no_file 0) ≡ some 0x5ae000
unfolding base_of sys_mmap mona_rpzero.Mmap.allocate mona_rpzero.Mmap.search_down lazy_bounds
    proc_mmap_hi mona_rpzero.Mmap.vma_overlaps mona_rpzero.Prelude.first get mona_rpzero.Mmap.place
    mona_rpzero.Mmap.free_vma
maps_at_ceiling = refl
