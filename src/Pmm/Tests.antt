-- ===== src/Pmm/Tests.antt =====
-- Runs of the allocator, and its theorems at small memories from address 0 and from 1 MiB on.
use mona_rpzero.Prelude.{
  ℕ, ◌+◌, ◌≡◌, ◌≢◌, refl, true, table, get, put, first, arith, ◌==◌, if◌then◌else◌, ◌⊎◌, ◌%◌,
  sum_below,
}
use mona_rpzero.Pmm.{
  Pmm, init, alloc_page, free_page, alloc_2mib_aligned, free_2mib_aligned, reserve_range, bit_test,
  bit_set, reserve_loop, take_page, find_region, any_used,
}
use mona_rpzero.Pmm.Bitmap.{AreBytes}
use mona_rpzero.Pmm.Invariant.{IsValid, count_free}
use mona_rpzero.Pmm.Reserve.{Reserves, reserve_range-Reserves}
use mona_rpzero.Pmm.Alloc.{Allocates, alloc_page-Allocates, Frees, free_page-Frees}
use mona_rpzero.Pmm.Cycle.{Restores, alloc_page-free_page}
use mona_rpzero.Pmm.Init.{Initial, init-Initial}
use mona_rpzero.Pmm.Region.{Searched, alloc_2mib_aligned-Searched}
use mona_rpzero.Pmm.RegionFree.{alloc_2mib_aligned-free, misaligned_region_leaks}

abbrev blank : Pmm
blank = record {
  bitmap = table (λ _. 0);
  base = 0;
  size = 0;
  page_size = 0;
  total_pages = 0;
  free_pages = 0;
}

blank-AreBytes : AreBytes blank.bitmap
unfolding get
blank-AreBytes i = omega arith

-- Two regions of 2 MiB, the first page used.
abbrev small : Pmm
small = record {
  bitmap = table (λ i. if i == 0 then 1 else 0);
  base = 0;
  size = 0x400000;
  page_size = 4096;
  total_pages = 1024;
  free_pages = 1023;
}

small-IsValid : IsValid small
unfolding count_free bit_test get sum_below
small-IsValid = record {
  bytes = λ i. ground arith;
  counted = refl;
  bounded = omega arith;
  span = refl;
  aligned = refl;
  top = omega arith;
}

-- The same pages in a memory that starts at 1 MiB, all free.
abbrev odd : Pmm
odd = record {
  bitmap = table (λ i. 0);
  base = 0x100000;
  size = 0x400000;
  page_size = 4096;
  total_pages = 1024;
  free_pages = 1024;
}

odd-IsValid : IsValid odd
unfolding count_free bit_test get sum_below
odd-IsValid = record {
  bytes = λ i. ground arith;
  counted = refl;
  bounded = omega arith;
  span = refl;
  aligned = refl;
  top = omega arith;
}

first_page : (alloc_page small).1 ≡ 4096
unfolding alloc_page first bit_test get
first_page = refl

second_region : (alloc_2mib_aligned small).1 ≡ 0x200000
unfolding alloc_2mib_aligned find_region any_used bit_test get
second_region = refl

odd_region : (alloc_2mib_aligned odd).1 ≡ 0x100000
unfolding alloc_2mib_aligned find_region any_used bit_test get
odd_region = refl

reserved_page : bit_test (reserve_range small 5000 9000).bitmap 2 ≡ true
unfolding reserve_range reserve_loop take_page bit_test bit_set get put
reserved_page = refl

init-Initial_example :
    Initial (init blank 0 0x4000000 0x80000 0xa0000 0x3000000) 0x80000 0xa0000 0x3000000
init-Initial_example = init-Initial blank 0 0x4000000 0x80000 0xa0000 0x3000000 blank-AreBytes

reserve_range-Reserves_example : Reserves small (reserve_range small 5000 9000) 5000 9000
reserve_range-Reserves_example = reserve_range-Reserves small 5000 9000 small-IsValid

alloc_page-Allocates_example :
    let (q, pa) = alloc_page small in
    ((small.free_pages ≡ 0) × (q ≡ small) × (pa ≡ 0)) ⊎ ((idx : ℕ) × Allocates small q pa idx)
alloc_page-Allocates_example = alloc_page-Allocates small small-IsValid

free_page-Frees_example : Frees small (free_page small 0) 0
free_page-Frees_example = free_page-Frees small 0 small-IsValid (omega arith)

alloc_page-free_page_example : Restores small (free_page (alloc_page small).0 (alloc_page small).1)
alloc_page-free_page_example = alloc_page-free_page small small-IsValid (omega arith)

alloc_2mib_aligned-Searched_example :
    Searched small (alloc_2mib_aligned small).0 (alloc_2mib_aligned small).1 0
alloc_2mib_aligned-Searched_example = alloc_2mib_aligned-Searched small small-IsValid

second_region_ne : (alloc_2mib_aligned small).1 ≢ 0
second_region_ne = omega (arith, second_region)

alloc_2mib_aligned-free_example :
    Restores small (free_2mib_aligned (alloc_2mib_aligned small).0 (alloc_2mib_aligned small).1)
alloc_2mib_aligned-free_example = alloc_2mib_aligned-free small small-IsValid refl second_region_ne

odd_region_ne : (alloc_2mib_aligned odd).1 ≢ 0
odd_region_ne = omega (arith, odd_region)

misaligned_region_leaks_example :
    let (q, pa) = alloc_2mib_aligned odd in
    (pa % 0x200000 ≡ 0x100000) × (free_2mib_aligned q pa ≡ q) × (q.free_pages + 512 ≡ 1024)
misaligned_region_leaks_example =
    misaligned_region_leaks odd odd-IsValid (omega arith) odd_region_ne
