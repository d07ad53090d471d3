-- ===== src/Pmm.antt =====
-- kernel-aarch64/pmm.c and include/pmm.h: the physical page allocator, one bit for each page of 4 KiB
-- and a counter of the free ones. What it prints on the UART is not modelled.
pub mod Bitmap
pub mod Invariant
pub mod Reserve
pub mod Alloc
pub mod Cycle
pub mod Init
pub mod Region
pub mod RegionFree
mod Tests
use Prim.Native.Nat.{bit_and}
use mona_rpzero.Prelude.{
  ℕ, zero, suc, ◌+◌, ◌-◌, ◌*◌, ◌/◌, ◌%◌, ◌^◌, Bool, true, false, not, ◌&&◌, ◌||◌, Option, none,
  some, ltb, leb, ◌==◌, if◌then◌else◌, Table, get, put, for_below, first, add64, sub64, bit,
  with_bit, without_bit,
}

abbrev pub page_bytes : ℕ
page_bytes = 4096

abbrev pub max_pages : ℕ
max_pages = 262144

abbrev pub bitmap_bytes : ℕ
bitmap_bytes = 32768

abbrev pub user_region_base : ℕ
user_region_base = 0x00400000

abbrev pub user_region_size : ℕ
user_region_size = 0x00200000

-- `g_bitmap` and `g_info`
pub record Pmm : Type 0 where
  pub bitmap : Table ℕ
  pub base : ℕ
  pub size : ℕ
  pub page_size : ℕ
  pub total_pages : ℕ
  pub free_pages : ℕ

abbrev pub align_up : ℕ → ℕ → ℕ
align_up v a = bit_and (add64 v (a - 1)) (2 ^ 64 - a)

abbrev pub align_down : ℕ → ℕ → ℕ
align_down v a = bit_and v (2 ^ 64 - a)

unfoldable pub bit_set : Table ℕ → ℕ → Table ℕ
bit_set m idx = put m (idx / 8) (with_bit (get m (idx / 8)) (idx % 8))

unfoldable pub bit_clear : Table ℕ → ℕ → Table ℕ
bit_clear m idx = put m (idx / 8) (without_bit (get m (idx / 8)) (idx % 8))

unfoldable pub bit_test : Table ℕ → ℕ → Bool
bit_test m idx = bit (get m (idx / 8)) (idx % 8)

abbrev pub map_bytes : ℕ → ℕ
map_bytes total =
    let bytes = (total + 7) / 8 in if ltb bitmap_bytes bytes then bitmap_bytes else bytes

pub bitmap_clear_all : ℕ → Table ℕ → Table ℕ
bitmap_clear_all total = for_below (map_bytes total) (λ _. 0)

pub bitmap_set_all : ℕ → Table ℕ → Table ℕ
bitmap_set_all total = for_below (map_bytes total) (λ _. 0xff)

-- The body of the loop of `reserve_range`, on the page `idx`.
pub take_page : Pmm → ℕ → Pmm
take_page p idx = if bit_test p.bitmap idx then p else record p {
  bitmap = bit_set p.bitmap idx;
  free_pages = if ltb 0 p.free_pages then p.free_pages - 1 else p.free_pages;
}

-- The loop, from the address `pa` on. The loop ends at the last page, so one round more than there
-- are pages is fuel enough.
pub reserve_loop : ℕ → Pmm → ℕ → ℕ → Pmm
reserve_loop zero p pa e = p
reserve_loop (suc fuel) p pa e =
    let idx = sub64 pa p.base / page_bytes in
    let rest = reserve_loop fuel (take_page p idx) (add64 pa page_bytes) e in
    if not (ltb pa e) then p else if leb p.total_pages idx then p else rest

unfoldable pub reserve_range : Pmm → ℕ → ℕ → Pmm
reserve_range p start end =
    let limit = add64 p.base p.size in
    let start' = if ltb start p.base then p.base else start in
    let end' = if ltb limit end then limit else end in
    if leb end start
    then p
    else if leb end' start'
    then p
    else reserve_loop (suc p.total_pages) p (align_down start' page_bytes)
        (align_up end' page_bytes)

unfoldable pub pmm_reserve_range : Pmm → ℕ → ℕ → Pmm
pmm_reserve_range p start end = if p.total_pages == 0 then p else reserve_range p start end

-- `g_info = (pmm_info_t){0}` with every page marked.
abbrev pub no_memory : Pmm → Pmm
no_memory p = record {
  bitmap = bitmap_set_all max_pages p.bitmap;
  base = 0;
  size = 0;
  page_size = 0;
  total_pages = 0;
  free_pages = 0;
}

-- All of the range [base, end) free, before anything is reserved.
pub fresh_range : Pmm → ℕ → ℕ → Pmm
fresh_range p base end =
    let pages = (end - base) / page_bytes in
    let total = if ltb max_pages pages then max_pages else pages in
    let end' = if ltb max_pages pages then base + total * page_bytes else end in
    record {
      bitmap = bitmap_clear_all total p.bitmap;
      base = base;
      size = end' - base;
      page_size = page_bytes;
      total_pages = total;
      free_pages = total;
    }

unfoldable pub init : Pmm → ℕ → ℕ → ℕ → ℕ → ℕ → Pmm
init p mem_base mem_size kernel_start kernel_end dtb_ptr =
    let base = align_up mem_base page_bytes in
    let end = align_down (add64 mem_base mem_size) page_bytes in
    if ltb mem_size (page_bytes * 16)
    then no_memory p
    else if leb end base
    then no_memory p
    else let low = reserve_range (fresh_range p base end) base (add64 base 0x200000) in
      let kernel = reserve_range low kernel_start kernel_end in
      let dtb =
        if dtb_ptr == 0 then kernel else reserve_range kernel dtb_ptr (add64 dtb_ptr 0x10000) in
      reserve_range dtb user_region_base (user_region_base + user_region_size)

-- 0 where the memory is used up.
unfoldable pub alloc_page : Pmm → Pmm × ℕ
alloc_page p =
    if p.free_pages == 0 || p.total_pages == 0
    then (p, 0)
    else elim (first (λ idx. not (bit_test p.bitmap idx)) 0 p.total_pages) [
      | none ↦ (p, 0)
      | some idx ↦ (
        record p { bitmap = bit_set p.bitmap idx; free_pages = p.free_pages - 1 },
        add64 p.base (idx * page_bytes),
      )
    ]

-- The end of `pmm_free_page`, on the page `idx`.
pub drop_page : Pmm → ℕ → Pmm
drop_page p idx =
    if leb p.total_pages idx
    then p
    else if bit_test p.bitmap idx
    then record p { bitmap = bit_clear p.bitmap idx; free_pages = add64 p.free_pages 1 }
    else p

unfoldable pub free_page : Pmm → ℕ → Pmm
free_page p pa =
    if p.total_pages == 0
    then p
    else if ltb pa p.base || leb (add64 p.base p.size) pa
    then p
    else if not (bit_and pa (page_bytes - 1) == 0)
    then p
    else drop_page p (sub64 pa p.base / page_bytes)

abbrev pub region_pages : ℕ
region_pages = 512

-- The two inner loops of `pmm_alloc_2mib_aligned`, over the `n` pages from `start + i` on: is one of
-- them used, and mark them.
pub any_used : ℕ → Table ℕ → ℕ → ℕ → Bool
any_used zero m start i = false
any_used (suc n) m start i =
    let rest = any_used n m start (i + 1) in if bit_test m (start + i) then true else rest

pub mark_all : ℕ → Table ℕ → ℕ → ℕ → Table ℕ
mark_all zero m start i = m
mark_all (suc n) m start i = mark_all n (bit_set m (start + i)) start (i + 1)

-- The outer loop, with the region of `start` rounded up. Every round moves on by a region, so the
-- number of pages is fuel enough.
pub find_region : ℕ → Pmm → ℕ → Pmm × ℕ
find_region zero p start = (p, 0)
find_region (suc fuel) p start =
    let aligned = bit_and (add64 start (region_pages - 1)) (2 ^ 64 - region_pages) in
    let rest = find_region fuel p (add64 aligned region_pages) in
    if ltb p.total_pages (add64 start region_pages)
    then (p, 0)
    else if ltb p.total_pages (add64 aligned region_pages)
    then (p, 0)
    else if any_used region_pages p.bitmap aligned 0
    then rest
    else (
      record p {
        bitmap = mark_all region_pages p.bitmap aligned 0;
        free_pages = sub64 p.free_pages region_pages;
      },
      add64 p.base (aligned * page_bytes),
    )

unfoldable pub alloc_2mib_aligned : Pmm → Pmm × ℕ
alloc_2mib_aligned p =
    if ltb p.free_pages region_pages || p.total_pages == 0
    then (p, 0)
    else find_region p.total_pages p 0

pub free_pages_from : ℕ → Pmm → ℕ → ℕ → Pmm
free_pages_from zero p pa i = p
free_pages_from (suc n) p pa i =
    free_pages_from n (free_page p (add64 pa (i * page_bytes))) pa (i + 1)

unfoldable pub free_2mib_aligned : Pmm → ℕ → Pmm
free_2mib_aligned p pa_base =
    if pa_base == 0
    then p
    else if not (bit_and pa_base 0x1fffff == 0)
    then p
    else free_pages_from region_pages p pa_base 0
