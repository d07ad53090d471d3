-- ===== src/Mmap.antt =====
-- kernel-aarch64/sys_proc.c, the memory of a process: the program break and the mapped areas in the
-- user region.
pub mod Areas
pub mod Limits
pub mod Cuts
pub mod Round
pub mod Brk
pub mod Map
pub mod Search
pub mod Call
pub mod Unmap
pub mod Empty
mod Tests
use mona_rpzero.Prelude.{
  ℕ, zero, suc, ◌+◌, ◌-◌, ◌*◌, ◌^◌, Bool, true, false, not, ◌&&◌, ◌||◌, Option, none, some, ltb,
  leb, ◌==◌, if◌then◌else◌, Table, get, put, first, Result, ok, err, add64, sub64,
}
use mona_rpzero.Prelude.Errno
use mona_rpzero.Pmm.{align_up, align_down}
use mona_rpzero.Path.{user_region_base, user_region_size}
use Prim.Native.Nat.{bit_and}

abbrev pub max_vmas : ℕ
max_vmas = 32

abbrev pub page : ℕ
page = 4096

abbrev pub stack_guard : ℕ
stack_guard = 262144

abbrev pub heap_guard : ℕ
heap_guard = 65536

-- `vma_t`
pub record Vma : Type 0 where
  pub used : Bool
  pub base : ℕ
  pub len : ℕ

-- The fields of `proc_t` that the calls below use; `sp_el0` is that of the saved registers.
pub record Space : Type 0 where
  pub heap_base : ℕ
  pub heap_end : ℕ
  pub stack_low : ℕ
  pub sp_el0 : ℕ
  pub mmap_next : ℕ
  pub vmas : Table Vma

-- The bounds of heap and stack before the first execve, which `sys_brk` and `sys_mmap` both set.
unfoldable pub lazy_heap : Space → Space
lazy_heap s =
    if s.heap_base == 0
    then record s {
      heap_base = align_up user_region_base 16;
      heap_end = align_up user_region_base 16;
    }
    else s

unfoldable pub lazy_bounds : Space → Space
unfolding lazy_heap
lazy_bounds s =
    let s' = lazy_heap s in if s'.stack_low == 0 then record s' { stack_low = s'.sp_el0 } else s'

abbrev pub region_end : ℕ
region_end = user_region_base + user_region_size

-- The end of the region, or the stack less its guard where that is lower and the stack lies above the
-- guard of the region's base.
abbrev pub below_stack : ℕ → ℕ
below_stack stack_low =
    if ltb (user_region_base + stack_guard) stack_low
    then (if ltb (stack_low - stack_guard) region_end then stack_low - stack_guard else region_end)
    else region_end

unfoldable pub sys_brk : Space → ℕ → Space × ℕ
unfolding lazy_bounds
sys_brk s newbrk =
    let s' = lazy_bounds s in
    let brk = align_up newbrk 16 in
    if newbrk == 0
    then (s', s'.heap_end)
    else if ltb brk s'.heap_base || ltb (below_stack s'.stack_low) brk
    then (s', s'.heap_end)
    else (record s' { heap_end = brk }, brk)

-- Area `i` overlaps the range from `base` to `end`.
abbrev pub overlaps_at : Table Vma → ℕ → ℕ → ℕ → Bool
overlaps_at t base end i =
    let v = get t i in v.used && not (leb end v.base || leb (add64 v.base v.len) base)

-- The base of the first area that overlaps.
unfoldable pub vma_overlaps : Table Vma → ℕ → ℕ → Option ℕ
vma_overlaps t base len = elim (first (overlaps_at t base (add64 base len)) 0 max_vmas) [
  | none ↦ none
  | some i ↦ some (get t i).base
]

unfoldable pub proc_mmap_hi : ℕ → ℕ
proc_mmap_hi stack_low =
    let hi = align_down (below_stack stack_low) page in
    if ltb hi user_region_base then user_region_base else hi

abbrev pub ends_at : Table Vma → ℕ → ℕ → Bool
ends_at t top i = (get t i).used && add64 (get t i).base (get t i).len == top

-- The loop of `proc_recompute_mmap_next`; `none` if the rounds run out.
unfoldable pub recompute : ℕ → Table Vma → ℕ → Option ℕ
recompute zero t top = none
recompute (suc fuel) t top = elim (first (ends_at t top) 0 max_vmas) [
  | none ↦ some top
  | some i ↦ recompute fuel t (get t i).base
]

unfoldable pub free_vma : Table Vma → Option ℕ
free_vma t = first (λ i. not (get t i).used) 0 max_vmas

abbrev pub area : ℕ → ℕ → Vma
area base len = record { used = true; base = base; len = len }

-- The heap's end, at least its base, on a page.
abbrev pub heap_limit : Space → ℕ
heap_limit s = align_up (if ltb s.heap_end s.heap_base then s.heap_base else s.heap_end) page

abbrev pub is_none : Option ℕ → Bool
is_none none = true
is_none (some b) = false

-- The tests on the address that the caller proposes.
abbrev pub hint_fits : Space → ℕ → ℕ → Bool
hint_fits s base alen =
    let end = add64 base alen in
    (leb base end && leb user_region_base base)
    && ((leb end (proc_mmap_hi s.stack_low) && leb (add64 (heap_limit s) heap_guard) base)
        && is_none (vma_overlaps s.vmas base alen))

-- The proposed address is taken, if it fits and an entry is free; `none` to go on.
unfoldable pub try_hint : Space → ℕ → ℕ → Option Space
try_hint s base alen = elim (free_vma s.vmas) [
  | none ↦ none
  | some slot ↦
      if hint_fits s base alen
      then some (record s { vmas = put s.vmas slot (area base alen) })
      else none
]

-- The end of `sys_mmap`: an entry for the range found.
unfoldable pub place : Space → ℕ → ℕ → Space × Result ℕ
place s base alen = elim (free_vma s.vmas) [
  | none ↦ (s, err Errno.enomem)
  | some slot ↦ (record s { vmas = put s.vmas slot (area base alen); mmap_next = base }, ok base)
]

-- The loop of `sys_mmap` downwards; `none` if the rounds run out.
unfoldable pub search_down : ℕ → Space → ℕ → ℕ → Option (Space × Result ℕ)
search_down zero s alen end = none
search_down (suc fuel) s alen end =
    let base = align_down (sub64 end alen) page in
    let next : Option (Space × Result ℕ) = elim (vma_overlaps s.vmas base alen) [
      | none ↦ some (place s base alen)
      | some ovb ↦ search_down fuel s alen (align_down ovb page)
    ] in
    if ltb end (add64 user_region_base alen)
    then some (s, err Errno.enomem)
    else if ltb base (add64 (heap_limit s) heap_guard)
    then some (s, err Errno.enomem)
    else next

-- `mmap_next` before the search.
abbrev pub tightened : Space → Space
tightened s =
    let hi = proc_mmap_hi s.stack_low in
    if s.mmap_next == 0
    then record s { mmap_next = hi }
    else if ltb hi s.mmap_next
    then record s { mmap_next = hi }
    else s

unfoldable pub allocate : Space → ℕ → Option (Space × Result ℕ)
allocate s alen =
    let s' = tightened s in
    let end = align_down s'.mmap_next page in search_down (suc end) s' alen end

-- MAP_PRIVATE, MAP_ANONYMOUS, MAP_FIXED and MAP_STACK
abbrev pub flags_ok : ℕ → Bool
flags_ok flags =
    bit_and flags 0x22 == 0x22
    && (bit_and flags 0x10 == 0 && bit_and flags (2 ^ 64 - 1 - 0x20022) == 0)

-- The int64_t -1, which stands for no file.
abbrev pub no_file : ℕ
no_file = 2 ^ 64 - 1

-- `none` if the search does not end.
unfoldable pub sys_mmap : Space → ℕ → ℕ → ℕ → ℕ → ℕ → Option (Space × Result ℕ)
sys_mmap s addr len flags fd off =
    let alen = align_up len page in
    let s' = lazy_bounds s in
    if len == 0
    then some (s, err Errno.einval)
    else if not (fd == no_file)
    then some (s, err Errno.enosys)
    else if not (off == 0)
    then some (s, err Errno.enosys)
    else if not (flags_ok flags)
    then some (s, err Errno.enosys)
    else if addr == 0
    then allocate s' alen
    else if not (bit_and addr (page - 1) == 0)
    then some (s', err Errno.einval)
    else elim (try_hint s' addr alen) [ some s'' ↦ some (s'', ok addr) | none ↦ allocate s' alen ]

-- What one round of the loop of `sys_munmap` does to area `i`: nothing, a new entry for it, or two.
pub data Cut : Type 0 where
  kept : Cut
  cut : Vma → Cut
  split : Vma → Vma → Cut

unfoldable pub cut_area : Vma → ℕ → ℕ → Cut
cut_area v unmap_base unmap_end =
    let ve = add64 v.base v.len in
    if not v.used
    then kept
    else if ltb ve v.base
    then kept
    else if leb unmap_end v.base || leb ve unmap_base
    then kept
    else if leb unmap_base v.base && leb ve unmap_end
    then cut (record { used = false; base = 0; len = 0 })
    else if leb unmap_base v.base && ltb unmap_end ve
    then cut (record v { base = unmap_end; len = ve - unmap_end })
    else if ltb v.base unmap_base && leb ve unmap_end
    then cut (record v { len = unmap_base - v.base })
    else split (record v { len = unmap_base - v.base })
        (record { used = true; base = unmap_end; len = ve - unmap_end })

-- The loop of `sys_munmap` from area `i` on: the areas, whether any was touched, and whether the loop
-- came to its end (it returns ENOMEM where there is no entry for the second half).
unfoldable pub unmap_from : ℕ → ℕ → ℕ → ℕ → Bool → Table Vma → (Table Vma × Bool) × Bool
unmap_from zero i unmap_base unmap_end any t = ((t, any), true)
unmap_from (suc n) i unmap_base unmap_end any t = elim (cut_area (get t i) unmap_base unmap_end) [
  | kept ↦ unmap_from n (i + 1) unmap_base unmap_end any t
  | cut v ↦ unmap_from n (i + 1) unmap_base unmap_end true (put t i v)
  | split left right ↦ elim (free_vma t) [
    | none ↦ ((t, any), false)
    | some slot ↦ unmap_from n (i + 1) unmap_base unmap_end true (put (put t i left) slot right)
  ]
]

abbrev pub with_next : Space → Option ℕ → Option (Space × Result (Unit {0}))
with_next s none = none
with_next s (some top) = some (record s { mmap_next = top }, ok tt)

-- The end of `sys_munmap`. A fuel of one more than the top is enough where every area has a byte.
unfoldable pub finish_unmap : Space → (Table Vma × Bool) × Bool → Option (Space × Result (Unit {0}))
finish_unmap s ((t, any), through) =
    let s' = record s { vmas = t } in
    let hi = proc_mmap_hi s.stack_low in
    if not through
    then some (s', err Errno.enomem)
    else if not any
    then some (s', err Errno.einval)
    else with_next s' (recompute (suc hi) t hi)

unfoldable pub sys_munmap : Space → ℕ → ℕ → Option (Space × Result (Unit {0}))
sys_munmap s addr len =
    let alen = align_up len page in
    let unmap_end = add64 addr alen in
    if not (bit_and addr (page - 1) == 0)
    then some (s, err Errno.einval)
    else if len == 0
    then some (s, err Errno.einval)
    else if ltb unmap_end addr
    then some (s, err Errno.einval)
    else finish_unmap s (unmap_from max_vmas 0 addr unmap_end false s.vmas)
