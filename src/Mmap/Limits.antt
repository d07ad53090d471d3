-- ===== src/Mmap/Limits.antt =====
-- The limits between heap, areas and stack, by their numbers: 256 KiB below the stack, 64 KiB above the
-- heap, and the end of the user region.
use mona_rpzero.Prelude.{
  ℕ, ◌+◌, ◌%◌, ◌^◌, ◌≤◌, ◌<◌, ◌≡◌, arith, ltb, if◌then◌else◌, add64, page_mask,
}
use mona_rpzero.Pmm.{align_up}
use mona_rpzero.Mmap.{Space, below_stack, proc_mmap_hi, heap_limit, heap_guard}

-- Memory up to `e` ends in the user region, and leaves the stack its guard, unless the stack is so low
-- that the guard would reach below the region.
abbrev pub BelowStack : ℕ → ℕ → Type 0
BelowStack stack_low e = (e ≤ 0x600000) × (0x440000 < stack_low → e + 0x40000 ≤ stack_low)

pub below_stack-BelowStack : (stack_low e : ℕ) → e ≤ below_stack stack_low → BelowStack stack_low e
below_stack-BelowStack stack_low e le = (ground arith, λ high. ground arith)

pub BelowStack-le : (stack_low e : ℕ) → BelowStack stack_low e → e ≤ below_stack stack_low
BelowStack-le stack_low e (region, guard) = ground (arith, guard)

below_stack_range :
    (stack_low : ℕ) → (0x400000 < below_stack stack_low) × (below_stack stack_low ≤ 0x600000)
below_stack_range stack_low = ground arith

pub hi-BelowStack : (stack_low e : ℕ) → e ≤ proc_mmap_hi stack_low → BelowStack stack_low e
unfolding proc_mmap_hi
hi-BelowStack stack_low e le =
    below_stack-BelowStack stack_low e
      (ground (arith, page_mask (below_stack stack_low), below_stack_range stack_low))

pub BelowStack-hi :
    (stack_low e : ℕ) → e % 4096 ≡ 0 → BelowStack stack_low e → e ≤ proc_mmap_hi stack_low
unfolding proc_mmap_hi
BelowStack-hi stack_low e even b =
    let le : e ≤ below_stack stack_low = BelowStack-le stack_low e b in
    ground (arith, page_mask (below_stack stack_low), below_stack_range stack_low)

-- Memory from `b` on leaves the heap its guard.
abbrev pub AboveHeap : Space → ℕ → Type 0
AboveHeap s b = (s.heap_base + 0x10000 ≤ b) × (s.heap_end + 0x10000 ≤ b)

module _ (s : Space) (heap : s.heap_base < 2 ^ 63) (heap_end : s.heap_end < 2 ^ 63) (b : ℕ) where
  abbrev top : ℕ
  top = if ltb s.heap_end s.heap_base then s.heap_base else s.heap_end

  top_lem : (top < 2 ^ 63) × (s.heap_base ≤ top) × (s.heap_end ≤ top)
  top_lem = ground arith

  rounded_up :
      (x : ℕ)
      → x < 2 ^ 63
      → (x ≤ align_up x 4096) × (align_up x 4096 < x + 4096) × (align_up x 4096 % 4096 ≡ 0)
  rounded_up x lt = omega (arith, page_mask (add64 x 4095) (omega arith))

  pub heap_limit-AboveHeap : heap_limit s + heap_guard ≤ b → AboveHeap s b
  heap_limit-AboveHeap le =
      let (lt, base, end) = top_lem in let r = rounded_up top lt in omega (arith, r.0)

  pub AboveHeap-heap_limit : b % 4096 ≡ 0 → AboveHeap s b → heap_limit s + heap_guard ≤ b
  AboveHeap-heap_limit even (base, end) =
      let (lt, base', end') = top_lem in
      let r = rounded_up top lt in
      let under : top + 0x10000 ≤ b = ground arith in omega (arith, r.0, r.1, r.2)
