-- ===== src/Mmap/Map.antt =====
-- What an allocation of `sys_mmap` gives, and where there is room for one.
use mona_rpzero.Prelude.{
  ℕ, ◌+◌, ◌-◌, ◌%◌, ◌^◌, ◌≤◌, ◌<◌, ◌≡◌, ◌≢◌, ◌⊎◌, true, false, Option, some, ltb, if◌then◌else◌,
  get, put, add64, sub64, arith, page_mask, Result, ok, err,
}
use mona_rpzero.Prelude.Errno
use mona_rpzero.Pmm.{align_up, align_down}
use mona_rpzero.Mmap.{Space, area, heap_limit}
use mona_rpzero.Mmap.Areas.{AreAreas, Apart}
use mona_rpzero.Mmap.Limits.{BelowStack, AboveHeap}

-- A process whose areas are valid, with 64-bit numbers; the heap ends below 2^63.
pub record IsValid (s : Space) : Type 0 where
  pub areas : AreAreas s.vmas
  pub heap : s.heap_base < 2 ^ 63
  pub heap_end : s.heap_end < 2 ^ 63
  pub stack : s.stack_low < 2 ^ 64
  pub saved_stack : s.sp_el0 < 2 ^ 64
  pub next : s.mmap_next < 2 ^ 64

-- The range of `alen` bytes from `base` on has become an area of its own: whole pages between the
-- heap with its guard and the stack with its guard, clear of every other area.
pub record IsMapped (s : Space) (alen base : ℕ) (s' : Space) : Type 0 where
  pub slot : ℕ
  pub in_table : slot < 32
  pub was_free : (get s.vmas slot).used ≡ false
  pub now : s'.vmas ≡ put s.vmas slot (area base alen)
  pub aligned : base % 4096 ≡ 0
  pub above_heap : AboveHeap s base
  pub below_stack : BelowStack s.stack_low (base + alen)
  pub clear_of :
      (i : ℕ) → i < 32 → (get s.vmas i).used ≡ true → Apart (area base alen) (get s.vmas i)
  pub valid : IsValid s'

-- The range of `alen` bytes from `b` on is free: on a page, in the user region, between the heap and the
-- stack with their guards, clear of all areas.
pub record IsPlace (s : Space) (alen b : ℕ) : Type 0 where
  pub aligned : b % 4096 ≡ 0
  pub in_region : 0x400000 ≤ b
  pub above_heap : AboveHeap s b
  pub below_stack : BelowStack s.stack_low (b + alen)
  pub clear_of : (i : ℕ) → i < 32 → (get s.vmas i).used ≡ true → Apart (area b alen) (get s.vmas i)

-- Every entry is taken, or every place ends above the address where the last search ended.
abbrev pub NoRoom : Space → ℕ → Type 0
NoRoom s alen =
    ((i : ℕ) → i < 32 → (get s.vmas i).used ≡ true)
    ⊎ ((b : ℕ) → IsPlace s alen b → (s.mmap_next ≢ 0) × (s.mmap_next < b + alen))

-- What the allocation of `alen` bytes gives.
pub data MapOutcome (s : Space) (alen : ℕ) : Option (Space × Result ℕ) → Type 0 where
  no_room :
      (s' : Space)
      → NoRoom s alen
      → s'.vmas ≡ s.vmas
      → IsValid s'
      → MapOutcome s alen (some (s', err Errno.enomem))
  mapped :
      (base : ℕ) (s' : Space) → IsMapped s alen base s' → MapOutcome s alen (some (s', ok base))

pub heap_limit-lt : (s : Space) → IsValid s → heap_limit s < 2 ^ 63 + 4096
heap_limit-lt s v =
    omega (arith, round_up (if ltb s.heap_end s.heap_base then s.heap_base else s.heap_end) larger)
  where
    larger : (if ltb s.heap_end s.heap_base then s.heap_base else s.heap_end) < 2 ^ 63
    larger = ground (arith, v.heap, v.heap_end)

    round_up : (x : ℕ) → x < 2 ^ 63 → align_up x 4096 < 2 ^ 63 + 4096
    round_up x lt = omega (arith, page_mask (add64 x 4095) (omega arith))

-- Rounding down the page before a range of whole pages changes nothing.
pub down-eq :
    (end alen : ℕ)
    → end % 4096 ≡ 0
    → alen % 4096 ≡ 0
    → alen ≤ end
    → end < 2 ^ 64
    → align_down (sub64 end alen) 4096 ≡ end - alen
down-eq end alen e a le lt = omega (arith, page_mask (sub64 end alen) (omega arith))

pub down_lt : (b end : ℕ) → b < end → end < 2 ^ 64 → align_down b 4096 < end
down_lt b end lt small = omega (arith, page_mask b (omega arith))

pub down_aligned : (b : ℕ) → b < 2 ^ 64 → align_down b 4096 % 4096 ≡ 0
down_aligned b lt = omega (arith, page_mask b lt)
