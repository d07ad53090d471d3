-- ===== src/Mmap/Call.antt =====
-- `sys_mmap` on every branch: where the new area lies.
use mona_rpzero.Prelude.{
  ℕ, ◌+◌, ◌%◌, ◌^◌, ◌≤◌, ◌<◌, ◌≡◌, refl, ◌≢◌, ◌⊎◌, inl, inr, true, false, Option, none, some,
  Option-cases, ◌==◌, Table, get, put, add64, arith, if_cases, page_mask, Result, ok, err,
}
use mona_rpzero.Prelude.Errno
use mona_rpzero.Pmm.{align_up}
use mona_rpzero.Mmap.{
  Vma, Space, area, vma_overlaps, free_vma, proc_mmap_hi, heap_limit, heap_guard, hint_fits,
  try_hint, lazy_bounds, lazy_heap, flags_ok, no_file, is_none,
}
use mona_rpzero.Mmap.Areas.{
  Apart, OverlapOutcome, clear, hit, vma_overlaps-OverlapOutcome, free_vma_free, proc_mmap_hi_lem,
}
use mona_rpzero.Mmap.Limits.{hi-BelowStack, heap_limit-AboveHeap}
use mona_rpzero.Mmap.Map.{IsValid, IsMapped, MapOutcome, heap_limit-lt}
use mona_rpzero.Mmap.Search.{entry-AreAreas}

module _ (alen : ℕ) (pos : 0 < alen) (pages : alen % 4096 ≡ 0) (small : alen ≤ 2 ^ 63) where
  -- The address that the caller proposes is taken only where it fits.
  hint_tests :
      (s : Space) (addr : ℕ)
      → hint_fits s addr alen ≡ true
      → (addr ≤ add64 addr alen)
        × (0x400000 ≤ addr)
        × (add64 addr alen ≤ proc_mmap_hi s.stack_low)
        × (add64 (heap_limit s) heap_guard ≤ addr)
        × (vma_overlaps s.vmas addr alen ≡ none)
  hint_tests s addr h = ground (arith, none_of (vma_overlaps s.vmas addr alen))
    where
      none_of : (o : Option ℕ) → is_none o ≡ true → o ≡ none
      none_of none e = refl
      none_of (some b) e = absurd cc

-- The bounds that the calls set at first keep the areas.
lazy_heap-IsValid : (s : Space) → IsValid s → IsValid (lazy_heap s) × ((lazy_heap s).vmas ≡ s.vmas)
unfolding lazy_heap
lazy_heap-IsValid s v =
    if_cases (λ (x : Space). IsValid x × (x.vmas ≡ s.vmas)) (s.heap_base == 0)
      (λ _. (
        record {
          areas = v.areas;
          heap = omega arith;
          heap_end = omega arith;
          stack = v.stack;
          saved_stack = v.saved_stack;
          next = v.next;
        },
        refl,
      ))
      (λ _. (v, refl))

pub lazy_bounds-IsValid :
    (s : Space) → IsValid s → IsValid (lazy_bounds s) × ((lazy_bounds s).vmas ≡ s.vmas)
unfolding lazy_bounds
lazy_bounds-IsValid s v =
    let (v', e) = lazy_heap-IsValid s v in
    if_cases (λ (x : Space). IsValid x × (x.vmas ≡ s.vmas)) ((lazy_heap s).stack_low == 0)
      (λ _. (
        record {
          areas = v'.areas;
          heap = v'.heap;
          heap_end = v'.heap_end;
          stack = v'.saved_stack;
          saved_stack = v'.saved_stack;
          next = v'.next;
        },
        e,
      ))
      (λ _. (v', e))

-- What `sys_mmap` gives; `alen` is the length in whole pages.
pub data MmapOutcome (s : Space) (addr len flags fd off alen : ℕ)
    : Option (Space × Result ℕ) → Type 0 where
  bad_len : len ≡ 0 → MmapOutcome s addr len flags fd off alen (some (s, err Errno.einval))
  unsupported :
      (fd ≢ no_file) ⊎ (off ≢ 0) ⊎ (flags_ok flags ≡ false)
      → MmapOutcome s addr len flags fd off alen (some (s, err Errno.enosys))
  misaligned :
      addr % 4096 ≢ 0
      → MmapOutcome s addr len flags fd off alen (some (lazy_bounds s, err Errno.einval))
  hinted :
      (s' : Space)
      → addr ≢ 0
      → IsMapped (lazy_bounds s) alen addr s'
      → MmapOutcome s addr len flags fd off alen (some (s', ok addr))
  searched :
      (r : Option (Space × Result ℕ))
      → MapOutcome (lazy_bounds s) alen r
      → MmapOutcome s addr len flags fd off alen r

clears :
    (t : Table Vma) (base len : ℕ) (o : Option ℕ)
    → OverlapOutcome t base len o
    → o ≡ none
    → (i : ℕ) → i < 32
    → (get t i).used ≡ true
    → Apart (area base len) (get t i)
clears t base len o (clear h) e = h
clears t base len o (hit i lt used before after) e = absurd cc

pub whole_pages :
    (len : ℕ)
    → 0 < len
    → len ≤ 2 ^ 62
    → let alen = align_up len 4096 in
      (0 < alen) × (alen % 4096 ≡ 0) × (alen ≤ 2 ^ 63) × (len ≤ alen) × (alen < len + 4096)
whole_pages len pos small = omega (arith, page_mask (add64 len 4095) (omega arith))

-- The proposed address, or none.
pub data HintOutcome (s : Space) (alen addr : ℕ) : Option Space → Type 0 where
  refused : HintOutcome s alen addr none
  taken : (s' : Space) → IsMapped s alen addr s' → HintOutcome s alen addr (some s')

module _ (s : Space) (v : IsValid s) (alen addr : ℕ) (pos : 0 < alen) (pages : alen % 4096 ≡ 0)
    (small : alen ≤ 2 ^ 63) (aligned : addr % 4096 ≡ 0) (lt : addr < 2 ^ 64) where
  takes :
      (slot : ℕ)
      → free_vma s.vmas ≡ some slot
      → hint_fits s addr alen ≡ true
      → HintOutcome s alen addr (some (record s { vmas = put s.vmas slot (area addr alen) }))
  takes slot e h =
      let (up, from, below, above, clear_now) = hint_tests alen pos pages small s addr h in
      let (in_t, free) = free_vma_free s.vmas slot e in
      let hi : proc_mmap_hi s.stack_low ≤ 0x600000 = (proc_mmap_hi_lem s.stack_low v.stack).1 in
      let clear_of : (i : ℕ)
          → i < 32
          → (get s.vmas i).used ≡ true
          → Apart (area addr alen) (get s.vmas i) =
        clears s.vmas addr alen (vma_overlaps s.vmas addr alen)
          (vma_overlaps-OverlapOutcome s.vmas addr alen v.areas (omega arith)) clear_now in
      taken _ (record {
        slot = slot;
        in_table = in_t;
        was_free = free;
        now = refl;
        aligned = aligned;
        above_heap =
            heap_limit-AboveHeap s v.heap v.heap_end addr (omega (arith, heap_limit-lt s v));
        below_stack = hi-BelowStack s.stack_low (addr + alen) (omega arith);
        clear_of = clear_of;
        valid = record {
          areas =
              entry-AreAreas alen pos pages small s slot addr v aligned from (omega arith) clear_of;
          heap = v.heap;
          heap_end = v.heap_end;
          stack = v.stack;
          saved_stack = v.saved_stack;
          next = v.next;
        };
      })

  pub hints : HintOutcome s alen addr (try_hint s addr alen)
  unfolding try_hint
  hints = elim (Option-cases (free_vma s.vmas)) [
    | inl e ↦ rw (e, try_hint) refused
    | inr (slot, e) ↦
        rw (e, try_hint)
          (if_cases (HintOutcome s alen addr) (hint_fits s addr alen) (λ h. takes slot e h)
            (λ _. refused))
  ]

module _ (s : Space) (v : IsValid s) (addr len flags fd off : ℕ) (addr_lt : addr < 2 ^ 64)
    (small : len ≤ 2 ^ 62) where
  abbrev Good : Option (Space × Result ℕ) → Type 0
  Good = MmapOutcome s addr len flags fd off (align_up len 4096)
