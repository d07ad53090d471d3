-- ===== src/Mmap/Brk.antt =====
-- `sys_brk` on every branch.
use mona_rpzero.Prelude.{
  ℕ, ◌+◌, ◌*◌, ◌/◌, ◌^◌, ◌≤◌, ◌<◌, ◌≡◌, ◌⊎◌, inl, inr, Bool-cases, ltb→lt, true, get, ltb, ◌||◌,
  ◌==◌, if◌then◌else◌, if_cases, arith, add64, line_mask, subst, sym,
}
use mona_rpzero.Pmm.{align_up}
use mona_rpzero.Mmap.{Vma, Space, below_stack, lazy_bounds, sys_brk}
use mona_rpzero.Mmap.Limits.{BelowStack, below_stack-BelowStack, BelowStack-le}
use mona_rpzero.Mmap.Areas.{IsArea}
use mona_rpzero.Mmap.Map.{IsValid}
use mona_rpzero.Mmap.Call.{lazy_bounds-IsValid}

-- The next multiple of 16.
abbrev pub rounded : ℕ → ℕ
rounded n = (n + 15) / 16 * 16

-- What `sys_brk` gives, with the bounds set.
pub data BrkOutcome (s : Space) (newbrk : ℕ) : Space × ℕ → Type 0 where
  asked : newbrk ≡ 0 → BrkOutcome s newbrk (s, s.heap_end)
  refused :
      (rounded newbrk < s.heap_base) ⊎ (¬ BelowStack s.stack_low (rounded newbrk))
      → BrkOutcome s newbrk (s, s.heap_end)
  moved :
      s.heap_base ≤ rounded newbrk
      → BelowStack s.stack_low (rounded newbrk)
      → IsValid (record s { heap_end = rounded newbrk })
      → BrkOutcome s newbrk (record s { heap_end = rounded newbrk }, rounded newbrk)

below_stack-le : (stack_low : ℕ) → below_stack stack_low ≤ 0x600000
below_stack-le stack_low = ground arith

rounds : (n : ℕ) → n < 2 ^ 63 → align_up n 16 ≡ rounded n
rounds n lt = omega (arith, line_mask (add64 n 15) (omega arith))

module _ (s : Space) (newbrk : ℕ) (v : IsValid s) where
  limits :
      (brk : ℕ)
      → brk ≡ rounded newbrk
      → (ltb brk s.heap_base || ltb (below_stack s.stack_low) brk) ≡ true
      → (rounded newbrk < s.heap_base) ⊎ (¬ BelowStack s.stack_low (rounded newbrk))
  limits brk e h = elim (Bool-cases (ltb brk s.heap_base)) [
    | inl low ↦ inl (omega (arith, ltb→lt brk s.heap_base low))
    | inr enough ↦
        let high : below_stack s.stack_low < brk = ground arith in
        inr (λ b. omega (arith, BelowStack-le s.stack_low (rounded newbrk) b))
  ]

  tests :
      (brk : ℕ)
      → brk ≡ rounded newbrk
      → BrkOutcome s newbrk (
          if newbrk == 0
          then (s, s.heap_end)
          else if ltb brk s.heap_base || ltb (below_stack s.stack_low) brk
          then (s, s.heap_end)
          else (record s { heap_end = brk }, brk))
  tests brk e =
      if_cases (BrkOutcome s newbrk) (newbrk == 0) (λ h. asked (ground arith))
        (λ nz.
          if_cases (BrkOutcome s newbrk) (ltb brk s.heap_base || ltb (below_stack s.stack_low) brk)
            (λ h. refused (limits brk e h))
            (λ h.
              subst (λ b. BrkOutcome s newbrk (record s { heap_end = b }, b)) (sym e)
                (moved (ground arith)
                  (below_stack-BelowStack s.stack_low (rounded newbrk) (ground arith))
                  (record {
                    areas = v.areas;
                    heap = v.heap;
                    heap_end = ground (arith, below_stack-le s.stack_low);
                    stack = v.stack;
                    saved_stack = v.saved_stack;
                    next = v.next;
                  }))))

-- `sys_brk` below 2^63: the break is asked for, refused, or moved to the next multiple of 16, which
-- lies between the heap's base and the end of the user region and, where the stack lies above 0x440000,
-- 256 KiB below it; it is refused only outside these limits. The value returned is the break
-- afterwards.
pub sys_brk-BrkOutcome :
    (s : Space) (newbrk : ℕ)
    → IsValid s
    → newbrk < 2 ^ 63
    → BrkOutcome (lazy_bounds s) newbrk (sys_brk s newbrk)
unfolding sys_brk
sys_brk-BrkOutcome s newbrk v lt =
    tests (lazy_bounds s) newbrk (lazy_bounds-IsValid s v).0 (align_up newbrk 16) (rounds newbrk lt)

-- The break is not compared with the mapped areas: with an area between the heap and the guard of the
-- stack, a break at the end of the area is granted, and the heap then contains the area.
pub brk_over_area :
    (s : Space) (i : ℕ)
    → IsValid s
    → i < 32
    → (get (lazy_bounds s).vmas i).used ≡ true
    → (lazy_bounds s).heap_base ≤ (get (lazy_bounds s).vmas i).base
    → (get (lazy_bounds s).vmas i).base + (get (lazy_bounds s).vmas i).len
      ≤ below_stack (lazy_bounds s).stack_low
    → let v = get (lazy_bounds s).vmas i in
      let (s', brk) = sys_brk s (v.base + v.len) in
      (brk ≡ v.base + v.len) × (s'.heap_end ≡ v.base + v.len) × (v.base < s'.heap_end)
brk_over_area s i v lt used above below =
    outcome ((lazy_bounds-IsValid s v).0.areas.each i lt used) (sys_brk s (a.base + a.len)) (
      sys_brk-BrkOutcome s (a.base + a.len) v
        (omega (arith, below_stack-le (lazy_bounds s).stack_low)))
  where
    a : Vma
    a = get (lazy_bounds s).vmas i

    outcome :
        IsArea (get (lazy_bounds s).vmas i)
        → (x : Space × ℕ) → BrkOutcome (lazy_bounds s) (a.base + a.len) x
        → (x.1 ≡ a.base + a.len) × (x.0.heap_end ≡ a.base + a.len) × (a.base < x.0.heap_end)
    outcome area x (asked z) = absurd (omega (arith, area.some_bytes))
    outcome area x (refused (inl low)) = absurd (omega (arith, area.aligned, area.pages))
    outcome area x (refused (inr high)) = absurd (
        high (
          below_stack-BelowStack (lazy_bounds s).stack_low (rounded (a.base + a.len))
            (omega (arith, area.aligned, area.pages))))
    outcome area x (moved h h' v') = omega (arith, area.aligned, area.pages, area.some_bytes)
