-- ===== src/Mmap/Search.antt =====
-- The search of `sys_mmap` for a range of addresses: what it finds, and that it ends.
use mona_rpzero.Prelude.{
  ℕ, zero, suc, ◌+◌, ◌-◌, ◌%◌, ◌^◌, ◌≤◌, ◌<◌, ◌≡◌, refl, sym, ◌≢◌, Bool-cases, ltb→lt, inl, inr,
  true, false, Option, none, some, Option-cases, ltb, ◌==◌, get, put, add64, sub64, arith, subst,
  if_cases, page_mask, Result, ltb_false→le,
}
use mona_rpzero.Pmm.{align_down}
use mona_rpzero.Mmap.{
  Space, area, page, vma_overlaps, free_vma, proc_mmap_hi, heap_limit, heap_guard, place,
  search_down, tightened, allocate,
}
use mona_rpzero.Mmap.Areas.{
  AreAreas, Apart, put-AreAreas, OverlapOutcome, clear, hit, vma_overlaps-OverlapOutcome,
  free_vma_free, free_vma_full, proc_mmap_hi_lem,
}
use mona_rpzero.Mmap.Limits.{
  hi-BelowStack, BelowStack-hi, heap_limit-AboveHeap, AboveHeap-heap_limit,
}
use mona_rpzero.Mmap.Map.{
  IsValid, IsPlace, NoRoom, MapOutcome, no_room, mapped, heap_limit-lt, down-eq, down_lt,
  down_aligned,
}

module _ (alen : ℕ) (pos : 0 < alen) (pages : alen % 4096 ≡ 0) (small : alen ≤ 2 ^ 63) where
  -- A new entry keeps the table valid.
  pub entry-AreAreas :
      (s : Space) (slot base : ℕ)
      → IsValid s
      → base % 4096 ≡ 0
      → 0x400000 ≤ base
      → base + alen ≤ 0x600000
      → ((i : ℕ) → i < 32 → (get s.vmas i).used ≡ true → Apart (area base alen) (get s.vmas i))
      → AreAreas (put s.vmas slot (area base alen))
  entry-AreAreas s slot base v aligned from to clear_of =
      put-AreAreas s.vmas slot (area base alen) v.areas
        (λ u. record { aligned = aligned; pages = pages; some_bytes = pos; from = from; to = to })
        (λ j lt ne u used. clear_of j lt used)

  module _ (s : Space) (v : IsValid s) where
    places :
        (base : ℕ)
        → base % 4096 ≡ 0
        → 0x400000 ≤ base
        → heap_limit s + heap_guard ≤ base
        → base + alen ≤ proc_mmap_hi s.stack_low
        → ((i : ℕ) → i < 32 → (get s.vmas i).used ≡ true → Apart (area base alen) (get s.vmas i))
        → MapOutcome s alen (some (place s base alen))
    unfolding place
    places base aligned from above below clear_of = elim (Option-cases (free_vma s.vmas)) [
      | inl e ↦ rw (e, place) (no_room s (inl (free_vma_full s.vmas e)) refl v)
      | inr (slot, e) ↦
          let free : (slot < 32) × ((get s.vmas slot).used ≡ false) = free_vma_free s.vmas slot e in
          let hi : (0x400000 ≤ proc_mmap_hi s.stack_low)
              × (proc_mmap_hi s.stack_low ≤ 0x600000)
              × (proc_mmap_hi s.stack_low % 4096 ≡ 0) =
            proc_mmap_hi_lem s.stack_low v.stack in
          rw (e, place)
            (mapped base _ (record {
              slot = slot;
              in_table = free.0;
              was_free = free.1;
              now = refl;
              aligned = aligned;
              above_heap = heap_limit-AboveHeap s v.heap v.heap_end base above;
              below_stack = hi-BelowStack s.stack_low (base + alen) below;
              clear_of = clear_of;
              valid = record {
                areas = entry-AreAreas s slot base v aligned from (omega (arith, hi.1)) clear_of;
                heap = v.heap;
                heap_end = v.heap_end;
                stack = v.stack;
                saved_stack = v.saved_stack;
                next = omega (arith, hi.1);
              };
            }))
    ]

    -- No place ends between `end` and the address where the last search ended.
    abbrev Passed : ℕ → Type 0
    Passed end = (b : ℕ) → IsPlace s alen b → b + alen ≤ s.mmap_next → b + alen ≤ end

    nothing_below :
        (end : ℕ)
        → s.mmap_next ≢ 0
        → Passed end
        → ((b : ℕ) → IsPlace s alen b → b + alen ≤ end → ⊥)
        → NoRoom s alen
    nothing_below end nz passed none_left = inr (λ b p. (
      nz,
      elim (Bool-cases (ltb s.mmap_next (b + alen))) [
        | inl h ↦ ltb→lt _ _ h
        | inr h ↦ absurd (none_left b p (passed b p (ltb_false→le s.mmap_next (b + alen) h)))
      ],
    ))

    -- The search from a page below the ceiling ends within as many rounds as the page's number, and
    -- one.
    searches :
        (fuel end : ℕ)
        → end < fuel
        → end % 4096 ≡ 0
        → end ≤ proc_mmap_hi s.stack_low
        → s.mmap_next ≢ 0
        → Passed end
        → MapOutcome s alen (search_down fuel s alen end)
    unfolding search_down
    searches zero end lt aligned below nz passed = absurd (omega arith)
    searches (suc fuel) end lt aligned below nz passed =
        if_cases (MapOutcome s alen) (ltb end (add64 0x400000 alen))
          (λ small_end.
            let short : end < 0x400000 + alen =
              omega (arith, ltb→lt end (add64 0x400000 alen) small_end) in
            no_room s (nothing_below end nz passed (λ b p le. omega (arith, short, p.in_region)))
              refl v)
          (λ room.
            let top : proc_mmap_hi s.stack_low ≤ 0x600000 =
              (proc_mmap_hi_lem s.stack_low v.stack).1 in
            let fits : 0x400000 + alen ≤ end =
              omega (arith, ltb_false→le end (add64 0x400000 alen) room) in
            let base : ℕ = align_down (sub64 end alen) page in
            let at : base ≡ end - alen =
              down-eq end alen aligned pages (omega arith) (omega arith) in
            if_cases (MapOutcome s alen) (ltb base (add64 (heap_limit s) heap_guard))
              (λ heap.
                let low : base < heap_limit s + heap_guard =
                  omega (
                    arith,
                    heap_limit-lt s v,
                    ltb→lt base (add64 (heap_limit s) heap_guard) heap,
                  ) in
                no_room s
                  (nothing_below end nz passed (λ b p le. omega (
                    arith,
                    low,
                    at,
                    AboveHeap-heap_limit s v.heap v.heap_end b p.aligned p.above_heap,
                  )))
                  refl v)
              (λ above.
                retry (λ e e_lt even le. searches fuel e e_lt even le nz) base (omega (arith, at))
                  (omega (arith, at))
                  (omega (
                    arith,
                    heap_limit-lt s v,
                    ltb_false→le base (add64 (heap_limit s) heap_guard) above,
                  ))
                  (omega (arith, at)) (vma_overlaps s.vmas base alen)
                  (vma_overlaps-OverlapOutcome s.vmas base alen v.areas (omega (arith, at)))))
      where
        before_hit :
            (b i : ℕ)
            → i < 32
            → (get s.vmas i).used ≡ true
            → end - alen < (get s.vmas i).base + (get s.vmas i).len
            → alen ≤ end
            → Apart (area b alen) (get s.vmas i)
            → b + alen ≤ end
            → b + alen ≤ align_down (get s.vmas i).base 4096
        before_hit b i i_lt used after le (inl below_it) le_end =
            let r = v.areas.each i i_lt used in
            omega (arith, page_mask (get s.vmas i).base (omega (arith, r.to)), r.aligned, below_it)
        before_hit b i i_lt used after le (inr above_it) le_end = absurd (omega arith)

        retry :
            ((e : ℕ)
              → e < fuel
              → e % 4096 ≡ 0
              → e ≤ proc_mmap_hi s.stack_low
              → Passed e
              → MapOutcome s alen (search_down fuel s alen e))
            → (base : ℕ) → base % 4096 ≡ 0
            → 0x400000 ≤ base
            → heap_limit s + heap_guard ≤ base
            → base + alen ≡ end
            → (o : Option ℕ) → OverlapOutcome s.vmas base alen o
            → MapOutcome s alen (elim o [
              | none ↦ some (place s base alen)
              | some ovb ↦ search_down fuel s alen (align_down ovb page)
            ])
        retry again base even from high sum o (clear clear_of) =
            places base even from high (omega arith) clear_of
        retry again base even from high sum o (hit i i_lt used before after) =
            let top : proc_mmap_hi s.stack_low ≤ 0x600000 =
              (proc_mmap_hi_lem s.stack_low v.stack).1 in
            let in_region : (get s.vmas i).base + (get s.vmas i).len ≤ 0x600000 =
              (v.areas.each i i_lt used).to in
            let lower : align_down (get s.vmas i).base 4096 < end =
              down_lt (get s.vmas i).base end (omega arith) (omega arith) in
            again (align_down (get s.vmas i).base 4096) (omega arith)
              (down_aligned (get s.vmas i).base (omega arith)) (omega arith)
              (λ b p le.
                before_hit b i i_lt used (omega (arith, after, sum)) (omega (arith, sum))
                  (p.clear_of i i_lt used) (passed b p le))

  -- The same process with another place to start from.
  with_next-MapOutcome :
      (s : Space) (n : ℕ) (r : Option (Space × Result ℕ))
      → ((e : ℕ) → e ≤ proc_mmap_hi s.stack_low → (s.mmap_next ≢ 0 → e ≤ s.mmap_next) → e ≤ n)
      → MapOutcome (record s { mmap_next = n }) alen r
      → MapOutcome s alen r
  with_next-MapOutcome s n r reach (no_room s' (inl full) e v) = no_room s' (inl full) e v
  with_next-MapOutcome s n r reach (no_room s' (inr none_left) e v) =
      no_room s'
        (inr (λ b p.
          beyond b p
            (none_left b (record {
              aligned = p.aligned;
              in_region = p.in_region;
              above_heap = p.above_heap;
              below_stack = p.below_stack;
              clear_of = p.clear_of;
            })).1))
        e v
    where
      beyond :
          (b : ℕ) → IsPlace s alen b → n < b + alen → (s.mmap_next ≢ 0) × (s.mmap_next < b + alen)
      beyond b p above =
          let hi : b + alen ≤ proc_mmap_hi s.stack_low =
            BelowStack-hi s.stack_low (b + alen) (omega (arith, p.aligned, pages)) p.below_stack in
          elim (Bool-cases (ltb s.mmap_next (b + alen))) [
            | inl h ↦
                (λ z. omega (arith, reach (b + alen) hi (λ nz. absurd (nz z)), above), ltb→lt _ _ h)
            | inr h ↦ absurd (
                omega
                  (arith, reach (b + alen) hi (λ nz. ltb_false→le s.mmap_next (b + alen) h), above))
          ]
  with_next-MapOutcome s n r reach (mapped base s' m) = mapped base s' (record {
    slot = m.slot;
    in_table = m.in_table;
    was_free = m.was_free;
    now = m.now;
    aligned = m.aligned;
    above_heap = m.above_heap;
    below_stack = m.below_stack;
    clear_of = m.clear_of;
    valid = m.valid;
  })

  pub with_next-IsValid :
      (s : Space) (n : ℕ) → IsValid s → n < 2 ^ 64 → IsValid (record s { mmap_next = n })
  with_next-IsValid s n v lt = record {
    areas = v.areas;
    heap = v.heap;
    heap_end = v.heap_end;
    stack = v.stack;
    saved_stack = v.saved_stack;
    next = lt;
  }

  -- Where the search starts: at most the ceiling, and no place is left out that ends below the last
  -- one.
  abbrev Start : Space → Space → Type 0
  Start s x =
      (n : ℕ) × (x ≡ record s { mmap_next = n })
      × (n ≤ proc_mmap_hi s.stack_low)
      × (n ≢ 0)
      × ((e : ℕ) → e ≤ proc_mmap_hi s.stack_low → (s.mmap_next ≢ 0 → e ≤ s.mmap_next) → e ≤ n)

  pub tightened-Start : (s : Space) → s.stack_low < 2 ^ 64 → Start s (tightened s)
  tightened-Start s lt =
      let hi : 0x400000 ≤ proc_mmap_hi s.stack_low = (proc_mmap_hi_lem s.stack_low lt).0 in
      if_cases (Start s) (s.mmap_next == 0)
        (λ _. (proc_mmap_hi s.stack_low, refl, omega arith, omega arith, λ e le h. le))
        (λ nz.
          let not_zero : s.mmap_next ≢ 0 = ground arith in
          if_cases (Start s) (ltb (proc_mmap_hi s.stack_low) s.mmap_next)
            (λ _. (proc_mmap_hi s.stack_low, refl, omega arith, omega arith, λ e le h. le))
            (λ h. (
              s.mmap_next,
              refl,
              ltb_false→le (proc_mmap_hi s.stack_low) s.mmap_next h,
              not_zero,
              λ e le below. below not_zero,
            )))

  pub allocates : (s : Space) → IsValid s → MapOutcome s alen (allocate s alen)
  unfolding allocate
  allocates s v =
      let (n, e, le, nz, reach) = tightened-Start s v.stack in
      let top : proc_mmap_hi s.stack_low ≤ 0x600000 = (proc_mmap_hi_lem s.stack_low v.stack).1 in
      let lower : align_down n 4096 ≤ n = omega (arith, page_mask n (omega arith)) in
      subst
        (λ (x : Space).
          MapOutcome s alen
            (search_down (suc (align_down x.mmap_next page)) x alen (align_down x.mmap_next page)))
        (sym e)
        (with_next-MapOutcome s n _ reach (
          searches (record s { mmap_next = n }) (with_next-IsValid s n v (omega arith))
            (suc (align_down n page)) (align_down n page) (omega arith)
            (down_aligned n (omega arith)) (omega arith) nz
            (λ b p below. omega (arith, page_mask n (omega arith), p.aligned, pages, below))))
