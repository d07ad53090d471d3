-- ===== src/Mmap/Areas.antt =====
-- The areas of a process: the invariant, the addresses that they cover, and the search for overlaps.
use mona_rpzero.Prelude.{
  ℕ, ◌+◌, ◌%◌, ◌^◌, ◌≤◌, ◌<◌, ◌≡◌, sym, ◌∙◌, ◌≢◌, ◌⊎◌, inl, inr, Bool, true, false, not, ◌&&◌, ◌||◌,
  Option, none, some, Option-cases, leb, Table, get, put, put_cases, first, first-IsFirst,
  first-none, IsFirst, add64, arith, page_mask,
}
use mona_rpzero.Mmap.{Vma, area, overlaps_at, vma_overlaps, free_vma, below_stack, proc_mmap_hi}

-- A used area: whole pages, at least one, in the user region.
pub record IsArea (v : Vma) : Type 0 where
  pub aligned : v.base % 4096 ≡ 0
  pub pages : v.len % 4096 ≡ 0
  pub some_bytes : 0 < v.len
  pub from : 0x400000 ≤ v.base
  pub to : v.base + v.len ≤ 0x600000

abbrev pub Apart : Vma → Vma → Type 0
Apart v w = (v.base + v.len ≤ w.base) ⊎ (w.base + w.len ≤ v.base)

-- The table of areas: every used one is an area, and no two overlap.
pub record AreAreas (t : Table Vma) : Type 0 where
  pub each : (i : ℕ) → i < 32 → (get t i).used ≡ true → IsArea (get t i)
  pub apart :
      (i j : ℕ)
      → i < 32
      → j < 32
      → i ≢ j
      → (get t i).used ≡ true
      → (get t j).used ≡ true
      → Apart (get t i) (get t j)

-- Address `a` lies in the area, or in any area of the table.
abbrev pub In : Vma → ℕ → Type 0
In v a = (v.used ≡ true) × (v.base ≤ a) × (a < v.base + v.len)

abbrev pub Covered : Table Vma → ℕ → Type 0
Covered t a = (i : ℕ) × (i < 32) × In (get t i) a

-- An area written over another, where it keeps apart from the rest.
pub put-AreAreas :
    (t : Table Vma) (i : ℕ) (v : Vma)
    → AreAreas t
    → (v.used ≡ true → IsArea v)
    → ((j : ℕ) → j < 32 → j ≢ i → v.used ≡ true → (get t j).used ≡ true → Apart v (get t j))
    → AreAreas (put t i v)
put-AreAreas t i v ok_areas is_area apart = record {
  each = λ j lt.
      put_cases (λ w. w.used ≡ true → IsArea w) t i v j (λ e. is_area) (λ ne. ok_areas.each j lt);
  apart = λ j k j_lt k_lt ne.
      put_cases (λ w. w.used ≡ true → (get (put t i v) k).used ≡ true → Apart w (get (put t i v) k))
        t i v j
        (λ j_is.
          put_cases (λ w. v.used ≡ true → w.used ≡ true → Apart v w) t i v k
            (λ k_is. absurd (ne (j_is ∙ sym k_is))) (λ k_not. apart k k_lt k_not))
        (λ j_not.
          put_cases (λ w. (get t j).used ≡ true → w.used ≡ true → Apart (get t j) w) t i v k
            (λ k_is used v_used. swap (get t j) v (apart j j_lt j_not v_used used))
            (λ k_not. ok_areas.apart j k j_lt k_lt ne));
}
  where
    swap : (a b : Vma) → Apart b a → Apart a b
    swap a b (inl h) = inr h
    swap a b (inr h) = inl h

-- What the test for an overlap says of an area.
overlaps_true :
    (v : Vma) (base end : ℕ)
    → (v.used ≡ true → IsArea v)
    → (v.used && not (leb end v.base || leb (add64 v.base v.len) base)) ≡ true
    → (v.used ≡ true) × (v.base < end) × (base < v.base + v.len)
overlaps_true v base end is_area h = ground (arith, is_area)

overlaps_false :
    (v : Vma) (base end : ℕ)
    → (v.used ≡ true → IsArea v)
    → (v.used && not (leb end v.base || leb (add64 v.base v.len) base)) ≡ false
    → v.used ≡ true
    → (end ≤ v.base) ⊎ (v.base + v.len ≤ base)
overlaps_false v base end is_area h used = ground (arith, is_area)

-- `vma_overlaps` on a valid table, for a range that does not wrap: none exactly if every area keeps
-- away from the range; else the base of an area that does not.
pub data OverlapOutcome (t : Table Vma) (base len : ℕ) : Option ℕ → Type 0 where
  clear :
      ((i : ℕ) → i < 32 → (get t i).used ≡ true → Apart (area base len) (get t i))
      → OverlapOutcome t base len none
  hit :
      (i : ℕ)
      → i < 32
      → (get t i).used ≡ true
      → (get t i).base < base + len
      → base < (get t i).base + (get t i).len
      → OverlapOutcome t base len (some (get t i).base)

pub vma_overlaps-OverlapOutcome :
    (t : Table Vma) (base len : ℕ)
    → AreAreas t
    → base + len < 2 ^ 64
    → OverlapOutcome t base len (vma_overlaps t base len)
unfolding vma_overlaps
vma_overlaps-OverlapOutcome t base len areas no_wrap =
    elim (Option-cases (first (overlaps_at t base (add64 base len)) 0 32)) [
      | inl e ↦
          rw (e, vma_overlaps)
            (clear (λ i lt used. keeps (get t i) (
              overlaps_false (get t i) base (add64 base len) (areas.each i lt)
                (first-none _ 0 32 e i (omega arith) (omega arith)) used)))
      | inr (i, e) ↦
          let f : IsFirst (overlaps_at t base (add64 base len)) 0 32 i = first-IsFirst _ 0 32 e in
          let lt : i < 32 = omega (arith, f.below) in
          let h : ((get t i).used ≡ true)
              × ((get t i).base < add64 base len)
              × (base < (get t i).base + (get t i).len) =
            overlaps_true (get t i) base (add64 base len) (areas.each i lt) f.passes in
          rw (e, vma_overlaps) (hit i lt h.0 (omega (arith, h.1)) h.2)
    ]
  where
    keeps :
        (v : Vma) → (add64 base len ≤ v.base) ⊎ (v.base + v.len ≤ base) → Apart (area base len) v
    keeps v h = ground arith

-- The search for a free entry.
pub free_vma_free :
    (t : Table Vma) (i : ℕ) → free_vma t ≡ some i → (i < 32) × ((get t i).used ≡ false)
unfolding free_vma
free_vma_free t i e =
    let f : IsFirst (λ j. not (get t j).used) 0 32 i = first-IsFirst _ 0 32 e in
    (omega (arith, f.below), is_false (get t i).used f.passes)
  where
    is_false : (b : Bool) → not b ≡ true → b ≡ false
    is_false b h = ground arith

pub free_vma_full : (t : Table Vma) → free_vma t ≡ none → (i : ℕ) → i < 32 → (get t i).used ≡ true
unfolding free_vma
free_vma_full t e i lt =
    is_true (get t i).used
      (first-none (λ j. not (get t j).used) 0 32 e i (omega arith) (omega arith))
  where
    is_true : (b : Bool) → not b ≡ false → b ≡ true
    is_true b h = ground arith

-- The ceiling of the areas is a page of the user region.
pub proc_mmap_hi_lem :
    (stack_low : ℕ)
    → stack_low < 2 ^ 64
    → (0x400000 ≤ proc_mmap_hi stack_low)
      × (proc_mmap_hi stack_low ≤ 0x600000)
      × (proc_mmap_hi stack_low % 4096 ≡ 0)
unfolding proc_mmap_hi
proc_mmap_hi_lem stack_low lt = ground (arith, page_mask (below_stack stack_low), below_lem)
  where
    below_lem : (0x400000 < below_stack stack_low) × (below_stack stack_low ≤ 0x600000)
    below_lem = ground arith
