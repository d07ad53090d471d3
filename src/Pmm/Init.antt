-- ===== src/Pmm/Init.antt =====
-- `pmm_init`: a well-formed allocator whatever the firmware reports, with the reserved ranges in use.
use mona_rpzero.Prelude.{
  ℕ, zero, suc, ◌+◌, ◌-◌, ◌*◌, ◌/◌, ◌%◌, ◌^◌, ◌≤◌, ◌<◌, ◌≡◌, refl, sym, ap, ◌∙◌, Bool, true, false,
  not, ◌&&◌, ◌||◌, Table, for_below, get-for_below, ◌==◌, if◌then◌else◌, if_cases, arith, ltb, leb,
  leb_false→lt, lt→ltb, add64, page_mask, sum_below, bit, subst,
}
use mona_rpzero.Pmm.{
  Pmm, init, fresh_range, bitmap_clear_all, bitmap_set_all, reserve_range, bit_test, align_up,
  align_down, user_region_base, user_region_size, page_bytes, max_pages, no_memory, map_bytes,
}
use mona_rpzero.Pmm.Bitmap.{AreBytes}
use mona_rpzero.Pmm.Invariant.{IsValid, SameRange, in_use, count_free, free_bit, refl-SameRange}
use mona_rpzero.Pmm.Reserve.{Reserves, reserve_range-Reserves, touches, touches_at}

fill-AreBytes : (n b : ℕ) (m : Table ℕ) → AreBytes m → b < 256 → AreBytes (for_below n (λ _. b) m)
fill-AreBytes n b m v h i =
    subst (λ k. k < 256) (sym (get-for_below n (λ _. b) m i))
      (if_cases (λ k. k < 256) (ltb i n) (λ _. h) (λ _. v i))

sum_ones_all : (f : ℕ → ℕ) (n : ℕ) → ((i : ℕ) → i < n → f i ≡ 1) → sum_below f n ≡ n
unfolding sum_below
sum_ones_all f zero h = refl
sum_ones_all f (suc n) h =
    omega (arith, sum_ones_all f n (λ i p. h i (omega arith)), h n (omega arith))

clear-free :
    (total : ℕ) (m : Table ℕ) (i : ℕ)
    → total ≤ 262144
    → i < total
    → bit_test (bitmap_clear_all total m) i ≡ false
unfolding bit_test bitmap_clear_all
clear-free total m i small h =
    let bytes : map_bytes total ≡ (total + 7) / 8 = ground arith in
    ap (λ b. bit b (i % 8))
      (get-for_below (map_bytes total) (λ _. 0) m (i / 8)
        ∙ rw (bytes, lt→ltb (i / 8) ((total + 7) / 8) (omega arith)) refl)
    ∙ zero_bit (i % 8) (omega arith)
  where
    zero_bit : (k : ℕ) → k < 8 → bit 0 k ≡ false
    zero_bit k h = ground arith

-- The range before anything is reserved: all of its pages are free.
fresh_range-IsValid :
    (p : Pmm) (base end : ℕ)
    → AreBytes p.bitmap
    → base % 4096 ≡ 0
    → end % 4096 ≡ 0
    → base < end
    → end + 4096 ≤ 2 ^ 64
    → let q = fresh_range p base end in
      IsValid q × (q.base ≡ base) × ((j : ℕ) → j < q.total_pages → in_use q j ≡ false)
unfolding fresh_range
fresh_range-IsValid p base end v b0 e0 lt top = (
  record {
    bytes = unfold bitmap_clear_all in fill-AreBytes (map_bytes total) 0 p.bitmap v (omega arith);
    counted =
        unfold count_free in
        sym (
          sum_ones_all (free_bit (bitmap_clear_all total p.bitmap)) total
            (λ i h. ap (λ b. if b then 0 else 1) (free i h)));
    bounded = small;
    span = ground arith;
    aligned = b0;
    top = ground arith;
  },
  refl,
  free,
)
  where
    total : ℕ
    total =
        if ltb max_pages ((end - base) / page_bytes) then max_pages else (end - base) / page_bytes

    small : total ≤ 262144
    small = ground arith

    free : (i : ℕ) → i < total → bit_test (bitmap_clear_all total p.bitmap) i ≡ false
    free i h = clear-free total p.bitmap i small h

-- Page `j` has a byte in one of the ranges that `pmm_init` reserves: the first 2 MiB, the kernel
-- image, 64 KiB from the device tree on if there is one, and the user region.
abbrev pub reserved : Pmm → ℕ → ℕ → ℕ → ℕ → Bool
reserved q kernel_start kernel_end dtb_ptr j =
    touches q q.base (add64 q.base 0x200000) j
    || (touches q kernel_start kernel_end j
        || ((not (dtb_ptr == 0) && touches q dtb_ptr (add64 dtb_ptr 0x10000) j)
            || touches q user_region_base (user_region_base + user_region_size) j))

pub record Initial (q : Pmm) (kernel_start kernel_end dtb_ptr : ℕ) : Type 0 where
  pub valid : IsValid q
  pub page : (j : ℕ) → j < q.total_pages → in_use q j ≡ reserved q kernel_start kernel_end dtb_ptr j

-- Reserving the device tree's range, if there is one.
record Optional (p q : Pmm) (ptr : ℕ) : Type 0 where
  valid : IsValid q
  range : SameRange p q
  page :
      (j : ℕ)
      → j < p.total_pages
      → in_use q j
        ≡ (if not (ptr == 0) && touches p ptr (add64 ptr 0x10000) j then true else in_use p j)

reserve-Optional :
    (p : Pmm) (ptr : ℕ)
    → IsValid p
    → Optional p (if ptr == 0 then p else reserve_range p ptr (add64 ptr 0x10000)) ptr
reserve-Optional p ptr v =
    if_cases (λ q. Optional p q ptr) (ptr == 0)
      (λ z. record { valid = v; range = refl-SameRange p; page = λ j h. rw z refl })
      (λ nz.
        let r = reserve_range-Reserves p ptr (add64 ptr 0x10000) v in
        record { valid = r.valid; range = r.range; page = λ j h. rw nz (r.page j h) })

four_tests :
    (a b c d : Bool)
    → (if d then true else if c then true else if b then true else if a then true else false)
      ≡ (a || (b || (c || d)))
four_tests a b c d = ground arith

module _ {p0 low kernel dtb q : Pmm} (kernel_start kernel_end dtb_ptr : ℕ)
    (r1 : Reserves p0 low p0.base (add64 p0.base 0x200000))
    (r2 : Reserves low kernel kernel_start kernel_end) (r3 : Optional kernel dtb dtb_ptr)
    (r4 : Reserves dtb q user_region_base (user_region_base + user_region_size)) where
  stages-Initial :
      ((j : ℕ) → j < p0.total_pages → in_use p0 j ≡ false)
      → Initial q kernel_start kernel_end dtb_ptr
  stages-Initial free = record {
    valid = r4.valid;
    page = λ j h.
        let h3 : j < dtb.total_pages = omega (arith, r4.range.total) in
        let h2 : j < kernel.total_pages = omega (arith, r3.range.total) in
        let h1 : j < low.total_pages = omega (arith, r2.range.total) in
        let h0 : j < p0.total_pages = omega (arith, r1.range.total) in
        let to_q : dtb.base ≡ q.base = sym r4.range.base in
        let k_q : kernel.base ≡ q.base = sym r3.range.base ∙ to_q in
        let l_q : low.base ≡ q.base = sym r2.range.base ∙ k_q in
        let p_q : p0.base ≡ q.base = sym r1.range.base ∙ l_q in
        rw (r4.page j h3, r3.page j h2, r2.page j h1, r1.page j h0, free j h0, to_q, k_q, l_q, p_q)
          (four_tests (touches_at q.base q.base (add64 q.base 0x200000) j)
            (touches_at q.base kernel_start kernel_end j)
            (not (dtb_ptr == 0) && touches_at q.base dtb_ptr (add64 dtb_ptr 0x10000) j)
            (touches_at q.base user_region_base (user_region_base + user_region_size) j));
  }

reserve_all :
    (p0 : Pmm) (kernel_start kernel_end dtb_ptr : ℕ)
    → IsValid p0
    → ((j : ℕ) → j < p0.total_pages → in_use p0 j ≡ false)
    → let low = reserve_range p0 p0.base (add64 p0.base 0x200000) in
      let kernel = reserve_range low kernel_start kernel_end in
      let dtb =
        if dtb_ptr == 0 then kernel else reserve_range kernel dtb_ptr (add64 dtb_ptr 0x10000) in
      Initial
        (reserve_range dtb user_region_base (user_region_base + user_region_size))
        kernel_start
        kernel_end
        dtb_ptr
reserve_all p0 kernel_start kernel_end dtb_ptr v free =
    let low = reserve_range-Reserves p0 p0.base (add64 p0.base 0x200000) v in
    let kernel = reserve_range-Reserves _ kernel_start kernel_end low.valid in
    let dtb = reserve-Optional _ dtb_ptr kernel.valid in
    let user =
      reserve_range-Reserves _ user_region_base (user_region_base + user_region_size) dtb.valid in
    stages-Initial kernel_start kernel_end dtb_ptr low kernel dtb user free

no_memory-Initial :
    (p : Pmm) (kernel_start kernel_end dtb_ptr : ℕ)
    → AreBytes p.bitmap
    → Initial (no_memory p) kernel_start kernel_end dtb_ptr
unfolding bitmap_set_all count_free sum_below
no_memory-Initial p kernel_start kernel_end dtb_ptr v = record {
  valid = record {
    bytes = fill-AreBytes _ 0xff p.bitmap v (omega arith);
    counted = refl;
    bounded = omega arith;
    span = refl;
    aligned = refl;
    top = omega arith;
  };
  page = λ j h. elim h [ ];
}

-- `pmm_init`, for any numbers from the firmware: the allocator is well formed, and a page of the
-- memory is in use exactly if it has a byte in one of the four reserved ranges. (If the memory is
-- refused, it has no pages.)
pub init-Initial :
    (p : Pmm) (mem_base mem_size kernel_start kernel_end dtb_ptr : ℕ)
    → AreBytes p.bitmap
    → Initial
        (init p mem_base mem_size kernel_start kernel_end dtb_ptr)
        kernel_start
        kernel_end
        dtb_ptr
unfolding init fresh_range
init-Initial p mem_base mem_size kernel_start kernel_end dtb_ptr v =
    let P = λ (q : Pmm). Initial q kernel_start kernel_end dtb_ptr in
    let base = align_up mem_base 4096 in
    let end = align_down (add64 mem_base mem_size) 4096 in
    let base_at : base ≡ (mem_base + 4095) % 2 ^ 64 / 4096 * 4096 =
      page_mask (add64 mem_base 4095) (omega arith) in
    let end_at : end ≡ (mem_base + mem_size) % 2 ^ 64 / 4096 * 4096 =
      page_mask (add64 mem_base mem_size) (omega arith) in
    if_cases P (ltb mem_size (4096 * 16))
      (λ _. no_memory-Initial p kernel_start kernel_end dtb_ptr v)
      (λ _.
        if_cases P (leb end base) (λ _. no_memory-Initial p kernel_start kernel_end dtb_ptr v)
          (λ lt.
            let fresh =
              fresh_range-IsValid p base end v (omega (arith, base_at)) (omega (arith, end_at))
                (leb_false→lt end base lt) (omega (arith, end_at)) in
            reserve_all (fresh_range p base end) kernel_start kernel_end dtb_ptr fresh.0 fresh.2))
