-- ===== src/Pmm/RegionFree.antt =====
-- The release of a 2 MiB region, and the memories whose base is no multiple of 2 MiB.
use Prim.Native.Nat.{bit_and}
use mona_rpzero.Prelude.{
  ℕ, zero, suc, ◌+◌, ◌*◌, ◌%◌, ◌≤◌, ◌<◌, ◌≡◌, refl, ◌∙◌, ◌≢◌, false, ==_ne, if◌then◌else◌, arith,
  add64, inl, inr, region_offset,
}
use mona_rpzero.Pmm.{Pmm, alloc_2mib_aligned, free_page, free_pages_from, free_2mib_aligned}
use mona_rpzero.Pmm.Invariant.{IsValid, SameRange, in_use, trans-SameRange, refl-SameRange}
use mona_rpzero.Pmm.Alloc.{free_page-Frees}
use mona_rpzero.Pmm.Cycle.{Restores, same_counter}
use mona_rpzero.Pmm.Region.{within, AllocatesRegion, Searched, alloc_2mib_aligned-Searched}

record FreesAll (p q : Pmm) (from n : ℕ) : Type 0 where
  valid : IsValid q
  range : SameRange p q
  page : (j : ℕ) → j < p.total_pages → in_use q j ≡ (if within from n j then false else in_use p j)

free_pages_from-FreesAll :
    (n : ℕ) (p : Pmm) (pa start i : ℕ)
    → IsValid p
    → pa ≡ p.base + start * 4096
    → start + i + n ≤ p.total_pages
    → FreesAll p (free_pages_from n p pa i) (start + i) n
unfolding free_pages_from
free_pages_from-FreesAll zero p pa start i v at le = record {
  valid = v;
  range = refl-SameRange p;
  page = λ j h. ground arith;
}
free_pages_from-FreesAll (suc n) p pa start i v at le =
    let addr : add64 pa (i * 4096) ≡ p.base + (start + i) * 4096 = omega (arith, v.span, v.top) in
    let one = free_page-Frees p (add64 pa (i * 4096)) v (omega arith) in
    let rest =
      free_pages_from-FreesAll n (free_page p (add64 pa (i * 4096))) pa start (i + 1) one.valid
        (omega (arith, one.range.base)) (omega (arith, one.range.total)) in
    record {
      valid = rest.valid;
      range = trans-SameRange one.range rest.range;
      page =
          λ j h. ground (arith, rest.page j (omega (arith, one.range.total)), one.page j h, addr);
    }

region_restored :
    {p q : Pmm} (pa start : ℕ)
    → IsValid p
    → p.base % 0x200000 ≡ 0
    → pa ≢ 0
    → AllocatesRegion p q pa start
    → Restores p (free_2mib_aligned q pa)
unfolding free_2mib_aligned
region_restored {p} {q} pa start v b0 ne a =
    let even : bit_and pa 0x1fffff ≡ 0 = region_offset pa ∙ omega (arith, a.aligned, a.address) in
    let all =
      free_pages_from-FreesAll 512 q pa start 0 a.valid (omega (arith, a.address, a.range.base))
        (omega (arith, a.inside, a.range.total)) in
    let range : SameRange p (free_pages_from 512 q pa 0) = trans-SameRange a.range all.range in
    let page : (j : ℕ) → j < p.total_pages → in_use (free_pages_from 512 q pa 0) j ≡ in_use p j =
      λ j h. ground (arith, all.page j (omega (arith, a.range.total)), a.page j, a.were_free j) in
    rw (==_ne pa 0 ne, even)
      (record { range = range; page = page; counter = same_counter v all.valid range page })

-- Where the memory starts at a multiple of 2 MiB, releasing the region that
-- `pmm_alloc_2mib_aligned` has just returned undoes the allocation: the same pages are in use as
-- before, and the counter is as before.
pub alloc_2mib_aligned-free :
    (p : Pmm)
    → IsValid p
    → p.base % 0x200000 ≡ 0
    → (alloc_2mib_aligned p).1 ≢ 0
    → Restores p (free_2mib_aligned (alloc_2mib_aligned p).0 (alloc_2mib_aligned p).1)
alloc_2mib_aligned-free p v b0 ne = undo (alloc_2mib_aligned-Searched p v)
  where
    undo :
        Searched p (alloc_2mib_aligned p).0 (alloc_2mib_aligned p).1 0
        → Restores p (free_2mib_aligned (alloc_2mib_aligned p).0 (alloc_2mib_aligned p).1)
    undo (inl out) = absurd (ne out.1)
    undo (inr (start, a)) = region_restored (alloc_2mib_aligned p).1 start v b0 ne a

-- `pmm_init` rounds the base up to 4 KiB only. Where it is no multiple of 2 MiB, no region that
-- `pmm_alloc_2mib_aligned` returns is one either: its address leaves the base's remainder, and
-- `pmm_free_2mib_aligned` refuses it, so that the 512 pages stay in use.
pub misaligned_region_leaks :
    (p : Pmm)
    → IsValid p
    → p.base % 0x200000 ≢ 0
    → (alloc_2mib_aligned p).1 ≢ 0
    → let (q, pa) = alloc_2mib_aligned p in
      (pa % 0x200000 ≡ p.base % 0x200000)
      × (free_2mib_aligned q pa ≡ q)
      × (q.free_pages + 512 ≡ p.free_pages)
unfolding free_2mib_aligned
misaligned_region_leaks p v off ne = leak (alloc_2mib_aligned-Searched p v)
  where
    leak :
        Searched p (alloc_2mib_aligned p).0 (alloc_2mib_aligned p).1 0
        → let (q, pa) = alloc_2mib_aligned p in
          (pa % 0x200000 ≡ p.base % 0x200000)
          × (free_2mib_aligned q pa ≡ q)
          × (q.free_pages + 512 ≡ p.free_pages)
    leak (inl out) = absurd (ne out.1)
    leak (inr (start, a)) =
        let same : (alloc_2mib_aligned p).1 % 0x200000 ≡ p.base % 0x200000 =
          omega (arith, a.aligned, a.address) in
        (
          same,
          rw
              (
                ==_ne (alloc_2mib_aligned p).1 0 ne,
                region_offset (alloc_2mib_aligned p).1,
                same,
                ==_ne (p.base % 0x200000) 0 off,
              )
              refl,
          a.counter,
        )
