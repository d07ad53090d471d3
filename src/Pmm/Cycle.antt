-- ===== src/Pmm/Cycle.antt =====
-- An allocation followed by the release of what it returned.
use mona_rpzero.Prelude.{
  ℕ, ◌<◌, ◌≡◌, ap, ◌≢◌, if◌then◌else◌, arith, inl, inr, ◌⊎◌, sum_below, sum_below_cong,
}
use mona_rpzero.Pmm.{Pmm, alloc_page, free_page}
use mona_rpzero.Pmm.Invariant.{IsValid, SameRange, in_use, count_free, free_bit}
use mona_rpzero.Pmm.Alloc.{Allocates, alloc_page-Allocates, free_page-Frees}

-- Two allocators of one range with the same pages in use have the same counter.
pub same_counter :
    {p q : Pmm}
    → IsValid p
    → IsValid q
    → SameRange p q
    → ((j : ℕ) → j < p.total_pages → in_use q j ≡ in_use p j)
    → q.free_pages ≡ p.free_pages
unfolding count_free
same_counter {p} {q} v w range same = omega (
  arith,
  v.counted,
  w.counted,
  range.total,
  ap (sum_below (free_bit q.bitmap)) range.total,
  sum_below_cong (free_bit q.bitmap) (free_bit p.bitmap) p.total_pages
      (λ j h. ap (λ b. if b then 0 else 1) (same j h)),
)

-- What an allocator looks like from outside: the pages in use, and the counter.
pub record Restores (p r : Pmm) : Type 0 where
  pub range : SameRange p r
  pub page : (j : ℕ) → j < p.total_pages → in_use r j ≡ in_use p j
  pub counter : r.free_pages ≡ p.free_pages

restored : {p q : Pmm} (pa idx : ℕ) → IsValid p → Allocates p q pa idx → Restores p (free_page q pa)
restored {p} {q} pa idx v a =
    let f =
      free_page-Frees q pa a.changed.valid (omega (arith, a.address, a.inside, v.span, v.top)) in
    let range : SameRange p (free_page q pa) = omega (arith, a.changed.range, f.range) in
    let page : (j : ℕ) → j < p.total_pages → in_use (free_page q pa) j ≡ in_use p j = λ j h.
      ground (
        arith,
        f.page j,
        a.changed.page j,
        a.was_free,
        a.address,
        a.changed.range.base,
        a.changed.range.total,
      ) in
    record { range = range; page = page; counter = same_counter v f.valid range page }

-- Releasing the page that `pmm_alloc_page` has just returned undoes the allocation: the same pages
-- are in use as before, and the counter is as before. There must have been a free page.
pub alloc_page-free_page :
    (p : Pmm)
    → IsValid p
    → p.free_pages ≢ 0
    → let (q, pa) = alloc_page p in Restores p (free_page q pa)
alloc_page-free_page p v ne = undo (alloc_page-Allocates p v)
  where
    undo :
        (((p.free_pages ≡ 0) × ((alloc_page p).0 ≡ p) × ((alloc_page p).1 ≡ 0))
          ⊎ ((idx : ℕ) × Allocates p (alloc_page p).0 (alloc_page p).1 idx))
        → Restores p (free_page (alloc_page p).0 (alloc_page p).1)
    undo (inl out) = absurd (ne out.0)
    undo (inr (idx, a)) = restored (alloc_page p).1 idx v a
