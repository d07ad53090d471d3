-- ===== src/Mmap/Cuts.antt =====
-- One area and a range to unmap: what is left of it.
use mona_rpzero.Prelude.{
  ℕ, ◌+◌, ◌-◌, ◌%◌, ◌≤◌, ◌<◌, ◌≡◌, refl, ◌↔◌, ◌⊎◌, inl, true, false, not, ◌&&◌, ◌||◌, ltb, leb,
  if◌then◌else◌, if_cases, add64, arith,
}
use mona_rpzero.Mmap.{Vma, Cut, kept, cut, split, cut_area}
use mona_rpzero.Mmap.Areas.{IsArea, In, Apart}

-- Outside of the range from `lo` to `hi`.
abbrev pub Outside : ℕ → ℕ → ℕ → Type 0
Outside lo hi a = (a < lo) ⊎ (hi ≤ a)

-- Within another area.
abbrev pub Within : Vma → Vma → Type 0
Within v w = (w.base ≤ v.base) × (v.base + v.len ≤ w.base + w.len)

-- What a round makes of a valid area, for a range of whole pages.
pub data CutOutcome (v : Vma) (lo hi : ℕ) : Cut → Type 0 where
  untouched : (v.used ≡ true → (hi ≤ v.base) ⊎ (v.base + v.len ≤ lo)) → CutOutcome v lo hi kept
  shrunk :
      (w : Vma)
      → v.used ≡ true
      → v.base < hi
      → lo < v.base + v.len
      → (w.used ≡ true → IsArea w × Within w v)
      → ((a : ℕ) → In w a ↔ (In v a × Outside lo hi a))
      → CutOutcome v lo hi (cut w)
  halved :
      (l r : Vma)
      → v.used ≡ true
      → v.base < lo
      → hi < v.base + v.len
      → (l.used ≡ true) × IsArea l × Within l v
      → (r.used ≡ true) × IsArea r × Within r v
      → Apart l r
      → ((a : ℕ) → (In l a ⊎ In r a) ↔ (In v a × Outside lo hi a))
      → CutOutcome v lo hi (split l r)

module _ (v : Vma) (lo hi : ℕ) (is_area : v.used ≡ true → IsArea v) (lo_pages : lo % 4096 ≡ 0)
    (hi_pages : hi % 4096 ≡ 0) (range : lo < hi) where
  module _ (used : v.used ≡ true) (a : IsArea v) where
    whole :
        lo ≤ v.base
        → v.base + v.len ≤ hi
        → CutOutcome v lo hi (cut (record { used = false; base = 0; len = 0 }))
    whole below above =
        shrunk (record { used = false; base = 0; len = 0 }) used (omega (arith, a.some_bytes))
          (omega (arith, a.some_bytes)) (λ h. absurd cc)
          (λ x. (λ h. absurd (ground arith), λ h. absurd (ground arith)))

    front :
        (ve : ℕ)
        → ve ≡ v.base + v.len
        → lo ≤ v.base
        → v.base < hi
        → hi < ve
        → CutOutcome v lo hi (cut (record v { base = hi; len = ve - hi }))
    front ve e below over left =
        shrunk (record v { base = hi; len = ve - hi }) used over (omega (arith, a.some_bytes))
          (λ u. (
            record {
              aligned = hi_pages;
              pages = omega (arith, a.aligned, a.pages);
              some_bytes = omega arith;
              from = omega (arith, a.from);
              to = omega (arith, a.to);
            },
            omega arith,
          ))
          (λ x. (λ h. ground arith, λ h. ground arith))

    tail :
        v.base < lo
        → lo < v.base + v.len
        → v.base + v.len ≤ hi
        → CutOutcome v lo hi (cut (record v { len = lo - v.base }))
    tail above over below =
        shrunk (record v { len = lo - v.base }) used (omega (arith, a.some_bytes)) over
          (λ u. (
            record {
              aligned = a.aligned;
              pages = omega (arith, a.aligned, a.pages);
              some_bytes = omega arith;
              from = a.from;
              to = omega (arith, a.to);
            },
            omega arith,
          ))
          (λ x. (λ h. ground arith, λ h. ground arith))

    middle :
        (ve : ℕ)
        → ve ≡ v.base + v.len
        → v.base < lo
        → hi < ve
        → CutOutcome v lo hi (
            split
              (record v { len = lo - v.base })
              (record { used = true; base = hi; len = ve - hi }))
    middle ve e above below =
        halved (record v { len = lo - v.base }) (record { used = true; base = hi; len = ve - hi })
          used above (omega arith)
          (
            used,
            record {
              aligned = a.aligned;
              pages = omega (arith, a.aligned, a.pages);
              some_bytes = omega arith;
              from = a.from;
              to = omega (arith, a.to);
            },
            omega arith,
          )
          (
            refl,
            record {
              aligned = hi_pages;
              pages = omega (arith, a.aligned, a.pages);
              some_bytes = omega arith;
              from = omega (arith, a.from);
              to = omega (arith, a.to);
            },
            omega arith,
          )
          (inl (omega arith)) (λ x. (λ h. ground arith, λ h. ground arith))

    by_tests :
        (ve : ℕ)
        → ve ≡ v.base + v.len
        → CutOutcome v lo hi (
            if ltb ve v.base
            then kept
            else if leb hi v.base || leb ve lo
            then kept
            else if leb lo v.base && leb ve hi
            then cut (record { used = false; base = 0; len = 0 })
            else if leb lo v.base && ltb hi ve
            then cut (record v { base = hi; len = ve - hi })
            else if ltb v.base lo && leb ve hi
            then cut (record v { len = lo - v.base })
            else split
                (record v { len = lo - v.base })
                (record { used = true; base = hi; len = ve - hi }))
    by_tests ve e =
        if_cases (CutOutcome v lo hi) (ltb ve v.base) (λ h. absurd (ground arith))
          (λ _.
            if_cases (CutOutcome v lo hi) (leb hi v.base || leb ve lo)
              (λ h. untouched (λ u. ground arith))
              (λ over.
                if_cases (CutOutcome v lo hi) (leb lo v.base && leb ve hi)
                  (λ h. whole (ground arith) (ground arith))
                  (λ not_whole.
                    if_cases (CutOutcome v lo hi) (leb lo v.base && ltb hi ve)
                      (λ h. front ve e (ground arith) (ground arith) (ground arith))
                      (λ not_front.
                        if_cases (CutOutcome v lo hi) (ltb v.base lo && leb ve hi)
                          (λ h. tail (ground arith) (ground arith) (ground arith))
                          (λ not_tail. middle ve e (ground arith) (ground arith))))))

  pub cut_area-CutOutcome : CutOutcome v lo hi (cut_area v lo hi)
  unfolding cut_area
  cut_area-CutOutcome =
      if_cases (CutOutcome v lo hi) (not v.used) (λ h. untouched (λ u. absurd (ground arith)))
        (λ u.
          let used : v.used ≡ true = ground arith in
          by_tests used (is_area used) (add64 v.base v.len) (omega (arith, (is_area used).to)))
