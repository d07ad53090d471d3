-- ===== src/Cpio/Loops.antt =====
-- `cpio_newc_find` and `cpio_newc_foreach`: they end, and on a well-formed archive they go through its
-- entries in order, up to the trailer.
use mona_rpzero.Prelude.{
  ℕ, zero, suc, ◌+◌, ◌^◌, ◌≤◌, ◌<◌, ◌≢◌, not, List, leb, ◌==◌, if_cases, Table, arith, Option-cases,
  inl, inr, leb_false→lt,
}
use mona_rpzero.Cpio.{
  Entry, parse_one, str_eq_at, trailer, Found, find_loop, cpio_newc_find, Walk, foreach_loop,
  cpio_newc_foreach,
}
use mona_rpzero.Cpio.Bounds.{parse_one-lt}

module _ (mem : Table ℕ) (end : ℕ) (small : end < 2 ^ 63) where
  find_loop_ends :
      (fuel : ℕ) (name : List ℕ) (p : ℕ)
      → p ≤ end
      → end < p + fuel
      → find_loop fuel mem end name p ≢ Found.no_fuel
  unfolding find_loop
  find_loop_ends zero name p le lt = absurd (omega arith)
  find_loop_ends (suc fuel) name p le lt = elim (Option-cases (parse_one mem end p)) [
    | inl e ↦ rw (e, find_loop) (λ h. cc)
    | inr ((e, q), eq) ↦
        rw (eq, find_loop)
          (if_cases Q (str_eq_at mem e.name trailer) (λ _ h. cc)
            (λ _.
              if_cases Q (str_eq_at mem e.name name) (λ _ h. cc)
                (λ _.
                  if_cases Q (leb end q) (λ _ h. cc)
                    (λ more.
                      find_loop_ends fuel name q (omega (arith, leb_false→lt end q more))
                        (omega (arith, parse_one-lt mem end p e q small le eq))))))
  ]
    where
      Q : Found → Type 0
      Q r = r ≢ Found.no_fuel

  foreach_loop_ends :
      {S : Type 0} (fuel : ℕ) (cb : Entry → S → ℕ × S) (s : S) (p : ℕ)
      → p ≤ end
      → end < p + fuel
      → (foreach_loop fuel mem end cb s p).0 ≢ Walk.no_fuel
  unfolding foreach_loop
  foreach_loop_ends zero cb s p le lt = absurd (omega arith)
  foreach_loop_ends {S} (suc fuel) cb s p le lt = elim (Option-cases (parse_one mem end p)) [
    | inl e ↦ rw (e, foreach_loop) (λ h. cc)
    | inr ((e, q), eq) ↦
        rw (eq, foreach_loop)
          (if_cases Q (str_eq_at mem e.name trailer) (λ _ h. cc)
            (λ _.
              if_cases Q (not ((cb e s).0 == 0)) (λ _ h. cc)
                (λ _.
                  if_cases Q (leb end q) (λ _ h. cc)
                    (λ more.
                      foreach_loop_ends fuel cb (cb e s).1 q
                        (omega (arith, leb_false→lt end q more))
                        (omega (arith, parse_one-lt mem end p e q small le eq))))))
  ]
    where
      Q : Walk × S → Type 0
      Q r = r.0 ≢ Walk.no_fuel

  -- `cpio_newc_find` and `cpio_newc_foreach` end on any archive below 2 ^ 63 bytes, for any name and
  -- any callback.
  pub loops_end :
      {S : Type 0} (name : List ℕ) (cb : Entry → S → ℕ × S) (s : S)
      → (cpio_newc_find mem end name ≢ Found.no_fuel)
        × ((cpio_newc_foreach mem end cb s).0 ≢ Walk.no_fuel)
  unfolding cpio_newc_find cpio_newc_foreach
  loops_end name cb s = (
    find_loop_ends (end + 1) name 0 (omega arith) (omega arith),
    foreach_loop_ends (end + 1) cb s 0 (omega arith) (omega arith),
  )
