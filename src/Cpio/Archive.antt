-- ===== src/Cpio/Archive.antt =====
-- A well-formed archive as the list of its entries: what the loops give on it.
use mona_rpzero.Prelude.{
  ℕ, zero, suc, ◌+◌, ◌^◌, ◌≤◌, ◌<◌, ◌≡◌, refl, true, false, not, List, [], ◌∷◌, some, ◌==◌,
  if◌then◌else◌, Table, arith, lt→leb_false,
}
use mona_rpzero.Cpio.{
  Entry, parse_one, str_eq_at, trailer, Found, found, not_found, find_loop, cpio_newc_find, Walk,
  finished, stopped, foreach_loop, cpio_newc_foreach,
}
use mona_rpzero.Cpio.Bounds.{parse_one-lt}

-- From the position on, the archive holds these entries and then the trailer.
pub data Holds (mem : Table ℕ) (end : ℕ) : ℕ → List Entry → Type 0 where
  ends :
      (p : ℕ) (e : Entry) (q : ℕ)
      → parse_one mem end p ≡ some (e, q)
      → str_eq_at mem e.name trailer ≡ true
      → Holds mem end p []
  entry :
      (p : ℕ) (e : Entry) (q : ℕ) (es : List Entry)
      → parse_one mem end p ≡ some (e, q)
      → str_eq_at mem e.name trailer ≡ false
      → q < end
      → Holds mem end q es
      → Holds mem end p (e ∷ es)

-- The first of the entries with the name.
unfoldable pub first_named : Table ℕ → List ℕ → List Entry → Found
first_named mem name [] = not_found
first_named mem name (e ∷ es) =
    let rest = first_named mem name es in if str_eq_at mem e.name name then found e else rest

-- The callback on each of the entries in order, until it returns other than 0.
unfoldable pub visit : {S : Type 0} → (Entry → S → ℕ × S) → List Entry → S → Walk × S
visit cb [] s = (finished, s)
visit cb (e ∷ es) s =
    let (rc, s') = cb e s in
    let rest = visit cb es s' in if not (rc == 0) then (stopped rc, s') else rest

module _ (mem : Table ℕ) (end : ℕ) (small : end < 2 ^ 63) where
  find_loop-first :
      (fuel : ℕ) (name : List ℕ) (p : ℕ) (es : List Entry)
      → p ≤ end
      → end < p + fuel
      → Holds mem end p es
      → find_loop fuel mem end name p ≡ first_named mem name es
  unfolding find_loop first_named
  find_loop-first zero name p es le lt h = absurd (omega arith)
  find_loop-first (suc fuel) name p _ le lt (ends _ e q eq last) = rw (eq, find_loop, last) refl
  find_loop-first (suc fuel) name p _ le lt (entry _ e q es eq not_last more h) =
      rw
        (
          eq,
          find_loop,
          not_last,
          lt→leb_false end q more,
          find_loop-first fuel name q es (omega arith)
              (omega (arith, parse_one-lt mem end p e q small le eq)) h,
        )
        refl

  foreach_loop-visit :
      {S : Type 0} (fuel : ℕ) (cb : Entry → S → ℕ × S) (s : S) (p : ℕ) (es : List Entry)
      → p ≤ end
      → end < p + fuel
      → Holds mem end p es
      → foreach_loop fuel mem end cb s p ≡ visit cb es s
  unfolding foreach_loop visit
  foreach_loop-visit zero cb s p es le lt h = absurd (omega arith)
  foreach_loop-visit (suc fuel) cb s p _ le lt (ends _ e q eq last) =
      rw (eq, foreach_loop, last) refl
  foreach_loop-visit (suc fuel) cb s p _ le lt (entry _ e q es eq not_last more h) =
      rw
        (
          eq,
          foreach_loop,
          not_last,
          lt→leb_false end q more,
          foreach_loop-visit fuel cb (cb e s).1 q es (omega arith)
              (omega (arith, parse_one-lt mem end p e q small le eq)) h,
        )
        refl

  -- On an archive below 2 ^ 63 bytes that holds some entries and then the trailer, `cpio_newc_find`
  -- gives the first entry with the name, or none.
  pub cpio_newc_find-first :
      (name : List ℕ) (es : List Entry)
      → Holds mem end 0 es
      → cpio_newc_find mem end name ≡ first_named mem name es
  unfolding cpio_newc_find
  cpio_newc_find-first name es h = find_loop-first (end + 1) name 0 es (omega arith) (omega arith) h

  -- On an archive below 2 ^ 63 bytes that holds some entries and then the trailer, `cpio_newc_foreach`
  -- calls the callback on the entries in order, without the trailer, until it returns other than 0,
  -- which it then returns itself.
  pub cpio_newc_foreach-visit :
      {S : Type 0} (cb : Entry → S → ℕ × S) (s : S) (es : List Entry)
      → Holds mem end 0 es
      → cpio_newc_foreach mem end cb s ≡ visit cb es s
  unfolding cpio_newc_foreach
  cpio_newc_foreach-visit cb s es h =
      foreach_loop-visit (end + 1) cb s 0 es (omega arith) (omega arith) h
