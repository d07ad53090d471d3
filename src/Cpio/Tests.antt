-- ===== src/Cpio/Tests.antt =====
-- Runs of the archive reader, and the theorems at a concrete archive.
use mona_rpzero.Prelude.{
  ℕ, ◌+◌, ◌≡◌, ◌≢◌, ◌<◌, refl, true, false, List, [], ◌∷◌, ◌++◌, some, Table, table, get, get_or,
  arith,
}
use mona_rpzero.Cpio.{
  Entry, parse_one, parse_body, is_hex, hex_digit, hex_loop, all_hex, magic_at, pad4, str_eq_at,
  Found, found, cpio_newc_find, Walk, cpio_newc_foreach, name_field,
}
use mona_rpzero.Cpio.Bounds.{
  ParseOutcome, IsHeader, entry_at, next_at, data_start, parse_one_outcome, parse_one_overruns,
}
use mona_rpzero.Cpio.Loops.{loops_end}
use mona_rpzero.Cpio.Archive.{
  Holds, ends, entry, first_named, visit, cpio_newc_find-first, cpio_newc_foreach-visit,
}

abbrev zeros : List ℕ
zeros = b'0' ∷ b'0' ∷ b'0' ∷ b'0' ∷ b'0' ∷ b'0' ∷ b'0' ∷ b'0' ∷ []

abbrev digits : ℕ → ℕ → ℕ → ℕ → List ℕ
digits a b c d = b'0' ∷ b'0' ∷ b'0' ∷ b'0' ∷ a ∷ b ∷ c ∷ d ∷ []

abbrev magic : List ℕ
magic = b'0' ∷ b'7' ∷ b'0' ∷ b'7' ∷ b'0' ∷ b'1' ∷ []

abbrev header : List ℕ → List ℕ → List ℕ → List ℕ
header mode size namesize =
    magic ++ zeros ++ mode ++ zeros ++ zeros ++ zeros ++ zeros ++ size ++ zeros ++ zeros ++ zeros
    ++ zeros ++ namesize ++ zeros

-- The file `a` with one byte, and the trailer.
abbrev archive : List ℕ
archive =
    header (digits b'8' b'1' b'a' b'4') (digits b'0' b'0' b'0' b'1') (digits b'0' b'0' b'0' b'2')
    ++ (b'a' ∷ 0 ∷ b'x' ∷ 0 ∷ 0 ∷ 0 ∷ [])
    ++ header zeros zeros (digits b'0' b'0' b'0' b'B')
    ++ (b'T' ∷ b'R' ∷ b'A' ∷ b'I' ∷ b'L' ∷ b'E' ∷ b'R' ∷ b'!' ∷ b'!' ∷ b'!' ∷ 0 ∷ 0 ∷ 0 ∷ 0 ∷ [])

abbrev mem : Table ℕ
mem = table (λ i. get_or archive i 0)

abbrev entry_a : Entry
entry_a = record { name = 110; mode = 33188; data_at = 112; size = 1 }

abbrev last_entry : Entry
last_entry = record { name = 226; mode = 0; data_at = 240; size = 0 }

first_parsed : parse_one mem 240 0 ≡ some (entry_a, 116)
unfolding parse_one parse_body is_hex hex_digit hex_loop all_hex magic_at pad4 get
first_parsed = refl

last_parsed : parse_one mem 240 116 ≡ some (last_entry, 240)
unfolding parse_one parse_body is_hex hex_digit hex_loop all_hex magic_at pad4 get
last_parsed = refl

not_trailer :
    str_eq_at mem 110 (b'T' ∷ b'R' ∷ b'A' ∷ b'I' ∷ b'L' ∷ b'E' ∷ b'R' ∷ b'!' ∷ b'!' ∷ b'!' ∷ [])
    ≡ false
unfolding str_eq_at get
not_trailer = refl

is_trailer :
    str_eq_at mem 226 (b'T' ∷ b'R' ∷ b'A' ∷ b'I' ∷ b'L' ∷ b'E' ∷ b'R' ∷ b'!' ∷ b'!' ∷ b'!' ∷ [])
    ≡ true
unfolding str_eq_at get
is_trailer = refl

archive-Holds : Holds mem 240 0 (entry_a ∷ [])
archive-Holds =
    entry 0 entry_a 116 [] first_parsed not_trailer (omega arith)
      (ends 116 last_entry 240 last_parsed is_trailer)

find_a : first_named mem (b'a' ∷ []) (entry_a ∷ []) ≡ found entry_a
unfolding first_named str_eq_at get
find_a = refl

-- An archive that ends with the zero of its only name, one byte before the filling.
abbrev short : Table ℕ
short = table (λ i.
    get_or
      (header zeros (b'f' ∷ b'f' ∷ b'f' ∷ b'f' ∷ b'f' ∷ b'f' ∷ b'f' ∷ b'f' ∷ [])
          (digits b'0' b'0' b'0' b'1')
        ++ (0 ∷ []))
      i 0)

short-IsHeader : IsHeader short 111 0
unfolding is_hex hex_digit hex_loop all_hex magic_at get
short-IsHeader = record {
  room = omega arith;
  magic = refl;
  digits = refl;
  named = omega arith;
  terminated = refl;
}

short_outside : 111 < data_start 0 (name_field short 0)
unfolding hex_loop hex_digit pad4 get
short_outside = omega arith

overruns_example :
    (parse_one short 111 0 ≡ some (entry_at short 0, next_at short 0))
    × (111 < (entry_at short 0).data_at)
overruns_example =
    parse_one_overruns short 111 0 (omega arith) (omega arith) short-IsHeader short_outside

parse_example : ParseOutcome mem 240 116 (parse_one mem 240 116)
parse_example = parse_one_outcome mem 240 116 (omega arith) (omega arith)

loops_end_example :
    (cpio_newc_find mem 240 (b'z' ∷ []) ≢ Found.no_fuel)
    × ((cpio_newc_foreach mem 240 (λ e s. (0, s + 1)) 0).0 ≢ Walk.no_fuel)
loops_end_example = loops_end mem 240 (omega arith) (b'z' ∷ []) (λ e s. (0, s + 1)) 0

find_first_example : cpio_newc_find mem 240 (b'a' ∷ []) ≡ first_named mem (b'a' ∷ []) (entry_a ∷ [])
find_first_example =
    cpio_newc_find-first mem 240 (omega arith) (b'a' ∷ []) (entry_a ∷ []) archive-Holds

foreach_visit_example :
    cpio_newc_foreach mem 240 (λ e s. (0, s + e.size)) 0
    ≡ visit (λ e s. (0, s + e.size)) (entry_a ∷ []) 0
foreach_visit_example =
    cpio_newc_foreach-visit mem 240 (omega arith) (λ e s. (0, s + e.size)) 0 (entry_a ∷ [])
      archive-Holds
