-- ===== src/Cpio.antt =====
-- kernel-aarch64/cpio_newc.c: the reader of the boot archive in the "newc" format.
-- The archive is the memory from its first byte on, and a pointer into it is its distance from there,
-- on 64 bits; `end` is the size of the archive. A name to look for is the list of its bytes without the
-- terminating zero.
pub mod Hex
pub mod Bounds
pub mod Loops
pub mod Archive
mod Tests
use mona_rpzero.Prelude.{
  ℕ, zero, suc, ◌+◌, ◌-◌, ◌*◌, ◌%◌, ◌^◌, Bool, true, false, not, ◌&&◌, ◌||◌, List, [], ◌∷◌, Option,
  none, some, ltb, leb, ◌==◌, if◌then◌else◌, Table, get, add64, sub64,
}

unfoldable pub is_hex : ℕ → Bool
is_hex c = (leb b'0' c && leb c b'9') || (leb b'a' c && leb c b'f') || (leb b'A' c && leb c b'F')

-- One digit in `hex8_to_u32`, of a byte that `is_hex` accepts.
unfoldable pub hex_digit : ℕ → ℕ
hex_digit c =
    if leb b'0' c && leb c b'9'
    then c - b'0'
    else if leb b'a' c && leb c b'f'
    then 10 + (c - b'a')
    else 10 + (c - b'A')

-- The loop of `hex8_to_u32` for `n` more digits: the digit fills the four bits that the shift leaves
-- zero, so that the `|` adds it.
unfoldable pub hex_loop : ℕ → Table ℕ → ℕ → ℕ → ℕ
hex_loop zero mem p v = v
hex_loop (suc n) mem p v = hex_loop n mem (p + 1) (v * 16 % 2 ^ 32 + hex_digit (get mem p))

abbrev pub hex8_to_u32 : Table ℕ → ℕ → ℕ
hex8_to_u32 mem p = hex_loop 8 mem p 0

-- The bytes that fill up a length to a multiple of four.
unfoldable pub pad4 : ℕ → ℕ
pad4 n = (4 - n % 4) % 4

-- `str_eq` of the string at `p` in the archive and another one.
unfoldable pub str_eq_at : Table ℕ → ℕ → List ℕ → Bool
str_eq_at mem p [] = get mem p == 0
str_eq_at mem p (c ∷ cs) =
    let rest = str_eq_at mem (p + 1) cs in
    if get mem p == 0 then 0 == c else if get mem p == c then rest else false

-- `cpio_entry_t`
pub record Entry : Type 0 where
  pub name : ℕ
  pub mode : ℕ
  pub data_at : ℕ
  pub size : ℕ

-- The loop over the bytes 6 to 109 of the header, for the `n` from `p` on.
unfoldable pub all_hex : ℕ → Table ℕ → ℕ → Bool
all_hex zero mem p = true
all_hex (suc n) mem p =
    let rest = all_hex n mem (p + 1) in if is_hex (get mem p) then rest else false

unfoldable pub magic_at : Table ℕ → ℕ → Bool
magic_at mem p =
    get mem p == b'0'
    && get mem (p + 1) == b'7'
    && get mem (p + 2) == b'0'
    && get mem (p + 3) == b'7'
    && get mem (p + 4) == b'0'
    && get mem (p + 5) == b'1'

abbrev pub mode_field : Table ℕ → ℕ → ℕ
mode_field mem p = hex8_to_u32 mem (p + 14)

abbrev pub size_field : Table ℕ → ℕ → ℕ
size_field mem p = hex8_to_u32 mem (p + 54)

abbrev pub name_field : Table ℕ → ℕ → ℕ
name_field mem p = hex8_to_u32 mem (p + 94)

-- `parse_one` once the header at `p` has passed its checks.
pub parse_body : Table ℕ → ℕ → ℕ → ℕ → ℕ → ℕ → Option (Entry × ℕ)
parse_body mem end name mode filesize namesize =
    let after_name = add64 (add64 name namesize) (pad4 (110 + namesize)) in
    if ltb (sub64 end name) namesize
    then none
    else if namesize == 0
    then none
    else if not (get mem (name + namesize - 1) == 0)
    then none
    else if ltb (sub64 end after_name) filesize
    then none
    else some (
      record { name = name; mode = mode; data_at = after_name; size = filesize },
      add64 (add64 after_name filesize) (pad4 filesize),
    )

-- `parse_one`: the entry at `p` and the position behind it, or none.
unfoldable pub parse_one : Table ℕ → ℕ → ℕ → Option (Entry × ℕ)
parse_one mem end p =
    if ltb (sub64 end p) 110
    then none
    else if not (magic_at mem p)
    then none
    else if not (all_hex 104 mem (p + 6))
    then none
    else parse_body mem end (add64 p 110) (mode_field mem p) (size_field mem p) (name_field mem p)

abbrev pub trailer : List ℕ
trailer = b'T' ∷ b'R' ∷ b'A' ∷ b'I' ∷ b'L' ∷ b'E' ∷ b'R' ∷ b'!' ∷ b'!' ∷ b'!' ∷ []

-- What the loops below give: no fuel left, -1, 0 (with an entry), or what the callback returned.
pub data Found : Type 0 where
  no_fuel : Found
  not_found : Found
  found : Entry → Found

-- `cpio_newc_find`; every round moves on by a header at least.
unfoldable pub find_loop : ℕ → Table ℕ → ℕ → List ℕ → ℕ → Found
find_loop zero mem end name p = no_fuel
find_loop (suc fuel) mem end name p = elim (parse_one mem end p) [
  | none ↦ not_found
  | some (e, q) ↦
      let rest = find_loop fuel mem end name q in
      if str_eq_at mem e.name trailer
      then not_found
      else if str_eq_at mem e.name name
      then found e
      else if leb end q
      then not_found
      else rest
]

unfoldable pub cpio_newc_find : Table ℕ → ℕ → List ℕ → Found
cpio_newc_find mem size name = find_loop (size + 1) mem size name 0

pub data Walk : Type 0 where
  no_fuel : Walk
  failed : Walk
  finished : Walk
  stopped : ℕ → Walk

-- `cpio_newc_foreach` with a callback on a state of type `S`, which returns 0 to go on.
unfoldable pub foreach_loop :
    {S : Type 0} → ℕ → Table ℕ → ℕ → (Entry → S → ℕ × S) → S → ℕ → Walk × S
foreach_loop zero mem end cb s p = (no_fuel, s)
foreach_loop (suc fuel) mem end cb s p = elim (parse_one mem end p) [
  | none ↦ (failed, s)
  | some (e, q) ↦
      let (rc, s') = cb e s in
      let rest = foreach_loop fuel mem end cb s' q in
      if str_eq_at mem e.name trailer
      then (finished, s)
      else if not (rc == 0)
      then (stopped rc, s')
      else if leb end q
      then (failed, s')
      else rest
]

unfoldable pub cpio_newc_foreach : {S : Type 0} → Table ℕ → ℕ → (Entry → S → ℕ × S) → S → Walk × S
cpio_newc_foreach mem size cb s = foreach_loop (size + 1) mem size cb s 0
