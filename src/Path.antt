-- ===== src/Path.antt =====
-- kernel-aarch64/sys_util.c: paths in system calls, and the check of pointers from user space.
-- A string is the list of its bytes without the terminating zero; what a function has written into its
-- buffer when it fails is not kept, since its callers do not read it then.
pub mod Names
pub mod Normal
pub mod Stack
pub mod Again
pub mod Parent
pub mod User
pub mod Memory
pub mod Resolve
mod Tests
use mona_rpzero.Prelude.{
  ℕ, zero, suc, ◌+◌, ◌-◌, ◌%◌, ◌^◌, Bool, true, false, not, ◌&&◌, ◌||◌, List, [], ◌∷◌, ◌++◌, Option,
  none, some, ltb, leb, ◌==◌, if◌then◌else◌, Table, get, add64, length, take, get_or, Result, ok,
  err,
}
use mona_rpzero.Prelude.Errno

abbrev pub slash : ℕ
slash = b'/'

abbrev pub dot : ℕ
dot = b'.'

abbrev pub max_path : ℕ
max_path = 256

abbrev pub user_region_base : ℕ
user_region_base = 0x400000

abbrev pub user_region_size : ℕ
user_region_size = 0x200000

unfoldable pub user_range_ok : ℕ → ℕ → Bool
user_range_ok user_ptr len =
    if len == 0
    then true
    else if ltb user_ptr user_region_base
    then false
    else if leb (user_region_base + user_region_size) user_ptr
    then false
    else if ltb (add64 user_ptr len) user_ptr
    then false
    else if ltb (user_region_base + user_region_size) (add64 user_ptr len)
    then false
    else true

-- `while (*p == '/') p++;`
unfoldable pub skip_slashes : List ℕ → List ℕ
skip_slashes [] = []
skip_slashes (c ∷ cs) = if c == slash then skip_slashes cs else c ∷ cs

-- `while (*p != '\0' && *p != '/')`: the segment and what is left.
unfoldable pub take_segment : List ℕ → List ℕ × List ℕ
take_segment [] = ([], [])
take_segment (c ∷ cs) =
    let (seg, rest) = take_segment cs in if c == slash then ([], c ∷ cs) else (c ∷ seg, rest)

-- `out` up to its zero, with `seg_slash` from the entry below `depth` down.
pub record Output : Type 0 where
  pub out : List ℕ
  pub slashes : List ℕ

unfoldable pub is_dot : List ℕ → Bool
is_dot [] = false
is_dot (a ∷ []) = a == dot
is_dot (a ∷ b ∷ cs) = false

unfoldable pub is_dot_dot : List ℕ → Bool
is_dot_dot [] = false
is_dot_dot (a ∷ []) = false
is_dot_dot (a ∷ b ∷ []) = a == dot && b == dot
is_dot_dot (a ∷ b ∷ c ∷ cs) = false

-- `if (depth > 0) { o = seg_slash[--depth]; out[o] = '\0'; }`
pub pop_segment : Output → Output
pop_segment s = elim s.slashes [ [] ↦ s | o ∷ os ↦ record { out = take o s.out; slashes = os } ]

-- A segment that is written behind a slash.
pub push_segment : ℕ → List ℕ → Output → Option Output
push_segment outsz seg s =
    let o = length s.out in
    if leb outsz (o + 1)
    then none
    else if not (ltb (length s.slashes) 64)
    then none
    else if leb outsz (o + 1 + length seg)
    then none
    else some (record { out = s.out ++ slash ∷ seg; slashes = o ∷ s.slashes })

pub segment_step : ℕ → List ℕ → Output → Option Output
segment_step outsz seg s =
    if is_dot seg
    then some s
    else if is_dot_dot seg
    then some (pop_segment s)
    else push_segment outsz seg s

-- The end of `normalize_abs_path`.
unfoldable pub or_root : List ℕ → List ℕ
or_root [] = slash ∷ []
or_root (c ∷ cs) = c ∷ cs

-- What `normalize_abs_path` gives: no fuel left, -1, or 0 with the path written.
pub data Normalized : Type 0 where
  no_fuel : Normalized
  failed : Normalized
  written : List ℕ → Normalized

-- The outer loop of `normalize_abs_path`; every round takes a byte at least.
pub normalize_loop : ℕ → ℕ → List ℕ → Output → Normalized
normalize_loop zero outsz p s = no_fuel
normalize_loop (suc fuel) outsz p s = elim (skip_slashes p) [
  | [] ↦ written (or_root s.out)
  | c ∷ cs ↦
      let (seg, rest) = take_segment (c ∷ cs) in
      elim (segment_step outsz seg s) [
        | none ↦ failed
        | some s' ↦ normalize_loop fuel outsz rest s'
      ]
]

unfoldable pub normalize_abs_path : List ℕ → ℕ → Normalized
normalize_abs_path p outsz =
    if ltb outsz 2
    then failed
    else normalize_loop (length p + 1) outsz p (record { out = []; slashes = [] })

-- `resolve_path` from the test of the first byte on: `tmp` is the argument, or the working directory
-- with the argument behind a slash.
pub resolve_from : List ℕ → List ℕ → ℕ → Normalized
resolve_from cwd p outsz =
    if get_or p 0 0 == slash
    then if ltb max_path (length p + 1) then failed else normalize_abs_path p outsz
    else if length cwd == 0
    then failed
    else if ltb max_path (length cwd + 1 + length p + 1)
    then failed
    else normalize_abs_path (cwd ++ slash ∷ p) outsz

-- `resolve_path`, of the working directory of a process; `none` is a null pointer.
unfoldable pub resolve_path : Option (List ℕ) → Option (List ℕ) → ℕ → Normalized
resolve_path none p outsz = failed
resolve_path (some cwd) none outsz = failed
resolve_path (some cwd) (some p) outsz = resolve_from cwd p outsz

-- `while (n > least && out[n - 1] == '/') n--;` with the string cut at `n`, for n = least + k.
unfoldable pub trim_loop : ℕ → ℕ → List ℕ → List ℕ
trim_loop zero least out = take least out
trim_loop (suc k) least out =
    let rest = trim_loop k least out in
    if get_or out (least + k) 0 == slash then rest else take (least + k + 1) out

pub trim_copied : List ℕ → ℕ → Result (List ℕ)
trim_copied [] outsz = err Errno.einval
trim_copied (c ∷ cs) outsz =
    let out = trim_loop (length (c ∷ cs)) 0 (c ∷ cs) in
    if ltb outsz (length (c ∷ cs) + 1)
    then err Errno.enametoolong
    else if length out == 0
    then err Errno.einval
    else ok out

unfoldable pub abs_path_to_no_slash_trim : Option (List ℕ) → ℕ → Result (List ℕ)
abs_path_to_no_slash_trim none outsz = err Errno.einval
abs_path_to_no_slash_trim (some p) outsz =
    if outsz == 0 then err Errno.einval else trim_copied (skip_slashes p) outsz

-- The index of the last slash, from index `i` on with `last` so far. In C it is an int, which the
-- indices of paths of less than 2^31 bytes fit.
unfoldable pub last_slash : ℕ → Option ℕ → List ℕ → Option ℕ
last_slash i last [] = last
last_slash i last (c ∷ cs) = last_slash (i + 1) (if c == slash then some i else last) cs

-- `abs_path_parent_dir` from the search for the last slash on.
pub cut_at : List ℕ → Option ℕ → Result (List ℕ)
cut_at out none = err Errno.einval
cut_at out (some last) = if last == 0 then ok (slash ∷ []) else ok (take last out)

unfoldable pub abs_path_parent_dir : Option (List ℕ) → ℕ → Result (List ℕ)
abs_path_parent_dir none outsz = err Errno.einval
abs_path_parent_dir (some p) outsz =
    let out = if length p == 0 then [] else trim_loop (length p - 1) 1 p in
    if ltb outsz 2
    then err Errno.einval
    else if ltb outsz (length p + 1)
    then err Errno.enametoolong
    else cut_at out (last_slash 0 none out)

pub cons_byte : ℕ → Option (List ℕ) → Option (List ℕ)
cons_byte c none = none
cons_byte c (some cs) = some (c ∷ cs)

-- The loop of `copy_cstr_from_user` from byte `i` on, `n` bytes below the end: the bytes before the
-- zero, or none for -1.
unfoldable pub copy_loop : ℕ → Table ℕ → ℕ → ℕ → Option (List ℕ)
copy_loop zero mem user_ptr i = none
copy_loop (suc n) mem user_ptr i =
    let c = get mem (add64 user_ptr i) in
    if not (user_range_ok (add64 user_ptr i) 1)
    then none
    else if c == 0
    then some []
    else cons_byte c (copy_loop n mem user_ptr (i + 1))

unfoldable pub copy_cstr_from_user : Table ℕ → ℕ → ℕ → Option (List ℕ)
copy_cstr_from_user mem dstsz user_ptr = if dstsz == 0 then none else copy_loop dstsz mem user_ptr 0
