-- ===== src/Vfs.antt =====
-- kernel-aarch64/vfs.c: the writable overlay of the file system. Directories, file names and inodes
-- stand in three fixed tables; a hard link is a second name with the same inode.
-- A path is the list of its bytes without the terminating zero. Where the C code tests for a null
-- pointer and for an empty string at once, the empty list stands for both.
pub mod Names
pub mod Invariant
pub mod Files
pub mod Create
pub mod Link
pub mod Unlink
pub mod Dirs
pub mod Rmdir
pub mod Rename
pub mod Attr
pub mod Start
mod Tests
use mona_rpzero.Prelude.{
  ℕ, zero, suc, ◌+◌, ◌-◌, ◌^◌, Bool, true, false, not, ◌&&◌, ◌||◌, List, [], ◌∷◌, Option, none,
  some, ltb, leb, ◌==◌, if◌then◌else◌, Table, get, put, for_below, first, add32, Result, ok, err,
  length,
}
use mona_rpzero.Prelude.Errno

abbrev pub max_ramdirs : ℕ
max_ramdirs = 64

abbrev pub max_ramfiles : ℕ
max_ramfiles = 64

abbrev pub max_raminodes : ℕ
max_raminodes = 64

abbrev pub ramfile_cap : ℕ
ramfile_cap = 4096

abbrev pub max_path : ℕ
max_path = 256

abbrev pub slash : ℕ
slash = b'/'

-- `ramdir_t`, `ramfile_t` and `raminode_t`
pub record RamDir : Type 0 where
  pub used : Bool
  pub mode : ℕ
  pub path : List ℕ

pub record RamFile : Type 0 where
  pub used : Bool
  pub inode_id : ℕ
  pub path : List ℕ

pub record RamInode : Type 0 where
  pub used : Bool
  pub mode : ℕ
  pub size : ℕ
  pub nlink : ℕ
  pub bytes : Table ℕ

-- `g_ramdirs`, `g_ramfiles` and `g_raminodes`
pub record Vfs : Type 0 where
  pub dirs : Table RamDir
  pub files : Table RamFile
  pub inodes : Table RamInode

-- `cstr_eq_u64`: at the end of one string its zero is compared with the other's byte.
unfoldable pub cstr_eq : List ℕ → List ℕ → Bool
cstr_eq [] [] = true
cstr_eq [] (b ∷ bs) = false
cstr_eq (a ∷ as') [] = false
cstr_eq (a ∷ as') (b ∷ bs) = if a == b then cstr_eq as' bs else false

unfoldable pub strip_leading_slashes : List ℕ → List ℕ
strip_leading_slashes [] = []
strip_leading_slashes (c ∷ cs) = if c == slash then strip_leading_slashes cs else c ∷ cs

unfoldable pub path_has_prefix_dir : List ℕ → List ℕ → Bool
path_has_prefix_dir [] dir = false
path_has_prefix_dir (c ∷ cs) [] = c == slash
path_has_prefix_dir (c ∷ cs) (d ∷ ds) = if c == d then path_has_prefix_dir cs ds else false

unfoldable pub raminode_alloc_slot : Table RamInode → Option ℕ
raminode_alloc_slot t = first (λ i. not (get t i).used) 0 max_raminodes

unfoldable pub ramdir_alloc_slot : Table RamDir → Option ℕ
ramdir_alloc_slot t = first (λ i. not (get t i).used) 0 max_ramdirs

unfoldable pub ramfile_alloc_slot : Table RamFile → Option ℕ
ramfile_alloc_slot t = first (λ i. not (get t i).used) 0 max_ramfiles

abbrev pub is_dir_at : List ℕ → RamDir → Bool
is_dir_at path d = d.used && cstr_eq d.path path

abbrev pub is_file_at : List ℕ → RamFile → Bool
is_file_at path f = f.used && cstr_eq f.path path

unfoldable pub ramdir_find : Table RamDir → List ℕ → Option ℕ
ramdir_find t path = first (λ i. is_dir_at path (get t i)) 0 max_ramdirs

unfoldable pub ramfile_find : Table RamFile → List ℕ → Option ℕ
ramfile_find t path = first (λ i. is_file_at path (get t i)) 0 max_ramfiles

-- The inode after one link more.
pub linked : RamInode → RamInode
linked n = record n { nlink = add32 n.nlink 1 }

unfoldable pub raminode_incref : Table RamInode → ℕ → Table RamInode
raminode_incref t id =
    if leb max_raminodes id
    then t
    else if not (get t id).used
    then t
    else put t id (linked (get t id))

-- The inode after one link less; with no link left it is free and zeroed.
pub unlinked : RamInode → RamInode
unlinked n =
    let links = if ltb 0 n.nlink then n.nlink - 1 else n.nlink in
    if links == 0
    then record {
      used = false;
      mode = 0;
      size = 0;
      nlink = 0;
      bytes = for_below ramfile_cap (λ _. 0) n.bytes;
    }
    else record n { nlink = links }

unfoldable pub raminode_decref : Table RamInode → ℕ → Table RamInode
raminode_decref t id =
    if leb max_raminodes id
    then t
    else if not (get t id).used
    then t
    else put t id (unlinked (get t id))

unfoldable pub init : Vfs → Vfs
init v = record {
  dirs = for_below max_ramdirs (λ _. record { used = false; mode = 0; path = [] }) v.dirs;
  files = for_below max_ramfiles (λ _. record { used = false; inode_id = 0; path = [] }) v.files;
  inodes =
      for_below max_raminodes
        (λ n. record {
          used = false;
          mode = 0;
          size = 0;
          nlink = 0;
          bytes = for_below ramfile_cap (λ _. 0) n.bytes;
        })
        v.inodes;
}

abbrev pub is_some {ℓ} : {A : Type ℓ} → Option A → Bool
is_some none = false
is_some (some a) = true

-- The directory and its `Result` without a value: 0 is `ok tt`.
unfoldable pub ramdir_create : Vfs → List ℕ → ℕ → Vfs × Result (Unit {0})
ramdir_create v [] mode = (v, err Errno.enoent)
ramdir_create v (c ∷ cs) mode =
    let path = c ∷ cs in
    if is_some (ramdir_find v.dirs path)
    then (v, err Errno.eexist)
    else elim (ramdir_alloc_slot v.dirs) [
      | none ↦ (v, err Errno.enomem)
      | some slot ↦ if ltb max_path (length path + 1) then (v, err Errno.enametoolong) else (
        record v { dirs = put v.dirs slot (record { used = true; mode = mode; path = path }) },
        ok tt,
      )
    ]

-- Some directory or file of the overlay lies below the directory `path`.
unfoldable pub has_children : Vfs → List ℕ → Bool
has_children v path =
    is_some (
      first (λ i. (get v.dirs i).used && path_has_prefix_dir (get v.dirs i).path path) 0
        max_ramdirs)
    || is_some (
        first (λ i. (get v.files i).used && path_has_prefix_dir (get v.files i).path path) 0
          max_ramfiles)

unfoldable pub ramdir_remove : Vfs → List ℕ → Vfs × Result (Unit {0})
ramdir_remove v [] = (v, err Errno.einval)
ramdir_remove v (c ∷ cs) = elim (ramdir_find v.dirs (c ∷ cs)) [
  | none ↦ (v, err Errno.enoent)
  | some idx ↦ if has_children v (c ∷ cs) then (v, err Errno.enotempty) else (
    record v { dirs = put v.dirs idx (record { used = false; mode = 0; path = [] }) },
    ok tt,
  )
]

-- The writes at the end of `vfs_ramfile_create`.
unfoldable pub add_file : Vfs → ℕ → ℕ → List ℕ → ℕ → Vfs
add_file v slot inode_slot path mode = record v {
  files = put v.files slot (record { used = true; inode_id = inode_slot; path = path });
  inodes = put v.inodes inode_slot (record {
    used = true;
    mode = mode;
    size = 0;
    nlink = 1;
    bytes = for_below ramfile_cap (λ _. 0) (get v.inodes inode_slot).bytes;
  });
}

unfoldable pub ramfile_create : Vfs → List ℕ → ℕ → Vfs × Result (Unit {0})
ramfile_create v [] mode = (v, err Errno.enoent)
ramfile_create v (c ∷ cs) mode =
    let path = c ∷ cs in
    if is_some (ramfile_find v.files path)
    then (v, err Errno.eexist)
    else if is_some (ramdir_find v.dirs path)
    then (v, err Errno.eexist)
    else elim (ramfile_alloc_slot v.files) [
      | none ↦ (v, err Errno.enomem)
      | some slot ↦ elim (raminode_alloc_slot v.inodes) [
        | none ↦ (v, err Errno.enomem)
        | some inode_slot ↦
            if ltb max_path (length path + 1)
            then (v, err Errno.enametoolong)
            else (add_file v slot inode_slot path mode, ok tt)
      ]
    ]

-- The writes of `vfs_ramfile_unlink`.
pub drop_file : Vfs → ℕ → Vfs
drop_file v idx = record v {
  files = put v.files idx (record { used = false; inode_id = 0; path = [] });
  inodes = raminode_decref v.inodes (get v.files idx).inode_id;
}

unfoldable pub ramfile_unlink : Vfs → List ℕ → Vfs × Result (Unit {0})
ramfile_unlink v [] = (v, err Errno.enoent)
ramfile_unlink v (c ∷ cs) = elim (ramfile_find v.files (c ∷ cs)) [
  | none ↦ (v, err Errno.enoent)
  | some idx ↦ (drop_file v idx, ok tt)
]

-- The writes of `vfs_ramfile_link`.
pub add_link : Vfs → ℕ → ℕ → List ℕ → Vfs
add_link v slot inode_id path = record v {
  files = put v.files slot (record { used = true; inode_id = inode_id; path = path });
  inodes = raminode_incref v.inodes inode_id;
}

-- `vfs_ramfile_link` from the search for the old name on.
pub link_to : Vfs → List ℕ → List ℕ → Vfs × Result (Unit {0})
link_to v old_path new_path = elim (ramfile_find v.files old_path) [
  | none ↦ (v, err Errno.enoent)
  | some old_idx ↦
      if is_some (ramfile_find v.files new_path)
      then (v, err Errno.eexist)
      else if is_some (ramdir_find v.dirs new_path)
      then (v, err Errno.eexist)
      else elim (ramfile_alloc_slot v.files) [
        | none ↦ (v, err Errno.enomem)
        | some slot ↦
            let inode_id = (get v.files old_idx).inode_id in
            if ltb max_path (length new_path + 1)
            then (v, err Errno.enametoolong)
            else if leb max_raminodes inode_id || not (get v.inodes inode_id).used
            then (v, err Errno.enoent)
            else (add_link v slot inode_id new_path, ok tt)
      ]
]

unfoldable pub ramfile_link : Vfs → List ℕ → List ℕ → Vfs × Result (Unit {0})
ramfile_link v [] new_path = (v, err Errno.enoent)
ramfile_link v (c ∷ cs) [] = (v, err Errno.enoent)
ramfile_link v (c ∷ cs) (d ∷ ds) = link_to v (c ∷ cs) (d ∷ ds)

-- The functions below take an absolute path; `none` is a null pointer.
pub find_stripped : Vfs → List ℕ → Result ℕ
find_stripped v [] = err Errno.enoent
find_stripped v (c ∷ cs) = elim (ramfile_find v.files (c ∷ cs)) [
  | none ↦ err Errno.enoent
  | some idx ↦ ok idx
]

unfoldable pub ramfile_find_abs : Vfs → Option (List ℕ) → Result ℕ
unfolding find_stripped
ramfile_find_abs v none = err Errno.einval
ramfile_find_abs v (some p) = find_stripped v (strip_leading_slashes p)

-- The inode of the file in slot `idx`, where the name's number and the inode's mark pass the checks.
abbrev pub inode_of : Vfs → ℕ → Option ℕ
inode_of v idx =
    let id = (get v.files idx).inode_id in
    if leb max_raminodes id then none else if not (get v.inodes id).used then none else some id

-- The writes of the attribute setters into one inode.
pub with_mode : RamInode → ℕ → RamInode
with_mode n new_mode = record n { mode = new_mode }

pub with_size : RamInode → ℕ → RamInode
with_size n new_size = record n { size = new_size }

pub set_file_mode : Vfs → List ℕ → ℕ → Vfs × Result (Unit {0})
set_file_mode v [] new_mode = (v, err Errno.enoent)
set_file_mode v (c ∷ cs) new_mode = elim (ramfile_find v.files (c ∷ cs)) [
  | none ↦ (v, err Errno.enoent)
  | some idx ↦ elim (inode_of v idx) [
    | none ↦ (v, err Errno.enoent)
    | some id ↦
        (record v { inodes = put v.inodes id (with_mode (get v.inodes id) new_mode) }, ok tt)
  ]
]

unfoldable pub ramfile_set_mode_abs : Vfs → Option (List ℕ) → ℕ → Vfs × Result (Unit {0})
unfolding set_file_mode
ramfile_set_mode_abs v none new_mode = (v, err Errno.einval)
ramfile_set_mode_abs v (some p) new_mode = set_file_mode v (strip_leading_slashes p) new_mode

set_dir_mode : Vfs → List ℕ → ℕ → Vfs × Result (Unit {0})
set_dir_mode v [] new_mode = (v, err Errno.enoent)
set_dir_mode v (c ∷ cs) new_mode = elim (ramdir_find v.dirs (c ∷ cs)) [
  | none ↦ (v, err Errno.enoent)
  | some idx ↦
      (record v { dirs = put v.dirs idx (record (get v.dirs idx) { mode = new_mode }) }, ok tt)
]

unfoldable pub ramdir_set_mode_abs : Vfs → Option (List ℕ) → ℕ → Vfs × Result (Unit {0})
unfolding set_dir_mode
ramdir_set_mode_abs v none new_mode = (v, err Errno.einval)
ramdir_set_mode_abs v (some p) new_mode =
    if cstr_eq p (slash ∷ [])
    then (v, err Errno.enoent)
    else set_dir_mode v (strip_leading_slashes p) new_mode

-- What `vfs_ramfile_get` stores through its pointers: the bytes, the size, the capacity, the mode.
pub record Contents : Type 0 where
  pub bytes : Table ℕ
  pub size : ℕ
  pub cap : ℕ
  pub mode : ℕ

abbrev pub contents : RamInode → Contents
contents n = record { bytes = n.bytes; size = n.size; cap = ramfile_cap; mode = n.mode }

unfoldable pub ramfile_get : Vfs → ℕ → Result Contents
ramfile_get v id =
    if leb max_ramfiles id
    then err Errno.einval
    else if not (get v.files id).used
    then err Errno.enoent
    else elim (inode_of v id) [
      | none ↦ err Errno.enoent
      | some inode_id ↦ ok (contents (get v.inodes inode_id))
    ]

unfoldable pub ramfile_set_size : Vfs → ℕ → ℕ → Vfs × Result (Unit {0})
ramfile_set_size v id new_size =
    if leb max_ramfiles id
    then (v, err Errno.einval)
    else if not (get v.files id).used
    then (v, err Errno.enoent)
    else if ltb ramfile_cap new_size
    then (v, err Errno.einval)
    else elim (inode_of v id) [
      | none ↦ (v, err Errno.enoent)
      | some inode_id ↦ (
        record v { inodes = put v.inodes inode_id (with_size (get v.inodes inode_id) new_size) },
        ok tt,
      )
    ]
