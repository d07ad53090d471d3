-- ===== src/Lookup.antt =====
-- The lookup of a path in kernel-aarch64/initramfs.c and vfs.c: the overlay first, then the boot archive.
pub mod Order
mod Tests
use mona_rpzero.Prelude.{
  ℕ, zero, suc, ◌+◌, Bool, not, ◌&&◌, List, [], ◌∷◌, Option, none, some, leb, ◌==◌, if◌then◌else◌,
  Table, get, first,
}
use mona_rpzero.Vfs.{
  Vfs, RamInode, slash, cstr_eq, strip_leading_slashes, ramdir_find, ramfile_find, inode_of,
}
use mona_rpzero.Cpio.{Entry, Found, found, cpio_newc_find}

-- S_IFDIR | 0755
abbrev pub root_dir_mode : ℕ
root_dir_mode = 16877

-- `g_archive` and `g_archive_size`
pub record Boot : Type 0 where
  pub archive : Option (Table ℕ)
  pub size : ℕ

unfoldable pub initramfs_init : Option (Table ℕ) → ℕ → Boot
initramfs_init archive size = record { archive = archive; size = size }

-- The pointer that a lookup stores: none, to the bytes of an inode, or into the archive.
pub data Data : Type 0 where
  null : Data
  inode_data : ℕ → Data
  archive_data : ℕ → Data

-- What a lookup stores through its pointers.
pub record Looked : Type 0 where
  pub data_at : Data
  pub size : ℕ
  pub mode : ℕ

abbrev pub root_dir : Looked
root_dir = record { data_at = null; size = 0; mode = root_dir_mode }

abbrev pub entry_looked : Found → Option Looked
entry_looked Found.no_fuel = none
entry_looked Found.not_found = none
entry_looked (found e) =
    some (record { data_at = archive_data e.data_at; size = e.size; mode = e.mode })

-- `initramfs_lookup` behind the slashes.
pub archive_lookup : Table ℕ → ℕ → List ℕ → Option Looked
archive_lookup mem size [] = some root_dir
archive_lookup mem size (c ∷ cs) = entry_looked (cpio_newc_find mem size (c ∷ cs))

unfoldable pub initramfs_lookup : Boot → List ℕ → Option Looked
initramfs_lookup boot path = elim boot.archive [
  | none ↦ none
  | some mem ↦
      if boot.size == 0
      then none
      else if cstr_eq path (slash ∷ [])
      then some root_dir
      else archive_lookup mem boot.size (strip_leading_slashes path)
]

abbrev pub inode_looked : RamInode → ℕ → Looked
inode_looked n id = record { data_at = inode_data id; size = n.size; mode = n.mode }

-- `vfs_lookup_abs` behind the slashes; `abs_path` is for the archive.
pub overlay_lookup : Vfs → Boot → List ℕ → List ℕ → Option Looked
overlay_lookup v boot abs_path [] = some root_dir
overlay_lookup v boot abs_path (c ∷ cs) = elim (ramdir_find v.dirs (c ∷ cs)) [
  | some ridx ↦ some (record { data_at = null; size = 0; mode = (get v.dirs ridx).mode })
  | none ↦ elim (ramfile_find v.files (c ∷ cs)) [
    | some fidx ↦ elim (inode_of v fidx) [
      | some id ↦ some (inode_looked (get v.inodes id) id)
      | none ↦ none
    ]
    | none ↦ initramfs_lookup boot abs_path
  ]
]

unfoldable pub vfs_lookup_abs : Vfs → Boot → Option (List ℕ) → Option Looked
vfs_lookup_abs v boot none = none
vfs_lookup_abs v boot (some abs_path) =
    if cstr_eq abs_path (slash ∷ [])
    then some root_dir
    else overlay_lookup v boot abs_path (strip_leading_slashes abs_path)
