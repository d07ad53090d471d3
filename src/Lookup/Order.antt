-- ===== src/Lookup/Order.antt =====
-- Where a lookup finds a path: the overlay hides the boot archive, and directories hide files.
use mona_rpzero.Prelude.{ℕ, ◌≤◌, ◌≡◌, List, [], Option, none, some, get}
use mona_rpzero.Vfs.{Vfs, strip_leading_slashes}
use mona_rpzero.Vfs.Create.{inode_at}
use mona_rpzero.Vfs.Dirs.{mode_at}
use mona_rpzero.Lookup.{Boot, null, inode_data, Looked, root_dir, initramfs_lookup}

-- What `vfs_lookup_abs` gives for a path in a valid overlay.
pub data LookupOutcome (v : Vfs) (boot : Boot) (abs_path : List ℕ) : Option Looked → Type 0 where
  root : strip_leading_slashes abs_path ≡ [] → LookupOutcome v boot abs_path (some root_dir)
  directory :
      (mode : ℕ)
      → mode_at v.dirs (strip_leading_slashes abs_path) ≡ some mode
      → LookupOutcome v boot abs_path (some (record { data_at = null; size = 0; mode = mode }))
  file :
      (id : ℕ)
      → mode_at v.dirs (strip_leading_slashes abs_path) ≡ none
      → inode_at v.files (strip_leading_slashes abs_path) ≡ some id
      → (get v.inodes id).size ≤ 4096
      → LookupOutcome v boot abs_path (
          some (record {
            data_at = inode_data id;
            size = (get v.inodes id).size;
            mode = (get v.inodes id).mode;
          }))
  in_archive :
      mode_at v.dirs (strip_leading_slashes abs_path) ≡ none
      → inode_at v.files (strip_leading_slashes abs_path) ≡ none
      → LookupOutcome v boot abs_path (initramfs_lookup boot abs_path)
