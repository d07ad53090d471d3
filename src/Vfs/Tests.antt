-- ===== src/Vfs/Tests.antt =====
-- Runs of the overlay's functions, and the theorems at a concrete overlay.
use mona_rpzero.Prelude.{
  ℕ, ◌≡◌, refl, true, List, [], ◌∷◌, some, table, get, put, ok, err, arith, first, for_below,
}
use mona_rpzero.Prelude.Errno
use mona_rpzero.Vfs.{
  Vfs, init, add_file, ramdir_create, ramdir_remove, ramfile_create, ramfile_unlink, ramfile_link,
  ramfile_set_size, ramfile_set_mode_abs, ramfile_find, ramdir_find, ramfile_alloc_slot,
  ramdir_alloc_slot, has_children, path_has_prefix_dir, cstr_eq, link_to, slash,
}
use mona_rpzero.Vfs.Invariant.{IsValid}
use mona_rpzero.Vfs.Files.{add_file-IsValid}
use mona_rpzero.Vfs.Unlink.{UnlinkOutcome, ramfile_unlink_outcome}
use mona_rpzero.Vfs.Dirs.{MakeDirOutcome, ramdir_create_outcome}
use mona_rpzero.Vfs.Rmdir.{RemoveOutcome, ramdir_remove_outcome}
use mona_rpzero.Vfs.Rename.{Moved, unlink_after_link}
use mona_rpzero.Vfs.Attr.{
  SizeOutcome, ModeOutcome, ramfile_set_size_outcome, ramfile_set_mode_abs_outcome,
}
use mona_rpzero.Vfs.Start.{IsEmpty, init-IsEmpty}

-- Tables of which every entry is in use, as before the first boot.
abbrev dirty : Vfs
dirty = record {
  dirs = table (λ i. record { used = true; mode = i; path = b'x' ∷ [] });
  files = table (λ i. record { used = true; inode_id = 99; path = b'x' ∷ [] });
  inodes =
      table (λ i. record { used = true; mode = i; size = 9999; nlink = 0; bytes = table (λ k. 7) });
}

abbrev file_a : List ℕ
file_a = b'd' ∷ b'/' ∷ b'a' ∷ []

abbrev file_b : List ℕ
file_b = b'b' ∷ []

abbrev one_file : Vfs
one_file = add_file (init dirty) 0 0 file_a 33188

one_file-IsValid : IsValid one_file
unfolding init get for_below
one_file-IsValid =
    add_file-IsValid (init dirty) 0 0 file_a 33188 (init-IsEmpty dirty).valid (omega arith) refl
      (omega arith) refl ((init-IsEmpty dirty).no_files file_a)

link_ok : (ramfile_link one_file file_a file_b).1 ≡ ok tt
unfolding ramfile_link link_to add_file ramfile_find ramdir_find ramfile_alloc_slot cstr_eq first
    get put init for_below
link_ok = refl

rmdir_not_empty :
    (ramdir_remove (ramdir_create one_file (b'd' ∷ []) 16877).0 (b'd' ∷ [])).1 ≡ err Errno.enotempty
unfolding ramdir_remove ramdir_create has_children path_has_prefix_dir ramdir_alloc_slot add_file
    ramdir_find cstr_eq first get put init for_below
rmdir_not_empty = refl

create_twice : (ramfile_create one_file file_a 33188).1 ≡ err Errno.eexist
unfolding ramfile_create add_file ramfile_find cstr_eq first get put init for_below
create_twice = refl

set_size_too_large : (ramfile_set_size one_file 0 4097).1 ≡ err Errno.einval
unfolding ramfile_set_size add_file get put init for_below
set_size_too_large = refl

init_example : IsEmpty (init dirty)
init_example = init-IsEmpty dirty

unlink_example : UnlinkOutcome one_file file_a (ramfile_unlink one_file file_a)
unlink_example = ramfile_unlink_outcome one_file file_a one_file-IsValid

mkdir_example : MakeDirOutcome one_file (b'd' ∷ []) 16877 (ramdir_create one_file (b'd' ∷ []) 16877)
mkdir_example = ramdir_create_outcome one_file (b'd' ∷ []) 16877 one_file-IsValid

rmdir_example : RemoveOutcome one_file (b'd' ∷ []) (ramdir_remove one_file (b'd' ∷ []))
rmdir_example = ramdir_remove_outcome one_file (b'd' ∷ []) one_file-IsValid

unlink_after_link_example :
    ((ramfile_unlink (ramfile_link one_file file_a file_b).0 file_a).1 ≡ ok tt)
    × Moved one_file file_a file_b (ramfile_unlink (ramfile_link one_file file_a file_b).0 file_a).0
unlink_after_link_example =
    unlink_after_link one_file file_a file_b one_file-IsValid (λ e. cc) link_ok

set_size_example : SizeOutcome one_file 0 100 (ramfile_set_size one_file 0 100)
set_size_example = ramfile_set_size_outcome one_file 0 100 one_file-IsValid

set_mode_example :
    ModeOutcome one_file
      (some (slash ∷ file_a))
      33261
      (ramfile_set_mode_abs one_file (some (slash ∷ file_a)) 33261)
set_mode_example =
    ramfile_set_mode_abs_outcome one_file (some (slash ∷ file_a)) 33261 one_file-IsValid
