-- ===== src/Lookup/Tests.antt =====
-- Runs of the lookups, and the theorem at a concrete overlay.
use mona_rpzero.Prelude.{◌≡◌, refl, true, [], ◌∷◌, none, some, table, get, put, for_below, first}
use mona_rpzero.Vfs.{
  Vfs, init, add_file, slash, cstr_eq, strip_leading_slashes, ramdir_find, ramfile_find,
}
use mona_rpzero.Lookup.{
  Boot, inode_data, root_dir, initramfs_init, initramfs_lookup, overlay_lookup, vfs_lookup_abs,
}

abbrev blank : Vfs
blank = record {
  dirs = table (λ i. record { used = true; mode = 0; path = [] });
  files = table (λ i. record { used = true; inode_id = 0; path = [] });
  inodes =
      table (λ i. record { used = true; mode = 0; size = 0; nlink = 0; bytes = table (λ k. 0) });
}

abbrev one_file : Vfs
one_file = add_file (init blank) 0 0 (b'a' ∷ []) 33188

abbrev no_archive : Boot
no_archive = record { archive = none; size = 0 }

look_up_root : vfs_lookup_abs one_file no_archive (some (slash ∷ slash ∷ [])) ≡ some root_dir
unfolding vfs_lookup_abs overlay_lookup strip_leading_slashes cstr_eq
look_up_root = refl

look_up_file :
    vfs_lookup_abs one_file no_archive (some (slash ∷ b'a' ∷ []))
    ≡ some (record { data_at = inode_data 0; size = 0; mode = 33188 })
unfolding vfs_lookup_abs overlay_lookup strip_leading_slashes cstr_eq add_file init get put
    for_below first ramdir_find ramfile_find
look_up_file = refl

look_up_missing : initramfs_lookup (initramfs_init none 9) (slash ∷ b'b' ∷ []) ≡ none
unfolding initramfs_lookup initramfs_init
look_up_missing = refl
