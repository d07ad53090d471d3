-- ===== src/Vfs/Files.antt =====
-- The file names of the overlay: creating, linking and unlinking one keeps the invariant.
use mona_rpzero.Prelude.{
  ℕ, ◌+◌, ◌<◌, ◌≡◌, refl, sym, ap, ◌∙◌, ◌≢◌, true, false, List, [], none, if◌then◌else◌, ◌==◌,
  ==_self, ==_ne, Table, get, put, get-put_self, get-put_ne, arith, ℕ_discrete, subst,
}
use mona_rpzero.Vfs.{
  Vfs, RamFile, RamInode, is_file_at, unlinked, linked, raminode_decref, raminode_incref, for_below,
  add_file, drop_file, add_link, ramfile_find,
}
use mona_rpzero.Vfs.Names.{IsNew, put-AreUnique, find-none, cstr_eq→eq}
use mona_rpzero.Vfs.Invariant.{
  IsValid, Agrees, link_count, link_count-put, link_count-le, target_used, get-decref, get-incref,
  unlinked-Agrees, linked-Agrees,
}

-- A name that the search does not find is new in every slot.
pub absent-IsNew :
    (t : Table RamFile) (slot : ℕ) (e : RamFile)
    → ramfile_find t e.path ≡ none
    → IsNew is_file_at 64 t slot e
unfolding ramfile_find
absent-IsNew t slot e absent path j hit lt ne =
    subst (λ q. is_file_at q (get t j) ≡ false) (cstr_eq→eq e.path path (ground arith))
      (find-none is_file_at 64 t e.path absent j lt)

-- An unused slot has no path.
pub unused-IsNew :
    (t : Table RamFile) (slot : ℕ) (e : RamFile) → e.used ≡ false → IsNew is_file_at 64 t slot e
unused-IsNew t slot e off path j hit lt ne = ground arith

put_targets :
    (t : Table RamFile) (slot : ℕ) (e : RamFile)
    → ((i : ℕ) → i < 64 → (get t i).used ≡ true → (get t i).inode_id < 64)
    → (e.used ≡ true → e.inode_id < 64)
    → (i : ℕ) → i < 64
    → (get (put t slot e) i).used ≡ true
    → (get (put t slot e) i).inode_id < 64
put_targets t slot e old new i lt = elim (ℕ_discrete i slot) [
  | yes same ↦
      subst (λ f. f.used ≡ true → f.inode_id < 64)
        (sym (ap (get (put t slot e)) same ∙ get-put_self t slot e)) new
  | no ne ↦ subst (λ f. f.used ≡ true → f.inode_id < 64) (sym (get-put_ne t slot i e ne)) (old i lt)
]

pub add_file-IsValid :
    (v : Vfs) (slot id : ℕ) (path : List ℕ) (mode : ℕ)
    → IsValid v
    → slot < 64
    → (get v.files slot).used ≡ false
    → id < 64
    → (get v.inodes id).used ≡ false
    → ramfile_find v.files path ≡ none
    → IsValid (add_file v slot id path mode)
unfolding add_file
add_file-IsValid v slot id path mode valid slot_lt slot_free id_lt id_free absent = record {
  dirs = valid.dirs;
  files =
      put-AreUnique is_file_at 64 v.files slot file valid.files
        (absent-IsNew v.files slot file absent);
  inodes = agree;
  targets = put_targets v.files slot file valid.targets (λ _. id_lt);
}
  where
    file : RamFile
    file = record { used = true; inode_id = id; path = path }

    fresh : RamInode
    fresh = record {
      used = true;
      mode = mode;
      size = 0;
      nlink = 1;
      bytes = for_below 4096 (λ _. 0) (get v.inodes id).bytes;
    }

    agree :
        (j : ℕ)
        → j < 64
        → Agrees (get (put v.inodes id fresh) j) (link_count (put v.files slot file) j)
    agree j lt = elim (ℕ_discrete j id) [
      | yes same ↦
          subst (λ n. Agrees n (link_count (put v.files slot file) j))
            (sym (ap (get (put v.inodes id fresh)) same ∙ get-put_self v.inodes id fresh))
            (ground (arith, valid.inodes j lt, link_count-put v.files slot file j slot_lt))
      | no ne ↦
          subst (λ n. Agrees n (link_count (put v.files slot file) j))
            (sym (get-put_ne v.inodes id j fresh ne))
            (ground (arith, valid.inodes j lt, link_count-put v.files slot file j slot_lt))
    ]

-- A table of inodes in which one inode follows a change of its number of names by one slot.
follow :
    (old new : Table RamInode) (files files' : Table RamFile) (id : ℕ) (n : RamInode)
    → ((j : ℕ) → get new j ≡ (if j == id then n else get old j))
    → ((j : ℕ) → j < 64 → Agrees (get old j) (link_count files j))
    → ((j : ℕ) → j ≢ id → link_count files' j ≡ link_count files j)
    → Agrees n (link_count files' id)
    → (j : ℕ) → j < 64
    → Agrees (get new j) (link_count files' j)
follow old new files files' id n shape was other at_id j lt = elim (ℕ_discrete j id) [
  | yes same ↦
      subst (λ m. Agrees m (link_count files' j))
        (sym (shape j ∙ ap (λ b. if b then n else get old j) (ap (λ k. k == id) same ∙ ==_self id)))
        (subst (λ k. Agrees n (link_count files' k)) (sym same) at_id)
  | no ne ↦
      subst (λ m. Agrees m (link_count files' j))
        (sym (shape j ∙ ap (λ b. if b then n else get old j) (==_ne j id ne)))
        (subst (Agrees (get old j)) (sym (other j ne)) (was j lt))
]

pub add_link-IsValid :
    (v : Vfs) (slot id : ℕ) (path : List ℕ)
    → IsValid v
    → slot < 64
    → (get v.files slot).used ≡ false
    → id < 64
    → (get v.inodes id).used ≡ true
    → ramfile_find v.files path ≡ none
    → IsValid (add_link v slot id path)
unfolding add_link
add_link-IsValid v slot id path valid slot_lt slot_free id_lt id_used absent = record {
  dirs = valid.dirs;
  files =
      put-AreUnique is_file_at 64 v.files slot file valid.files
        (absent-IsNew v.files slot file absent);
  inodes =
      follow v.inodes (raminode_incref v.inodes id) v.files (put v.files slot file) id
        (linked (get v.inodes id)) (λ j. get-incref v.inodes id j id_lt id_used) valid.inodes
        (λ j ne. ground (arith, link_count-put v.files slot file j slot_lt))
        (subst (Agrees (linked (get v.inodes id))) (sym more) (
          linked-Agrees (get v.inodes id) (link_count v.files id) id_used
            (omega (arith, more, link_count-le (put v.files slot file) id))
            (valid.inodes id id_lt)));
  targets = put_targets v.files slot file valid.targets (λ _. id_lt);
}
  where
    file : RamFile
    file = record { used = true; inode_id = id; path = path }

    more : link_count (put v.files slot file) id ≡ link_count v.files id + 1
    more = ground (arith, link_count-put v.files slot file id slot_lt)

pub drop_file-IsValid :
    (v : Vfs) (idx : ℕ)
    → IsValid v
    → idx < 64
    → (get v.files idx).used ≡ true
    → IsValid (drop_file v idx)
unfolding drop_file
drop_file-IsValid v idx valid lt used = record {
  dirs = valid.dirs;
  files =
      put-AreUnique is_file_at 64 v.files idx file valid.files (unused-IsNew v.files idx file refl);
  inodes =
      follow v.inodes (raminode_decref v.inodes id) v.files (put v.files idx file) id
        (unlinked (get v.inodes id))
        (λ j.
          get-decref v.inodes id j (valid.targets idx lt used) (target_used v idx valid lt used))
        valid.inodes (λ j ne. ground (arith, link_count-put v.files idx file j lt))
        (unlinked-Agrees (get v.inodes id) (link_count (put v.files idx file) id)
          (target_used v idx valid lt used)
          (subst (Agrees (get v.inodes id)) less (valid.inodes id (valid.targets idx lt used))));
  targets = put_targets v.files idx file valid.targets (λ e. ground arith);
}
  where
    file : RamFile
    file = record { used = false; inode_id = 0; path = [] }

    id : ℕ
    id = (get v.files idx).inode_id

    less : link_count v.files id ≡ link_count (put v.files idx file) id + 1
    less = ground (arith, link_count-put v.files idx file id lt, used)
