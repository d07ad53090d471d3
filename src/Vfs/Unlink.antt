-- ===== src/Vfs/Unlink.antt =====
-- `vfs_ramfile_unlink`: what it gives on every branch; the data of a file outlives all names but the
-- last.
use mona_rpzero.Prelude.{
  ℕ, ◌-◌, ◌<◌, ◌≡◌, refl, sym, ap, ◌∙◌, ◌≢◌, inl, inr, true, false, List, [], ◌∷◌, none, some,
  Option-cases, if◌then◌else◌, ◌==◌, ==_self, ==_ne, ltb, get, arith, if_cases, Result, ok, err,
  subst, get-for_below, lt→ltb,
}
use mona_rpzero.Prelude.Errno
use mona_rpzero.Vfs.{
  Vfs, RamFile, RamInode, unlinked, cstr_eq, drop_file, ramfile_unlink, ramfile_find,
}
use mona_rpzero.Vfs.Names.{cstr_eq→eq}
use mona_rpzero.Vfs.Invariant.{IsValid, get-decref}
use mona_rpzero.Vfs.Files.{drop_file-IsValid, unused-IsNew}
use mona_rpzero.Vfs.Create.{inode_at, inode_at-put}
use mona_rpzero.Vfs.Link.{found_file, inode_at_found}

-- The inode after one name less: the last one frees and clears it, any other leaves it its data.
pub data LinkDropped (n n' : RamInode) : Type 0 where
  last :
      n.nlink ≡ 1
      → n'.used ≡ false
      → n'.size ≡ 0
      → ((k : ℕ) → k < 4096 → get n'.bytes k ≡ 0)
      → LinkDropped n n'
  not_last : 1 < n.nlink → n' ≡ record n { nlink = n.nlink - 1 } → LinkDropped n n'

-- The name `path` of the inode `id` has been removed.
pub record NameDropped (v : Vfs) (path : List ℕ) (id : ℕ) (v' : Vfs) : Type 0 where
  pub leads :
      (q : List ℕ) → inode_at v'.files q ≡ (if cstr_eq path q then none else inode_at v.files q)
  pub same_dirs : v'.dirs ≡ v.dirs
  pub others : (j : ℕ) → j ≢ id → get v'.inodes j ≡ get v.inodes j
  pub one_less : LinkDropped (get v.inodes id) (get v'.inodes id)

pub data UnlinkOutcome (v : Vfs) (path : List ℕ) : Vfs × Result (Unit {0}) → Type 0 where
  no_name : path ≡ [] → UnlinkOutcome v path (v, err Errno.enoent)
  no_file : ramfile_find v.files path ≡ none → UnlinkOutcome v path (v, err Errno.enoent)
  dropped :
      (id : ℕ) (v' : Vfs)
      → inode_at v.files path ≡ some id
      → NameDropped v path id v'
      → IsValid v'
      → UnlinkOutcome v path (v', ok tt)

unlinked-LinkDropped : (n : RamInode) → 0 < n.nlink → LinkDropped n (unlinked n)
unfolding unlinked
unlinked-LinkDropped n some_link =
    if_cases (LinkDropped n) (links == 0)
      (λ e.
        last (ground arith) refl refl
          (λ k lt. get-for_below 4096 (λ _. 0) n.bytes k ∙ simp (lt→ltb k 4096 lt) refl))
      (λ e. not_last (ground arith) (ap (λ l. record n { nlink = l }) (ground arith)))
  where
    links : ℕ
    links = if ltb 0 n.nlink then n.nlink - 1 else n.nlink

-- Paths that the same file slot answers to are equal.
same_path : (p q r : List ℕ) → cstr_eq p q ≡ true → cstr_eq p r ≡ cstr_eq q r
same_path p q r e = ap (λ k. cstr_eq k r) (cstr_eq→eq p q e)

drop_file-NameDropped :
    (v : Vfs) (path : List ℕ) (i : ℕ)
    → IsValid v
    → ramfile_find v.files path ≡ some i
    → NameDropped v path (get v.files i).inode_id (drop_file v i)
unfolding drop_file
drop_file-NameDropped v path i valid e =
    let (lt, used, id_lt, alive, named) = found_file v path i valid e in
    record {
      leads = λ q.
          inode_at-put v.files i file q valid.files (unused-IsNew v.files i file refl) lt
          ∙ rw (used, same_path (get v.files i).path path q named) refl;
      same_dirs = refl;
      others = λ j ne. get-decref v.inodes id j id_lt alive ∙ simp (==_ne j id ne) refl;
      one_less =
          subst (LinkDropped (get v.inodes id))
            (sym (get-decref v.inodes id id id_lt alive ∙ simp (==_self id) refl))
            (unlinked-LinkDropped (get v.inodes id) ((valid.inodes id id_lt).alive alive));
    }
  where
    id : ℕ
    id = (get v.files i).inode_id

    file : RamFile
    file = record { used = false; inode_id = 0; path = [] }

-- `vfs_ramfile_unlink` on a valid overlay: ENOENT with the overlay unchanged for an empty path or a
-- missing file; else the path leads nowhere, its inode has one link less with its data kept, or is
-- freed and zeroed if the link was the last, and the overlay stays valid.
pub ramfile_unlink_outcome :
    (v : Vfs) (path : List ℕ) → IsValid v → UnlinkOutcome v path (ramfile_unlink v path)
unfolding ramfile_unlink
ramfile_unlink_outcome v [] valid = no_name refl
ramfile_unlink_outcome v (c ∷ cs) valid = elim (Option-cases (ramfile_find v.files (c ∷ cs))) [
  | inl e ↦ rw (e, ramfile_unlink) (no_file e)
  | inr (i, e) ↦
      rw (e, ramfile_unlink)
        (let (lt, used, id_lt, alive, named) = found_file v (c ∷ cs) i valid e in
          dropped (get v.files i).inode_id (drop_file v i) (inode_at_found v.files (c ∷ cs) i e)
            (drop_file-NameDropped v (c ∷ cs) i valid e) (drop_file-IsValid v i valid lt used))
]
