-- ===== src/Vfs/Link.antt =====
-- `vfs_ramfile_link`: what it gives on every branch.
use mona_rpzero.Prelude.{
  ℕ, ◌+◌, ◌≤◌, ◌<◌, ◌≡◌, refl, ap, ◌∙◌, ◌≢◌, ◌⊎◌, inl, inr, true, false, not, ◌||◌, List, [], ◌∷◌,
  none, some, Option-cases, if◌then◌else◌, ==_self, ==_ne, ltb, leb, Table, get, arith, if_cases,
  Result, ok, err, length, lt→leb_false, ltb→lt, ltb_false→le,
}
use mona_rpzero.Prelude.Errno
use mona_rpzero.Vfs.{
  Vfs, RamFile, is_file_at, is_some, linked, cstr_eq, add_link, link_to, ramfile_link, ramfile_find,
  ramdir_find, ramfile_alloc_slot,
}
use mona_rpzero.Vfs.Names.{find-some}
use mona_rpzero.Vfs.Invariant.{IsValid, link_count-le, target_used, get-incref}
use mona_rpzero.Vfs.Files.{add_link-IsValid}
use mona_rpzero.Vfs.Create.{
  number_at, inode_at, inode_at-put_free, slot_free, AllUsed, Exists, files_full, found_or_not,
}

-- The name `path` has been added to the inode `id`.
pub record LinkMade (v : Vfs) (path : List ℕ) (id : ℕ) (v' : Vfs) : Type 0 where
  pub leads :
      (q : List ℕ) → inode_at v'.files q ≡ (if cstr_eq path q then some id else inode_at v.files q)
  pub same_dirs : v'.dirs ≡ v.dirs
  pub others : (j : ℕ) → j ≢ id → get v'.inodes j ≡ get v.inodes j
  pub one_more : get v'.inodes id ≡ record (get v.inodes id) { nlink = (get v.inodes id).nlink + 1 }

pub data LinkOutcome (v : Vfs) (old new : List ℕ) : Vfs × Result (Unit {0}) → Type 0 where
  no_name : (old ≡ []) ⊎ (new ≡ []) → LinkOutcome v old new (v, err Errno.enoent)
  no_file : ramfile_find v.files old ≡ none → LinkOutcome v old new (v, err Errno.enoent)
  present : Exists v new → LinkOutcome v old new (v, err Errno.eexist)
  no_slot : AllUsed (λ i. (get v.files i).used) → LinkOutcome v old new (v, err Errno.enomem)
  too_long : 256 ≤ length new → LinkOutcome v old new (v, err Errno.enametoolong)
  made :
      (id : ℕ) (v' : Vfs)
      → inode_at v.files old ≡ some id
      → ramfile_find v.files new ≡ none
      → ramdir_find v.dirs new ≡ none
      → length new < 256
      → LinkMade v new id v'
      → IsValid v'
      → LinkOutcome v old new (v', ok tt)

-- The file that a search finds: its slot is used, and its inode is in range and in use.
pub found_file :
    (v : Vfs) (path : List ℕ) (i : ℕ)
    → IsValid v
    → ramfile_find v.files path ≡ some i
    → (i < 64)
      × ((get v.files i).used ≡ true)
      × ((get v.files i).inode_id < 64)
      × ((get v.inodes (get v.files i).inode_id).used ≡ true)
      × (cstr_eq (get v.files i).path path ≡ true)
unfolding ramfile_find
found_file v path i valid e =
    let f = find-some is_file_at 64 v.files path e in
    let used : (get v.files i).used ≡ true = ground (arith, f.1) in
    (f.0, used, valid.targets i f.0 used, target_used v i valid f.0 used, ground (arith, f.1))

pub inode_at_found :
    (t : Table RamFile) (path : List ℕ) (i : ℕ)
    → ramfile_find t path ≡ some i
    → inode_at t path ≡ some (get t i).inode_id
unfolding inode_at
inode_at_found t path i e = ap (number_at t) e

no_wrap :
    (v : Vfs) (id : ℕ)
    → IsValid v
    → id < 64
    → (get v.inodes id).used ≡ true
    → linked (get v.inodes id) ≡ record (get v.inodes id) { nlink = (get v.inodes id).nlink + 1 }
unfolding linked
no_wrap v id valid lt used =
    ap (λ k. record (get v.inodes id) { nlink = k })
      (ground (arith, (valid.inodes id lt).links, link_count-le v.files id))

add_link-LinkMade :
    (v : Vfs) (slot id : ℕ) (path : List ℕ)
    → IsValid v
    → slot < 64
    → (get v.files slot).used ≡ false
    → id < 64
    → (get v.inodes id).used ≡ true
    → ramfile_find v.files path ≡ none
    → LinkMade v path id (add_link v slot id path)
unfolding add_link
add_link-LinkMade v slot id path valid slot_lt free id_lt used absent = record {
  leads = λ q. inode_at-put_free v.files slot id path q valid.files absent slot_lt free;
  same_dirs = refl;
  others = λ j ne. get-incref v.inodes id j id_lt used ∙ simp (==_ne j id ne) refl;
  one_more =
      get-incref v.inodes id id id_lt used ∙ simp (==_self id) refl ∙ no_wrap v id valid id_lt used;
}

link_to_outcome :
    (v : Vfs) (old new : List ℕ) → IsValid v → LinkOutcome v old new (link_to v old new)
unfolding link_to
link_to_outcome v old new valid = elim (Option-cases (ramfile_find v.files old)) [
  | inl e ↦ rw (e, link_to) (no_file e)
  | inr (i, e) ↦ rw (e, link_to) (checked i e)
]
  where
    P : Vfs × Result (Unit {0}) → Type 0
    P = LinkOutcome v old new

    linked_to :
        (i slot : ℕ)
        → ramfile_find v.files old ≡ some i
        → ramfile_find v.files new ≡ none
        → ramdir_find v.dirs new ≡ none
        → ramfile_alloc_slot v.files ≡ some slot
        → P (
            if ltb 256 (length new + 1)
            then (v, err Errno.enametoolong)
            else if leb 64 (get v.files i).inode_id
                || not (get v.inodes (get v.files i).inode_id).used
            then (v, err Errno.enoent)
            else (add_link v slot (get v.files i).inode_id new, ok tt))
    linked_to i slot e absent no_dir e' =
        if_cases P (ltb 256 (length new + 1))
          (λ long. too_long (omega (arith, ltb→lt 256 (length new + 1) long)))
          (λ short.
            let (lt, used, id_lt, alive, _) = found_file v old i valid e in
            let s = slot_free v.files slot e' in
            let id = (get v.files i).inode_id in
            simp (lt→leb_false 64 id id_lt, alive)
              (made id (add_link v slot id new) (inode_at_found v.files old i e) absent no_dir
                (omega (arith, ltb_false→le 256 (length new + 1) short))
                (add_link-LinkMade v slot id new valid s.0 s.1 id_lt alive absent)
                (add_link-IsValid v slot id new valid s.0 s.1 id_lt alive absent)))

    checked :
        (i : ℕ)
        → ramfile_find v.files old ≡ some i
        → P (
            if is_some (ramfile_find v.files new)
            then (v, err Errno.eexist)
            else if is_some (ramdir_find v.dirs new)
            then (v, err Errno.eexist)
            else elim (ramfile_alloc_slot v.files) [
              | none ↦ (v, err Errno.enomem)
              | some slot ↦
                  if ltb 256 (length new + 1)
                  then (v, err Errno.enametoolong)
                  else if leb 64 (get v.files i).inode_id
                      || not (get v.inodes (get v.files i).inode_id).used
                  then (v, err Errno.enoent)
                  else (add_link v slot (get v.files i).inode_id new, ok tt)
            ])
    checked i e =
        if_cases P (is_some (ramfile_find v.files new))
          (λ h. present (inl ((found_or_not (ramfile_find v.files new)).0 h)))
          (λ no_file.
            if_cases P (is_some (ramdir_find v.dirs new))
              (λ h. present (inr ((found_or_not (ramdir_find v.dirs new)).0 h)))
              (λ no_dir. elim (Option-cases (ramfile_alloc_slot v.files)) [
                | inl full ↦ rw full (no_slot (files_full v.files full))
                | inr (slot, e') ↦ rw e' (
                    linked_to i slot e ((found_or_not (ramfile_find v.files new)).1 no_file)
                      ((found_or_not (ramdir_find v.dirs new)).1 no_dir) e')
              ]))

pub ramfile_link_outcome :
    (v : Vfs) (old new : List ℕ) → IsValid v → LinkOutcome v old new (ramfile_link v old new)
unfolding ramfile_link
ramfile_link_outcome v [] new valid = no_name (inl refl)
ramfile_link_outcome v (c ∷ cs) [] valid = no_name (inr refl)
ramfile_link_outcome v (c ∷ cs) (d ∷ ds) valid = link_to_outcome v (c ∷ cs) (d ∷ ds) valid
