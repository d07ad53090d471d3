-- ===== src/Vfs/Dirs.antt =====
-- `vfs_ramdir_create`: what it gives on every branch, in terms of the mode
-- that a directory's path leads to.
use mona_rpzero.Prelude.{
  ℕ, ◌+◌, ◌≤◌, ◌<◌, ◌≡◌, refl, ap, ◌∙◌, ◌≢◌, inl, inr, true, false, not, List, [], ◌∷◌, Option,
  none, some, Bool-cases, Option-cases, if◌then◌else◌, ltb, Table, get, put, get-put_self,
  get-put_ne, arith, if_cases, Result, ok, err, subst, first-IsFirst, length, ltb→lt, ltb_false→le,
}
use mona_rpzero.Prelude.Errno
use mona_rpzero.Vfs.{
  Vfs, RamDir, is_dir_at, is_some, ramdir_create, ramdir_alloc_slot, ramdir_find, cstr_eq,
}
use mona_rpzero.Vfs.Names.{
  AreUnique, IsNew, put-AreUnique, find-put, find-none, find-some, cstr_eq→eq,
}
use mona_rpzero.Vfs.Invariant.{IsValid}
use mona_rpzero.Vfs.Create.{all_used, AllUsed, found_or_not}

abbrev pub off : RamDir
off = record { used = false; mode = 0; path = [] }

unfoldable pub mode_in : Table RamDir → Option ℕ → Option ℕ
mode_in t none = none
mode_in t (some i) = some (get t i).mode

-- The mode of the directory `path`.
unfoldable pub mode_at : Table RamDir → List ℕ → Option ℕ
unfolding mode_in
mode_at t path = mode_in t (ramdir_find t path)

pub absent_dir-IsNew :
    (t : Table RamDir) (slot : ℕ) (e : RamDir)
    → ramdir_find t e.path ≡ none
    → IsNew is_dir_at 64 t slot e
unfolding ramdir_find
absent_dir-IsNew t slot e absent path j hit lt ne =
    subst (λ q. is_dir_at q (get t j) ≡ false) (cstr_eq→eq e.path path (ground arith))
      (find-none is_dir_at 64 t e.path absent j lt)

pub off-IsNew : (t : Table RamDir) (slot : ℕ) → IsNew is_dir_at 64 t slot off
off-IsNew t slot path j hit lt ne = ground arith

pub mode_at-put :
    (t : Table RamDir) (slot : ℕ) (e : RamDir) (q : List ℕ)
    → AreUnique is_dir_at 64 t
    → IsNew is_dir_at 64 t slot e
    → slot < 64
    → mode_at (put t slot e) q ≡ (
        if is_dir_at q e
        then some e.mode
        else if is_dir_at q (get t slot)
        then none
        else mode_at t q)
unfolding mode_at mode_in ramdir_find
mode_at-put t slot e q u new lt =
    ap (mode_in (put t slot e)) (find-put is_dir_at 64 t slot e q u new lt)
    ∙ elim (Bool-cases (is_dir_at q e)) [
      | inl here ↦ rw here (ap (λ f. some f.mode) (get-put_self t slot e))
      | inr away ↦ rw away (elim (Bool-cases (is_dir_at q (get t slot))) [
        | inl was ↦ rw was refl
        | inr not_was ↦ rw not_was (elim (Option-cases (ramdir_find t q)) [
          | inl miss ↦ rw miss refl
          | inr (i, hit) ↦
              rw hit (ap (λ f. some f.mode) (get-put_ne t slot i e (moved i hit not_was)))
        ])
      ])
    ]
  where
    moved : (i : ℕ) → ramdir_find t q ≡ some i → is_dir_at q (get t slot) ≡ false → i ≢ slot
    moved i hit not_was same =
        let found = (find-some is_dir_at 64 t q hit).1 in
        let there = ap (λ k. is_dir_at q (get t k)) same in cc

-- Only directories change, and only what `path` leads to, to `to`.
pub record DirChanged (v : Vfs) (path : List ℕ) (to : Option ℕ) (v' : Vfs) : Type 0 where
  pub leads : (q : List ℕ) → mode_at v'.dirs q ≡ (if cstr_eq path q then to else mode_at v.dirs q)
  pub same_files : v'.files ≡ v.files
  pub same_inodes : v'.inodes ≡ v.inodes
  pub valid : IsValid v'

pub data MakeDirOutcome (v : Vfs) (path : List ℕ) (mode : ℕ)
    : Vfs × Result (Unit {0}) → Type 0 where
  no_name : path ≡ [] → MakeDirOutcome v path mode (v, err Errno.enoent)
  present : ramdir_find v.dirs path ≢ none → MakeDirOutcome v path mode (v, err Errno.eexist)
  no_slot : AllUsed (λ i. (get v.dirs i).used) → MakeDirOutcome v path mode (v, err Errno.enomem)
  too_long : 256 ≤ length path → MakeDirOutcome v path mode (v, err Errno.enametoolong)
  made :
      (v' : Vfs)
      → ramdir_find v.dirs path ≡ none
      → length path < 256
      → DirChanged v path (some mode) v'
      → MakeDirOutcome v path mode (v', ok tt)

pub put_dir :
    (v : Vfs) (slot : ℕ) (e : RamDir)
    → IsValid v
    → IsNew is_dir_at 64 v.dirs slot e
    → IsValid (record v { dirs = put v.dirs slot e })
put_dir v slot e valid new = record {
  dirs = put-AreUnique is_dir_at 64 v.dirs slot e valid.dirs new;
  files = valid.files;
  inodes = valid.inodes;
  targets = valid.targets;
}

dir_slot_free :
    (t : Table RamDir) (slot : ℕ)
    → ramdir_alloc_slot t ≡ some slot
    → (slot < 64) × ((get t slot).used ≡ false)
unfolding ramdir_alloc_slot
dir_slot_free t slot e =
    let f = first-IsFirst (λ i. not (get t i).used) 0 64 e in
    (omega (arith, f.below), ground (arith, f.passes))

dirs_full : (t : Table RamDir) → ramdir_alloc_slot t ≡ none → AllUsed (λ i. (get t i).used)
unfolding ramdir_alloc_slot
dirs_full t e = all_used (λ i. (get t i).used) e

-- `vfs_ramdir_create` on a valid overlay: ENOENT for an empty path, EEXIST if a directory has it,
-- ENOMEM only if all slots are used, ENAMETOOLONG from 256 bytes on, each with the overlay unchanged;
-- else the path leads to the mode, all else stays, and the overlay is valid.
pub ramdir_create_outcome :
    (v : Vfs) (path : List ℕ) (mode : ℕ)
    → IsValid v
    → MakeDirOutcome v path mode (ramdir_create v path mode)
unfolding ramdir_create
ramdir_create_outcome v [] mode valid = no_name refl
ramdir_create_outcome v (c ∷ cs) mode valid =
    if_cases (MakeDirOutcome v path mode) (is_some (ramdir_find v.dirs path))
      (λ e. present ((found_or_not (ramdir_find v.dirs path)).0 e))
      (λ no_dir. elim (Option-cases (ramdir_alloc_slot v.dirs)) [
        | inl e ↦ rw e (no_slot (dirs_full v.dirs e))
        | inr (slot, e) ↦ rw e (
            if_cases (MakeDirOutcome v path mode) (ltb 256 (length path + 1))
              (λ long. too_long (omega (arith, ltb→lt 256 (length path + 1) long)))
              (λ short.
                let absent = (found_or_not (ramdir_find v.dirs path)).1 no_dir in
                let s = dir_slot_free v.dirs slot e in
                let new = absent_dir-IsNew v.dirs slot dir absent in
                made (record v { dirs = put v.dirs slot dir }) absent
                  (omega (arith, ltb_false→le 256 (length path + 1) short))
                  (record {
                    leads = λ q. mode_at-put v.dirs slot dir q valid.dirs new s.0 ∙ rw s.1 refl;
                    same_files = refl;
                    same_inodes = refl;
                    valid = put_dir v slot dir valid new;
                  })))
      ])
  where
    path : List ℕ
    path = c ∷ cs

    dir : RamDir
    dir = record { used = true; mode = mode; path = path }
