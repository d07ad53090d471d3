-- ===== src/Vfs/Create.antt =====
-- `vfs_ramfile_create` and `vfs_ramfile_link`: what each gives on every branch, in terms of what a
-- path leads to.
use mona_rpzero.Prelude.{
  ℕ, ◌≤◌, ◌<◌, ◌≡◌, refl, ap, ◌∙◌, ◌≢◌, ◌⊎◌, inl, inr, Bool, true, false, not, List, [], Option,
  none, some, Bool-cases, Option-cases, if◌then◌else◌, Table, get, put, get-put_self, get-put_ne,
  arith, Result, ok, err, first, first-IsFirst, first-none, length,
}
use mona_rpzero.Prelude.Errno
use mona_rpzero.Vfs.{
  Vfs, RamFile, RamInode, is_file_at, is_some, cstr_eq, ramfile_find, ramdir_find,
  ramfile_alloc_slot, raminode_alloc_slot,
}
use mona_rpzero.Vfs.Names.{AreUnique, IsNew, find-put, find-some}
use mona_rpzero.Vfs.Invariant.{IsValid}
use mona_rpzero.Vfs.Files.{absent-IsNew}

unfoldable pub number_at : Table RamFile → Option ℕ → Option ℕ
number_at t none = none
number_at t (some i) = some (get t i).inode_id

-- The inode that a path leads to.
unfoldable pub inode_at : Table RamFile → List ℕ → Option ℕ
unfolding number_at
inode_at t path = number_at t (ramfile_find t path)

pub inode_at-put :
    (t : Table RamFile) (slot : ℕ) (e : RamFile) (q : List ℕ)
    → AreUnique is_file_at 64 t
    → IsNew is_file_at 64 t slot e
    → slot < 64
    → inode_at (put t slot e) q ≡ (
        if is_file_at q e
        then some e.inode_id
        else if is_file_at q (get t slot)
        then none
        else inode_at t q)
unfolding inode_at number_at ramfile_find
inode_at-put t slot e q u new lt =
    ap (number_at (put t slot e)) (find-put is_file_at 64 t slot e q u new lt)
    ∙ elim (Bool-cases (is_file_at q e)) [
      | inl here ↦ rw here (ap (λ f. some f.inode_id) (get-put_self t slot e))
      | inr away ↦ rw away (elim (Bool-cases (is_file_at q (get t slot))) [
        | inl was ↦ rw was refl
        | inr not_was ↦ rw not_was (elim (Option-cases (ramfile_find t q)) [
          | inl miss ↦ rw miss refl
          | inr (i, hit) ↦
              rw hit (ap (λ f. some f.inode_id) (get-put_ne t slot i e (moved i hit not_was)))
        ])
      ])
    ]
  where
    moved : (i : ℕ) → ramfile_find t q ≡ some i → is_file_at q (get t slot) ≡ false → i ≢ slot
    moved i hit not_was same =
        let found = (find-some is_file_at 64 t q hit).1 in
        let there = ap (λ k. is_file_at q (get t k)) same in cc

-- A free file slot: no path loses its name when it is written.
pub inode_at-put_free :
    (t : Table RamFile) (slot id : ℕ) (path q : List ℕ)
    → AreUnique is_file_at 64 t
    → ramfile_find t path ≡ none
    → slot < 64
    → (get t slot).used ≡ false
    → inode_at (put t slot (record { used = true; inode_id = id; path = path })) q
      ≡ (if cstr_eq path q then some id else inode_at t q)
inode_at-put_free t slot id path q u absent lt free =
    inode_at-put t slot file q u (absent-IsNew t slot file absent) lt ∙ rw free refl
  where
    file : RamFile
    file = record { used = true; inode_id = id; path = path }

pub slot_free :
    (t : Table RamFile) (slot : ℕ)
    → ramfile_alloc_slot t ≡ some slot
    → (slot < 64) × ((get t slot).used ≡ false)
unfolding ramfile_alloc_slot
slot_free t slot e =
    let f = first-IsFirst (λ i. not (get t i).used) 0 64 e in
    (omega (arith, f.below), ground (arith, f.passes))

pub inode_free :
    (t : Table RamInode) (id : ℕ)
    → raminode_alloc_slot t ≡ some id
    → (id < 64) × ((get t id).used ≡ false)
unfolding raminode_alloc_slot
inode_free t id e =
    let f = first-IsFirst (λ i. not (get t i).used) 0 64 e in
    (omega (arith, f.below), ground (arith, f.passes))

-- Every slot of a table of 64 is in use.
abbrev pub AllUsed : (ℕ → Bool) → Type 0
AllUsed used = (i : ℕ) → i < 64 → used i ≡ true

-- Some file or directory of the overlay has the path.
abbrev pub Exists : Vfs → List ℕ → Type 0
Exists v path = (ramfile_find v.files path ≢ none) ⊎ (ramdir_find v.dirs path ≢ none)

-- The file `path` has been made, with the empty and zeroed inode `id`.
pub record FileMade (v : Vfs) (path : List ℕ) (mode id : ℕ) (v' : Vfs) : Type 0 where
  pub was_free : (get v.inodes id).used ≡ false
  pub leads :
      (q : List ℕ) → inode_at v'.files q ≡ (if cstr_eq path q then some id else inode_at v.files q)
  pub same_dirs : v'.dirs ≡ v.dirs
  pub others : (j : ℕ) → j ≢ id → get v'.inodes j ≡ get v.inodes j
  pub in_use : (get v'.inodes id).used ≡ true
  pub has_mode : (get v'.inodes id).mode ≡ mode
  pub empty : (get v'.inodes id).size ≡ 0
  pub one_link : (get v'.inodes id).nlink ≡ 1
  pub zeroed : (k : ℕ) → k < 4096 → get (get v'.inodes id).bytes k ≡ 0

pub data CreateOutcome (v : Vfs) (path : List ℕ) (mode : ℕ) : Vfs × Result (Unit {0}) → Type 0 where
  no_name : path ≡ [] → CreateOutcome v path mode (v, err Errno.enoent)
  present : Exists v path → CreateOutcome v path mode (v, err Errno.eexist)
  no_slot :
      AllUsed (λ i. (get v.files i).used) ⊎ AllUsed (λ i. (get v.inodes i).used)
      → CreateOutcome v path mode (v, err Errno.enomem)
  too_long : 256 ≤ length path → CreateOutcome v path mode (v, err Errno.enametoolong)
  made :
      (id : ℕ) (v' : Vfs)
      → ramfile_find v.files path ≡ none
      → ramdir_find v.dirs path ≡ none
      → length path < 256
      → FileMade v path mode id v'
      → IsValid v'
      → CreateOutcome v path mode (v', ok tt)

pub all_used : (used : ℕ → Bool) → first (λ i. not (used i)) 0 64 ≡ none → AllUsed used
all_used used e i lt =
    let h = first-none (λ k. not (used k)) 0 64 e i (omega arith) (omega arith) in ground arith

pub files_full : (t : Table RamFile) → ramfile_alloc_slot t ≡ none → AllUsed (λ i. (get t i).used)
unfolding ramfile_alloc_slot
files_full t e = all_used (λ i. (get t i).used) e

pub inodes_full :
    (t : Table RamInode) → raminode_alloc_slot t ≡ none → AllUsed (λ i. (get t i).used)
unfolding raminode_alloc_slot
inodes_full t e = all_used (λ i. (get t i).used) e

pub found_or_not :
    {A : Type 0} (o : Option A) → (is_some o ≡ true → o ≢ none) × (is_some o ≡ false → o ≡ none)
found_or_not none = (λ h. absurd cc, λ h. refl)
found_or_not (some a) = (λ h e. cc, λ h. absurd cc)
