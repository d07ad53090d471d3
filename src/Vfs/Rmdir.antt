-- ===== src/Vfs/Rmdir.antt =====
-- `vfs_ramdir_remove`: what it gives on every branch; a directory of the overlay goes only when
-- nothing of the overlay lies below it.
use mona_rpzero.Prelude.{
  ℕ, ◌<◌, ◌≡◌, refl, sym, ap, ◌∙◌, ◌≢◌, ◌⊎◌, inl, inr, Bool, true, false, ◌&&◌, ◌||◌, List, [], ◌∷◌,
  Option, none, some, Option-cases, ==_self, Table, get, put, arith, ◌++◌, Result, ok, err, first,
  first-IsFirst, first-none,
}
use mona_rpzero.Prelude.Errno
use mona_rpzero.Vfs.{
  Vfs, RamDir, RamFile, is_dir_at, is_file_at, is_some, has_children, path_has_prefix_dir,
  ramdir_remove, slash, ramdir_find, ramfile_find,
}
use mona_rpzero.Vfs.Names.{AreUnique, find_hit, find-some, cstr_eq→eq, cstr_eq_self}
use mona_rpzero.Vfs.Invariant.{IsValid}
use mona_rpzero.Vfs.Create.{number_at, inode_at}
use mona_rpzero.Vfs.Dirs.{off, off-IsNew, mode_in, mode_at, mode_at-put, DirChanged, put_dir}

-- A path below the directory `dir`.
abbrev pub below : List ℕ → List ℕ → List ℕ
below dir rest = dir ++ (slash ∷ rest)

prefix→below :
    (p dir : List ℕ) → path_has_prefix_dir p dir ≡ true → (rest : List ℕ) × (p ≡ below dir rest)
unfolding path_has_prefix_dir
prefix→below [] dir h = absurd cc
prefix→below (c ∷ cs) [] h = (cs, ap (λ k. k ∷ cs) (ground arith))
prefix→below (c ∷ cs) (d ∷ ds) h =
    let e : c ≡ d = ground arith in
    let (rest, more) = prefix→below cs ds (ground arith) in
    (rest, ap (λ k. k ∷ cs) e ∙ ap (λ k. d ∷ k) more)

below_prefix : (dir rest : List ℕ) → path_has_prefix_dir (below dir rest) dir ≡ true
unfolding path_has_prefix_dir
below_prefix [] rest = refl
below_prefix (d ∷ ds) rest = simp (==_self d) (below_prefix ds rest)

-- Nothing of the overlay has a path below `path`.
pub record IsEmptyDir (v : Vfs) (path : List ℕ) : Type 0 where
  pub no_dirs : (rest : List ℕ) → mode_at v.dirs (below path rest) ≡ none
  pub no_files : (rest : List ℕ) → inode_at v.files (below path rest) ≡ none

-- Some directory or file of the overlay has a path below `path`.
abbrev pub HasEntry : Vfs → List ℕ → Type 0
HasEntry v path =
    (rest : List ℕ) × ((mode_at v.dirs (below path rest) ≢ none)
      ⊎ (inode_at v.files (below path rest) ≢ none))

dir_found :
    (t : Table RamDir) (i : ℕ) (p : List ℕ)
    → AreUnique is_dir_at 64 t
    → i < 64
    → (get t i).used ≡ true
    → (get t i).path ≡ p
    → mode_at t p ≢ none
unfolding mode_at mode_in ramdir_find
dir_found t i p u lt used e miss =
    let hit = find_hit is_dir_at 64 t p i u lt (simp (used, e) (cstr_eq_self p)) in
    let there = ap (mode_in t) hit in cc

file_found :
    (t : Table RamFile) (i : ℕ) (p : List ℕ)
    → AreUnique is_file_at 64 t
    → i < 64
    → (get t i).used ≡ true
    → (get t i).path ≡ p
    → inode_at t p ≢ none
unfolding inode_at number_at ramfile_find
file_found t i p u lt used e miss =
    let hit = find_hit is_file_at 64 t p i u lt (simp (used, e) (cstr_eq_self p)) in
    let there = ap (number_at t) hit in cc

dir_below : List ℕ → RamDir → Bool
dir_below path d = d.used && path_has_prefix_dir d.path path

file_below : List ℕ → RamFile → Bool
file_below path f = f.used && path_has_prefix_dir f.path path

abbrev first_dir : Vfs → List ℕ → Option ℕ
first_dir v path = first (λ i. dir_below path (get v.dirs i)) 0 64

abbrev first_file : Vfs → List ℕ → Option ℕ
first_file v path = first (λ i. file_below path (get v.files i)) 0 64

has_children-eq :
    (v : Vfs) (path : List ℕ)
    → has_children v path ≡ is_some (first_dir v path) || is_some (first_file v path)
unfolding has_children dir_below file_below
has_children-eq v path = refl

dir_entry :
    (v : Vfs) (path : List ℕ) (i : ℕ) → IsValid v → first_dir v path ≡ some i → HasEntry v path
unfolding dir_below
dir_entry v path i valid e =
    let f = first-IsFirst (λ k. dir_below path (get v.dirs k)) 0 64 e in
    let (rest, eq) = prefix→below (get v.dirs i).path path (ground (arith, f.passes)) in
    (
      rest,
      inl (
          dir_found v.dirs i (below path rest) valid.dirs (omega (arith, f.below))
            (ground (arith, f.passes)) eq),
    )

file_entry :
    (v : Vfs) (path : List ℕ) (i : ℕ) → IsValid v → first_file v path ≡ some i → HasEntry v path
unfolding file_below
file_entry v path i valid e =
    let f = first-IsFirst (λ k. file_below path (get v.files k)) 0 64 e in
    let (rest, eq) = prefix→below (get v.files i).path path (ground (arith, f.passes)) in
    (
      rest,
      inr (
          file_found v.files i (below path rest) valid.files (omega (arith, f.below))
            (ground (arith, f.passes)) eq),
    )

no_dir_below :
    (v : Vfs) (path rest : List ℕ)
    → first_dir v path ≡ none
    → mode_at v.dirs (below path rest) ≡ none
unfolding mode_at mode_in ramdir_find dir_below
no_dir_below v path rest e = elim (Option-cases (ramdir_find v.dirs (below path rest))) [
  | inl miss ↦ rw miss refl
  | inr (i, hit) ↦
      let (lt, named) = find-some is_dir_at 64 v.dirs (below path rest) hit in
      let not_below =
        first-none (λ k. dir_below path (get v.dirs k)) 0 64 e i (omega arith) (omega arith) in
      let eq = cstr_eq→eq (get v.dirs i).path (below path rest) (ground arith) in
      let prefix = ap (λ p. path_has_prefix_dir p path) eq ∙ below_prefix path rest in
      absurd (ground arith)
]

no_file_below :
    (v : Vfs) (path rest : List ℕ)
    → first_file v path ≡ none
    → inode_at v.files (below path rest) ≡ none
unfolding inode_at number_at ramfile_find file_below
no_file_below v path rest e = elim (Option-cases (ramfile_find v.files (below path rest))) [
  | inl miss ↦ rw miss refl
  | inr (i, hit) ↦
      let (lt, named) = find-some is_file_at 64 v.files (below path rest) hit in
      let not_below =
        first-none (λ k. file_below path (get v.files k)) 0 64 e i (omega arith) (omega arith) in
      let eq = cstr_eq→eq (get v.files i).path (below path rest) (ground arith) in
      let prefix = ap (λ p. path_has_prefix_dir p path) eq ∙ below_prefix path rest in
      absurd (ground arith)
]

children-cases :
    (v : Vfs) (path : List ℕ)
    → IsValid v
    → ((has_children v path ≡ true) × HasEntry v path)
      ⊎ ((has_children v path ≡ false) × IsEmptyDir v path)
children-cases v path valid = elim (Option-cases (first_dir v path)) [
  | inr (i, e) ↦ inl (has_children-eq v path ∙ rw e refl, dir_entry v path i valid e)
  | inl e ↦ elim (Option-cases (first_file v path)) [
    | inr (i, e') ↦ inl (has_children-eq v path ∙ rw (e, e') refl, file_entry v path i valid e')
    | inl e' ↦ inr (
      has_children-eq v path ∙ rw (e, e') refl,
      record {
        no_dirs = λ rest. no_dir_below v path rest e;
        no_files = λ rest. no_file_below v path rest e';
      },
    )
  ]
]

pub data RemoveOutcome (v : Vfs) (path : List ℕ) : Vfs × Result (Unit {0}) → Type 0 where
  no_name : path ≡ [] → RemoveOutcome v path (v, err Errno.einval)
  no_dir : ramdir_find v.dirs path ≡ none → RemoveOutcome v path (v, err Errno.enoent)
  not_empty : HasEntry v path → RemoveOutcome v path (v, err Errno.enotempty)
  removed :
      (v' : Vfs)
      → ramdir_find v.dirs path ≢ none
      → IsEmptyDir v path
      → DirChanged v path none v'
      → RemoveOutcome v path (v', ok tt)

remove_dir-DirChanged :
    (v : Vfs) (path : List ℕ) (i : ℕ)
    → IsValid v
    → ramdir_find v.dirs path ≡ some i
    → DirChanged v path none (record v { dirs = put v.dirs i off })
unfolding ramdir_find
remove_dir-DirChanged v path i valid e =
    let (lt, here) = find-some is_dir_at 64 v.dirs path e in
    let used : (get v.dirs i).used ≡ true = ground arith in
    let named = cstr_eq→eq (get v.dirs i).path path (ground arith) in
    record {
      leads = λ q.
          mode_at-put v.dirs i off q valid.dirs (off-IsNew v.dirs i) lt ∙ rw (used, named) refl;
      same_files = refl;
      same_inodes = refl;
      valid = put_dir v i off valid (off-IsNew v.dirs i);
    }

-- `vfs_ramdir_remove` on a valid overlay: EINVAL for an empty path, ENOENT for no such directory,
-- ENOTEMPTY if the overlay has a directory or file below it, each with the overlay unchanged; else
-- nothing lay below it, the path alone leads nowhere now, and the overlay stays valid.
pub ramdir_remove_outcome :
    (v : Vfs) (path : List ℕ) → IsValid v → RemoveOutcome v path (ramdir_remove v path)
unfolding ramdir_remove
ramdir_remove_outcome v [] valid = no_name refl
ramdir_remove_outcome v (c ∷ cs) valid = elim (Option-cases (ramdir_find v.dirs (c ∷ cs))) [
  | inl e ↦ rw (e, ramdir_remove) (no_dir e)
  | inr (i, e) ↦
      rw (e, ramdir_remove)
        (elim (children-cases v (c ∷ cs) valid) [
          | inl (yes_child, entry) ↦ rw yes_child (not_empty entry)
          | inr (no_child, empty) ↦ rw no_child (
              removed (record v { dirs = put v.dirs i off })
                (λ miss. let clash = sym e ∙ miss in cc) empty
                (remove_dir-DirChanged v (c ∷ cs) i valid e))
        ])
]
