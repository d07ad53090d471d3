-- ===== src/Vfs/Attr.antt =====
-- `vfs_ramfile_get`, `vfs_ramfile_set_size`, `vfs_ramfile_set_mode_abs` and `vfs_ramfile_find_abs`:
-- what one reads after the others.
use mona_rpzero.Prelude.{
  ℕ, ◌≤◌, ◌<◌, ◌≡◌, refl, sym, ap, ◌∙◌, ◌≢◌, ◌⊎◌, inl, inr, true, false, not, List, [], ◌∷◌, Option,
  none, some, Option-cases, ltb, leb, get, put, get-put_self, get-put_ne, arith, ℕ_discrete,
  if_cases, Result, ok, err, subst, leb→le, lt→leb_false, ltb→lt, ltb_false→le, leb_false→lt,
}
use mona_rpzero.Prelude.Errno
use mona_rpzero.Vfs.{
  Vfs, RamInode, contents, with_mode, with_size, inode_of, set_file_mode, ramfile_set_mode_abs,
  ramfile_get, ramfile_set_size, ramfile_find_abs, find_stripped, strip_leading_slashes,
  ramfile_find,
}
use mona_rpzero.Vfs.Invariant.{IsValid, Agrees, link_count, target_used}
use mona_rpzero.Vfs.Link.{found_file}

-- One inode has been given new attributes, its links unchanged.
pub record InodeSet (v : Vfs) (id : ℕ) (n : RamInode) (v' : Vfs) : Type 0 where
  pub now : get v'.inodes id ≡ n
  pub others : (j : ℕ) → j ≢ id → get v'.inodes j ≡ get v.inodes j
  pub same_dirs : v'.dirs ≡ v.dirs
  pub same_files : v'.files ≡ v.files
  pub valid : IsValid v'

put_inode :
    (v : Vfs) (id : ℕ) (n : RamInode)
    → IsValid v
    → id < 64
    → n.used ≡ true
    → n.nlink ≡ (get v.inodes id).nlink
    → (get v.inodes id).used ≡ true
    → n.size ≤ 4096
    → InodeSet v id n (record v { inodes = put v.inodes id n })
put_inode v id n valid lt used links was fits = record {
  now = get-put_self v.inodes id n;
  others = λ j ne. get-put_ne v.inodes id j n ne;
  same_dirs = refl;
  same_files = refl;
  valid = record {
    dirs = valid.dirs;
    files = valid.files;
    targets = valid.targets;
    inodes = λ j j_lt. elim (ℕ_discrete j id) [
      | yes e ↦
          subst (λ k. Agrees (get (put v.inodes id n) k) (link_count v.files k)) (sym e)
            (subst (λ m. Agrees m (link_count v.files id)) (sym (get-put_self v.inodes id n))
              (ground (arith, valid.inodes id lt)))
      | no ne ↦
          subst (λ m. Agrees m (link_count v.files j)) (sym (get-put_ne v.inodes id j n ne))
            (valid.inodes j j_lt)
    ];
  };
}

-- The inode of a used name.
inode_of_used :
    (v : Vfs) (i : ℕ)
    → IsValid v
    → i < 64
    → (get v.files i).used ≡ true
    → inode_of v i ≡ some (get v.files i).inode_id
inode_of_used v i valid lt used =
    simp
      (
        lt→leb_false 64 (get v.files i).inode_id (valid.targets i lt used),
        target_used v i valid lt used,
      )
      refl

-- `vfs_ramfile_set_size` on every branch of a valid overlay.
pub data SizeOutcome (v : Vfs) (i size : ℕ) : Vfs × Result (Unit {0}) → Type 0 where
  out_of_range : 64 ≤ i → SizeOutcome v i size (v, err Errno.einval)
  free_slot : i < 64 → (get v.files i).used ≡ false → SizeOutcome v i size (v, err Errno.enoent)
  too_large :
      i < 64
      → (get v.files i).used ≡ true
      → 4096 < size
      → SizeOutcome v i size (v, err Errno.einval)
  resized :
      (v' : Vfs)
      → size ≤ 4096
      → InodeSet v
          (get v.files i).inode_id
          (record (get v.inodes (get v.files i).inode_id) { size = size })
          v'
      → ramfile_get v' i
        ≡ ok (record (contents (get v.inodes (get v.files i).inode_id)) { size = size })
      → SizeOutcome v i size (v', ok tt)

-- What the name in slot `i` reads.
pub ramfile_get_used :
    (v : Vfs) (i : ℕ)
    → IsValid v
    → i < 64
    → (get v.files i).used ≡ true
    → ramfile_get v i ≡ ok (contents (get v.inodes (get v.files i).inode_id))
unfolding ramfile_get
ramfile_get_used v i valid lt used =
    simp
      (
        lt→leb_false 64 i lt,
        used,
        lt→leb_false 64 (get v.files i).inode_id (valid.targets i lt used),
        target_used v i valid lt used,
      )
      refl

resize :
    (v : Vfs) (i size : ℕ)
    → IsValid v
    → i < 64
    → (get v.files i).used ≡ true
    → size ≤ 4096
    → SizeOutcome v i size (
      record v {
        inodes =
            put v.inodes
              (get v.files i).inode_id
              (with_size (get v.inodes (get v.files i).inode_id) size);
      },
      ok tt,
    )
unfolding with_size
resize v i size valid lt used small =
    let alive = target_used v i valid lt used in
    let set =
      put_inode v (get v.files i).inode_id (with_size (get v.inodes (get v.files i).inode_id) size)
        valid (valid.targets i lt used) alive refl alive small in
    let v' = record v {
      inodes =
          put v.inodes (get v.files i).inode_id
            (with_size (get v.inodes (get v.files i).inode_id) size);
    } in
    resized v' small set
      (ramfile_get_used v' i set.valid lt used ∙ ap {A = RamInode} (λ m. ok (contents m)) set.now)

-- `vfs_ramfile_set_size` on a valid overlay: EINVAL for an identifier from 64 on, ENOENT for a free
-- slot, EINVAL for a size above the capacity of 4096, each with the overlay unchanged; else only the
-- inode's size changes, `vfs_ramfile_get` reads the new one, and the overlay stays valid.
pub ramfile_set_size_outcome :
    (v : Vfs) (i size : ℕ) → IsValid v → SizeOutcome v i size (ramfile_set_size v i size)
unfolding ramfile_set_size
ramfile_set_size_outcome v i size valid =
    if_cases P (leb 64 i) (λ e. out_of_range (leb→le 64 i e))
      (λ in_range.
        if_cases P (not (get v.files i).used)
          (λ e. free_slot (leb_false→lt 64 i in_range) (ground arith))
          (λ is_used.
            let lt = leb_false→lt 64 i in_range in
            let used : (get v.files i).used ≡ true = ground arith in
            if_cases P (ltb 4096 size) (λ e. too_large lt used (ltb→lt 4096 size e))
              (λ small.
                simp
                  (
                    lt→leb_false 64 (get v.files i).inode_id (valid.targets i lt used),
                    target_used v i valid lt used,
                  )
                  (resize v i size valid lt used (ltb_false→le 4096 size small)))))
  where
    P : Vfs × Result (Unit {0}) → Type 0
    P = SizeOutcome v i size

-- `vfs_ramfile_set_mode_abs` on every branch of a valid overlay.
pub data ModeOutcome (v : Vfs) (path : Option (List ℕ)) (mode : ℕ)
    : Vfs × Result (Unit {0}) → Type 0 where
  null : path ≡ none → ModeOutcome v path mode (v, err Errno.einval)
  missing :
      (p : List ℕ)
      → path ≡ some p
      → (strip_leading_slashes p ≡ []) ⊎ (ramfile_find v.files (strip_leading_slashes p) ≡ none)
      → ModeOutcome v path mode (v, err Errno.enoent)
  changed :
      (p : List ℕ) (i : ℕ) (v' : Vfs)
      → path ≡ some p
      → ramfile_find_abs v path ≡ ok i
      → InodeSet v
          (get v.files i).inode_id
          (record (get v.inodes (get v.files i).inode_id) { mode = mode })
          v'
      → ramfile_get v' i
        ≡ ok (record (contents (get v.inodes (get v.files i).inode_id)) { mode = mode })
      → ModeOutcome v path mode (v', ok tt)

find_stripped-hit :
    (v : Vfs) (q : List ℕ) (i : ℕ)
    → q ≢ []
    → ramfile_find v.files q ≡ some i
    → find_stripped v q ≡ ok i
unfolding find_stripped
find_stripped-hit v [] i named hit = absurd (named refl)
find_stripped-hit v (c ∷ cs) i named hit = rw (hit, find_stripped) refl

find_abs-hit :
    (v : Vfs) (p q : List ℕ) (i : ℕ)
    → strip_leading_slashes p ≡ q
    → q ≢ []
    → ramfile_find v.files q ≡ some i
    → ramfile_find_abs v (some p) ≡ ok i
unfolding ramfile_find_abs
find_abs-hit v p q i e named hit = ap (find_stripped v) e ∙ find_stripped-hit v q i named hit

remode :
    (v : Vfs) (p : List ℕ) (i mode : ℕ)
    → IsValid v
    → i < 64
    → (get v.files i).used ≡ true
    → ramfile_find_abs v (some p) ≡ ok i
    → ModeOutcome v (some p) mode (
      record v {
        inodes =
            put v.inodes
              (get v.files i).inode_id
              (with_mode (get v.inodes (get v.files i).inode_id) mode);
      },
      ok tt,
    )
unfolding with_mode
remode v p i mode valid lt used at =
    let alive = target_used v i valid lt used in
    let set =
      put_inode v (get v.files i).inode_id (with_mode (get v.inodes (get v.files i).inode_id) mode)
        valid (valid.targets i lt used) alive refl alive
        (valid.inodes (get v.files i).inode_id (valid.targets i lt used)).fits in
    let v' = record v {
      inodes =
          put v.inodes (get v.files i).inode_id
            (with_mode (get v.inodes (get v.files i).inode_id) mode);
    } in
    changed p i v' refl at set
      (ramfile_get_used v' i set.valid lt used ∙ ap {A = RamInode} (λ m. ok (contents m)) set.now)

stripped :
    (v : Vfs) (p q : List ℕ) (mode : ℕ)
    → IsValid v
    → strip_leading_slashes p ≡ q
    → ModeOutcome v (some p) mode (set_file_mode v q mode)
unfolding set_file_mode
stripped v p [] mode valid e = missing p refl (inl e)
stripped v p (c ∷ cs) mode valid e = elim (Option-cases (ramfile_find v.files (c ∷ cs))) [
  | inl miss ↦ rw (miss, set_file_mode) (missing p refl (inr (ap (ramfile_find v.files) e ∙ miss)))
  | inr (i, hit) ↦
      rw (hit, set_file_mode)
        (let (lt, used, id_lt, alive, named) = found_file v (c ∷ cs) i valid hit in
          simp (lt→leb_false 64 (get v.files i).inode_id id_lt, alive)
            (remode v p i mode valid lt used (find_abs-hit v p (c ∷ cs) i e (λ z. cc) hit)))
]

-- `vfs_ramfile_set_mode_abs` on a valid overlay: EINVAL for a null path, ENOENT for the root or a
-- missing file, each with the overlay unchanged; else only the mode of the file's inode changes,
-- `vfs_ramfile_get` reads the new one, and the overlay stays valid.
pub ramfile_set_mode_abs_outcome :
    (v : Vfs) (path : Option (List ℕ)) (mode : ℕ)
    → IsValid v
    → ModeOutcome v path mode (ramfile_set_mode_abs v path mode)
unfolding ramfile_set_mode_abs
ramfile_set_mode_abs_outcome v none mode valid = null refl
ramfile_set_mode_abs_outcome v (some p) mode valid =
    stripped v p (strip_leading_slashes p) mode valid refl
