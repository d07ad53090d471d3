-- ===== src/Vfs/Start.antt =====
-- `vfs_init`: the overlay starts empty.
use mona_rpzero.Prelude.{
  ℕ, ◌<◌, ◌≡◌, refl, ap, ◌∙◌, false, List, [], none, Table, get, for_below, get-for_below, lt→ltb,
  sum_below-zero, arith, first-eq-none,
}
use mona_rpzero.Vfs.{
  Vfs, RamDir, RamFile, RamInode, is_dir_at, is_file_at, init, ramdir_find, ramfile_find,
}
use mona_rpzero.Vfs.Invariant.{IsValid, names, link_count}

below_all :
    {A : Type 0} (f : A → A) (t : Table A) (i : ℕ) → i < 64 → get (for_below 64 f t) i ≡ f (get t i)
below_all f t i lt = get-for_below 64 f t i ∙ simp (lt→ltb i 64 lt) refl

-- Whatever the tables held.
pub record IsEmpty (v : Vfs) : Type 0 where
  pub valid : IsValid v
  pub no_dirs : (path : List ℕ) → ramdir_find v.dirs path ≡ none
  pub no_files : (path : List ℕ) → ramfile_find v.files path ≡ none
  pub all_free : (id : ℕ) → id < 64 → (get v.inodes id).used ≡ false

dir_off : (v : Vfs) (i : ℕ) → i < 64 → (get (init v).dirs i).used ≡ false
unfolding init
dir_off v i lt =
    ap {A = RamDir} (λ d. d.used)
      (below_all (λ _. record { used = false; mode = 0; path = [] }) v.dirs i lt)

file_off : (v : Vfs) (i : ℕ) → i < 64 → (get (init v).files i).used ≡ false
unfolding init
file_off v i lt =
    ap {A = RamFile} (λ d. d.used)
      (below_all (λ _. record { used = false; inode_id = 0; path = [] }) v.files i lt)

inode_off :
    (v : Vfs) (i : ℕ)
    → i < 64
    → ((get (init v).inodes i).used ≡ false) × ((get (init v).inodes i).size ≡ 0)
unfolding init
inode_off v i lt =
    let e =
      below_all
        (λ n. record {
          used = false;
          mode = 0;
          size = 0;
          nlink = 0;
          bytes = for_below 4096 (λ _. 0) n.bytes;
        })
        v.inodes i lt in
    (ap {A = RamInode} (λ d. d.used) e, ap {A = RamInode} (λ d. d.size) e)

no_links : (v : Vfs) (id : ℕ) → link_count (init v).files id ≡ 0
unfolding link_count
no_links v id =
    sum_below-zero (λ i. names id (get (init v).files i)) 64 (λ i lt. rw (file_off v i lt) refl)

init-IsValid : (v : Vfs) → IsValid (init v)
init-IsValid v = record {
  dirs = λ path i j i_lt j_lt a b. absurd (let h = dir_off v i i_lt in ground arith);
  files = λ path i j i_lt j_lt a b. absurd (let h = file_off v i i_lt in ground arith);
  inodes = λ id lt. ground (arith, inode_off v id lt, no_links v id);
  targets = λ i lt used. absurd (let h = file_off v i lt in ground arith);
}

-- `vfs_init`, whatever the tables held, leaves a valid overlay in which no path leads anywhere and
-- every inode is free.
pub init-IsEmpty : (v : Vfs) → IsEmpty (init v)
unfolding ramdir_find ramfile_find
init-IsEmpty v = record {
  valid = init-IsValid v;
  no_dirs = λ path.
      first-eq-none (λ i. is_dir_at path (get (init v).dirs i)) 0 64
        (λ j lo hi. let h = dir_off v j hi in ground arith);
  no_files = λ path.
      first-eq-none (λ i. is_file_at path (get (init v).files i)) 0 64
        (λ j lo hi. let h = file_off v j hi in ground arith);
  all_free = λ id lt. (inode_off v id lt).0;
}
