-- ===== src/Vfs/Invariant.antt =====
-- The invariant of the overlay: names are unique, and an inode's link count is the number of file
-- names that lead to it, so that an inode is free exactly if no name does.
use mona_rpzero.Prelude.{
  ℕ, zero, suc, ◌+◌, ◌≤◌, ◌<◌, ◌≡◌, ap, ◌∙◌, true, ◌&&◌, if◌then◌else◌, ◌==◌, Table, get, put,
  get-put, get-put_self, get-put_ne, arith, sum_below, sum_below_change, le-sum_below, lt→leb_false,
}
use mona_rpzero.Vfs.{
  Vfs, RamFile, RamInode, is_dir_at, is_file_at, unlinked, linked, raminode_decref, raminode_incref,
}
use mona_rpzero.Vfs.Names.{AreUnique}

-- One name of inode `id`.
abbrev pub names : ℕ → RamFile → ℕ
names id f = if f.used && f.inode_id == id then 1 else 0

-- The number of file names of inode `id`.
unfoldable pub link_count : Table RamFile → ℕ → ℕ
link_count t id = sum_below (λ i. names id (get t i)) 64

abbrev pub links_of : RamInode → ℕ
links_of n = if n.used then n.nlink else 0

-- An inode with its number of names: free without a name, else in use with so many links.
pub record Agrees (n : RamInode) (count : ℕ) : Type 0 where
  pub links : links_of n ≡ count
  pub alive : n.used ≡ true → 0 < n.nlink
  pub fits : n.size ≤ 4096

pub record IsValid (v : Vfs) : Type 0 where
  pub dirs : AreUnique is_dir_at 64 v.dirs
  pub files : AreUnique is_file_at 64 v.files
  pub inodes : (id : ℕ) → id < 64 → Agrees (get v.inodes id) (link_count v.files id)
  pub targets : (i : ℕ) → i < 64 → (get v.files i).used ≡ true → (get v.files i).inode_id < 64

-- The count of an inode after one slot is written.
pub link_count-put :
    (t : Table RamFile) (slot : ℕ) (e : RamFile) (id : ℕ)
    → slot < 64
    → link_count (put t slot e) id + names id (get t slot) ≡ link_count t id + names id e
unfolding link_count
link_count-put t slot e id lt =
    sum_below_change (λ i. names id (get (put t slot e) i)) (λ i. names id (get t i)) 64 slot lt
      (λ j ne. ap (names id) (get-put_ne t slot j e ne))
    ∙ ap (λ f. link_count t id + names id f) (get-put_self t slot e)

sum_names : (t : Table RamFile) (id n : ℕ) → sum_below (λ i. names id (get t i)) n ≤ n
unfolding sum_below
sum_names t id zero = omega arith
sum_names t id (suc n) = ground (arith, sum_names t id n)

pub link_count-le : (t : Table RamFile) (id : ℕ) → link_count t id ≤ 64
unfolding link_count
link_count-le t id = sum_names t id 64

-- A name keeps its inode's count above zero, and its inode in use.
pub link_count_pos :
    (t : Table RamFile) (i id : ℕ)
    → i < 64
    → (get t i).used ≡ true
    → (get t i).inode_id ≡ id
    → 0 < link_count t id
unfolding link_count
link_count_pos t i id lt used e = ground (arith, le-sum_below (λ k. names id (get t k)) 64 i lt)

pub target_used :
    (v : Vfs) (i : ℕ)
    → IsValid v
    → i < 64
    → (get v.files i).used ≡ true
    → (get v.inodes (get v.files i).inode_id).used ≡ true
target_used v i ok lt used = ground (
  arith,
  (ok.inodes (get v.files i).inode_id (ok.targets i lt used)).links,
  link_count_pos v.files i (get v.files i).inode_id lt used,
)

-- One link less, one link more.
pub unlinked-Agrees :
    (n : RamInode) (count : ℕ) → n.used ≡ true → Agrees n (count + 1) → Agrees (unlinked n) count
unfolding unlinked
unlinked-Agrees n count used a = ground arith

pub linked-Agrees :
    (n : RamInode) (count : ℕ)
    → n.used ≡ true
    → count < 64
    → Agrees n count
    → Agrees (linked n) (count + 1)
unfolding linked
linked-Agrees n count used small a = ground arith

pub get-decref :
    (t : Table RamInode) (id j : ℕ)
    → id < 64
    → (get t id).used ≡ true
    → get (raminode_decref t id) j ≡ (if j == id then unlinked (get t id) else get t j)
unfolding raminode_decref
get-decref t id j lt used =
    simp (lt→leb_false 64 id lt, used) (get-put t id j (unlinked (get t id)))

pub get-incref :
    (t : Table RamInode) (id j : ℕ)
    → id < 64
    → (get t id).used ≡ true
    → get (raminode_incref t id) j ≡ (if j == id then linked (get t id) else get t j)
unfolding raminode_incref
get-incref t id j lt used = simp (lt→leb_false 64 id lt, used) (get-put t id j (linked (get t id)))
