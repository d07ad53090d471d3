-- ===== src/Vfs/Rename.antt =====
-- A hard link followed by the removal of the old name: the file moves and nothing else changes.
use mona_rpzero.Prelude.{
  ℕ, ◌+◌, ◌-◌, ◌<◌, ◌≡◌, refl, sym, ap, ◌∙◌, ◌≢◌, inl, inr, false, List, [], none, some, Bool-cases,
  Option-cases, Table, get, arith, ℕ_discrete, Result, ok, subst,
}
use mona_rpzero.Vfs.{Vfs, RamFile, RamInode, cstr_eq, ramfile_unlink, ramfile_link, ramfile_find}
use mona_rpzero.Vfs.Names.{cstr_eq→eq, cstr_eq_self}
use mona_rpzero.Vfs.Invariant.{IsValid}
use mona_rpzero.Vfs.Create.{number_at, inode_at}
use mona_rpzero.Vfs.Link.{
  found_file, LinkOutcome, LinkMade, ramfile_link_outcome, made, present, no_slot, too_long,
}
use mona_rpzero.Vfs.Unlink.{
  UnlinkOutcome, NameDropped, LinkDropped, ramfile_unlink_outcome, dropped, last, not_last, no_name,
  no_file,
}

-- What a successful link tells.
link_success :
    (v : Vfs) (old new : List ℕ) (r : Vfs × Result (Unit {0}))
    → LinkOutcome v old new r
    → r.1 ≡ ok tt
    → (id : ℕ) × (inode_at v.files old ≡ some id)
      × (ramfile_find v.files new ≡ none)
      × LinkMade v new id r.0
      × IsValid r.0
link_success v old new r (LinkOutcome.no_name h) e = absurd cc
link_success v old new r (LinkOutcome.no_file h) e = absurd cc
link_success v old new r (present h) e = absurd cc
link_success v old new r (no_slot h) e = absurd cc
link_success v old new r (too_long h) e = absurd cc
link_success v old new r (made id v' at absent no_dir short m valid) e = (id, at, absent, m, valid)

-- The file has moved from `old` to `new`.
pub record Moved (v : Vfs) (old new : List ℕ) (v' : Vfs) : Type 0 where
  pub gone : inode_at v'.files old ≡ none
  pub there : inode_at v'.files new ≡ inode_at v.files old
  pub elsewhere :
      (q : List ℕ)
      → cstr_eq old q ≡ false
      → cstr_eq new q ≡ false
      → inode_at v'.files q ≡ inode_at v.files q
  pub same_dirs : v'.dirs ≡ v.dirs
  pub same_inodes : (j : ℕ) → get v'.inodes j ≡ get v.inodes j

-- The inode of a name has a link.
has_link :
    (v : Vfs) (path : List ℕ) (id : ℕ)
    → IsValid v
    → inode_at v.files path ≡ some id
    → 0 < (get v.inodes id).nlink
unfolding inode_at number_at
has_link v path id valid e = elim (Option-cases (ramfile_find v.files path)) [
  | inl miss ↦ absurd (let h = ap (number_at v.files) miss in cc)
  | inr (i, hit) ↦
      let (lt, used, id_lt, alive, named) = found_file v path i valid hit in
      let h = ap (number_at v.files) hit in
      let same : (get v.files i).inode_id ≡ id = (let both = sym h ∙ e in cc) in
      subst (λ k. 0 < (get v.inodes k).nlink) same
        ((valid.inodes (get v.files i).inode_id id_lt).alive alive)
]

restored :
    (n n1 n2 : RamInode)
    → 0 < n.nlink
    → n1 ≡ record n { nlink = n.nlink + 1 }
    → LinkDropped n1 n2
    → n2 ≡ n
restored n n1 n2 pos e (last one h1 h2 h3) =
    absurd (omega (arith, pos, ap {A = RamInode} (λ m. m.nlink) e, one))
restored n n1 n2 pos e (not_last more e') =
    e'
    ∙ ap {A = RamInode} (λ m. record m { nlink = m.nlink - 1 }) e
    ∙ ap {A = ℕ} (λ l. record n { nlink = l }) (omega arith)

no_inode : (t : Table RamFile) (p : List ℕ) → ramfile_find t p ≡ none → inode_at t p ≡ none
unfolding inode_at number_at
no_inode t p e = rw e refl

-- A path that leads somewhere and a path that leads nowhere differ.
apart :
    (t : Table RamFile) (p q : List ℕ) (id : ℕ)
    → inode_at t p ≡ some id
    → inode_at t q ≡ none
    → (cstr_eq p q ≡ false) × (cstr_eq q p ≡ false)
apart t p q id at miss = (differ p q (λ e. clash e), differ q p (λ e. clash (sym e)))
  where
    clash : p ≡ q → ⊥
    clash e = let h = ap (inode_at t) e in cc

    differ : (a b : List ℕ) → a ≢ b → cstr_eq a b ≡ false
    differ a b ne = elim (Bool-cases (cstr_eq a b)) [
      | inl e ↦ absurd (ne (cstr_eq→eq a b e))
      | inr e ↦ e
    ]

-- The old name in between.
between :
    (v v1 : Vfs) (old new : List ℕ) (id : ℕ)
    → inode_at v.files old ≡ some id
    → ramfile_find v.files new ≡ none
    → LinkMade v new id v1
    → inode_at v1.files old ≡ some id
between v v1 old new id at absent m =
    m.leads old ∙ simp ((apart v.files old new id at (no_inode v.files new absent)).1) at

moved :
    (v v1 v2 : Vfs) (old new : List ℕ) (id : ℕ)
    → IsValid v
    → inode_at v.files old ≡ some id
    → ramfile_find v.files new ≡ none
    → LinkMade v new id v1
    → NameDropped v1 old id v2
    → Moved v old new v2
moved v v1 v2 old new id valid at absent m d = record {
  gone = d.leads old ∙ simp (cstr_eq_self old) refl;
  there = d.leads new ∙ simp (differ.0) (m.leads new ∙ simp (cstr_eq_self new) (sym at));
  elsewhere = λ q not_old not_new. d.leads q ∙ simp not_old (m.leads q ∙ simp not_new refl);
  same_dirs = d.same_dirs ∙ m.same_dirs;
  same_inodes = λ j. elim (ℕ_discrete j id) [
    | yes e ↦
        subst (λ k. get v2.inodes k ≡ get v.inodes k) (sym e)
          (restored (get v.inodes id) (get v1.inodes id) (get v2.inodes id)
            (has_link v old id valid at) m.one_more d.one_less)
    | no ne ↦ d.others j ne ∙ m.others j ne
  ];
}
  where
    differ : (cstr_eq old new ≡ false) × (cstr_eq new old ≡ false)
    differ = apart v.files old new id at (no_inode v.files new absent)

finish :
    (v v1 : Vfs) (old new : List ℕ) (id : ℕ) (r : Vfs × Result (Unit {0}))
    → IsValid v
    → old ≢ []
    → inode_at v.files old ≡ some id
    → ramfile_find v.files new ≡ none
    → LinkMade v new id v1
    → UnlinkOutcome v1 old r
    → (r.1 ≡ ok tt) × Moved v old new r.0
finish v v1 old new id r valid named at absent m (no_name h) = absurd (named h)
finish v v1 old new id r valid named at absent m (no_file h) =
    absurd (let a = between v v1 old new id at absent m in let b = no_inode v1.files old h in cc)
finish v v1 old new id r valid named at absent m (dropped id' v2 at' d valid2) =
    let a = between v v1 old new id at absent m in
    let same : id' ≡ id = cc in
    (refl, moved v v1 v2 old new id valid at absent m (subst (λ k. NameDropped v1 old k v2) same d))

-- On a valid overlay and a path that is not empty: after a successful `vfs_ramfile_link` the removal
-- of the old name succeeds, and the file has moved. The old name leads nowhere, the new one where the
-- old one did, every other path and every inode is as before.
pub unlink_after_link :
    (v : Vfs) (old new : List ℕ)
    → IsValid v
    → old ≢ []
    → (ramfile_link v old new).1 ≡ ok tt
    → ((ramfile_unlink (ramfile_link v old new).0 old).1 ≡ ok tt)
      × Moved v old new (ramfile_unlink (ramfile_link v old new).0 old).0
unlink_after_link v old new valid named done =
    let (id, at, absent, m, valid1) =
      link_success v old new (ramfile_link v old new) (ramfile_link_outcome v old new valid) done in
    let v1 = (ramfile_link v old new).0 in
    finish v v1 old new id (ramfile_unlink v1 old) valid named at absent m
      (ramfile_unlink_outcome v1 old valid1)
