-- ===== src/Fd/Keep.antt =====
-- The descriptors of a process against the references of the descriptions: what the functions of
-- fd.c keep.
use mona_rpzero.Prelude.{
  ℕ, zero, suc, ◌+◌, ◌≤◌, ◌<◌, ◌≡◌, refl, sym, ap, ◌∙◌, ◌≢◌, inl, inr, Bool, true, false, Option,
  none, some, Option-cases, Table, get, put, get-put_self, get-put_ne, put-get, if◌then◌else◌, ◌==◌,
  arith, sum_below, sum_below_change, le-sum_below, sum_below-zero, lt→leb_false, subst, ==_self,
  ==_ne, ℕ_discrete, first, IsFirst, first-IsFirst, first-none,
}
use mona_rpzero.Fd.{
  Open, Desc, FdTable, put_desc, with_refs, less_one, desc_incref, desc_decref, unused, desc_alloc,
  fd_close, fd_alloc_into, is_none,
}
use mona_rpzero.Fd.Counts.{Key}
use mona_rpzero.Fd.Shared.{
  IsShared, Few, weight, desc_incref-IsShared, desc_decref-IsShared, descs-desc_incref,
  descs-desc_decref, step-IsShared, counter-put_desc, in_use-put_desc,
}

-- A descriptor leads to description `d`.
abbrev pub points : Option ℕ → ℕ → Bool
points none d = false
points (some e) d = e == d

abbrev point : Option ℕ → ℕ → ℕ
point e d = if points e d then 1 else 0

unfoldable pub fds_to : FdTable → ℕ → ℕ
fds_to t d = sum_below (λ fd. point (get t fd) d) 32

-- A description has as many references as descriptors of this process lead to it, and `extra` others:
-- those of the other processes, and one that a call under way holds.
pub record IsCounted (o : Open) (t : FdTable) (extra : ℕ → ℕ) : Type 0 where
  pub shared : IsShared o
  pub refs : (d : ℕ) → d < 64 → (get o.descs d).refs ≡ fds_to t d + extra d
  pub targets : (fd d : ℕ) → fd < 32 → get t fd ≡ some d → d < 64
  pub bounded : (d : ℕ) → extra d ≤ 530

abbrev pub one_at : ℕ → ℕ → ℕ
one_at i j = if j == i then 1 else 0

pub one_at-le : (i j : ℕ) → one_at i j ≤ 1
one_at-le i j = ground arith

fds_to-put :
    (t : FdTable) (fd d : ℕ) (e : Option ℕ)
    → fd < 32
    → fds_to (put t fd e) d + point (get t fd) d ≡ fds_to t d + point e d
unfolding fds_to
fds_to-put t fd d e lt =
    sum_below_change (λ i. point (get (put t fd e) i) d) (λ i. point (get t i) d) 32 fd lt
      (λ i ne. ap (λ x. point x d) (get-put_ne t fd i e ne))
    ∙ ap (λ x. fds_to t d + point x d) (get-put_self t fd e)

points_le : (e : Option ℕ) (d : ℕ) → point e d ≤ 1
points_le none d = omega arith
points_le (some e) d = ground arith

sum_points : (t : FdTable) (d n : ℕ) → sum_below (λ fd. point (get t fd) d) n ≤ n
unfolding sum_below
sum_points t d zero = omega arith
sum_points t d (suc n) = omega (arith, sum_points t d n, points_le (get t n) d)

pub fds_to-le : (t : FdTable) (d : ℕ) → fds_to t d ≤ 32
unfolding fds_to
fds_to-le t d = sum_points t d 32

pub fds_to-none : (t : FdTable) (d : ℕ) → ((fd : ℕ) → fd < 32 → get t fd ≡ none) → fds_to t d ≡ 0
unfolding fds_to
fds_to-none t d h =
    sum_below-zero (λ fd. point (get t fd) d) 32 (λ fd lt. ap (λ e. point e d) (h fd lt))

point_self : (d : ℕ) → point (some d) d ≡ 1
point_self d = ground arith

pub fds_to-pos : (t : FdTable) (fd d : ℕ) → fd < 32 → get t fd ≡ some d → 0 < fds_to t d
unfolding fds_to
fds_to-pos t fd d lt e =
    omega
      (arith, le-sum_below (λ i. point (get t i) d) 32 fd lt, ap (λ x. point x d) e, point_self d)

pub refs_by_one :
    (a b : Desc) (i j : ℕ) (t : Table Desc)
    → get t i ≡ a
    → b.refs ≡ a.refs + 1
    → (get (put t i b) j).refs ≡ (get t j).refs + one_at i j
refs_by_one a b i j t at more = elim (ℕ_discrete j i) [
  | yes e ↦ rw (e, get-put_self t i b, ==_self i) (omega (arith, ap Desc.refs at))
  | no ne ↦ rw (get-put_ne t i j b ne, ==_ne j i ne) (omega arith)
]

pub refs_less_one :
    (a b : Desc) (i j : ℕ) (t : Table Desc)
    → get t i ≡ a
    → b.refs + 1 ≡ a.refs
    → (get (put t i b) j).refs + one_at i j ≡ (get t j).refs
refs_less_one a b i j t at less = elim (ℕ_discrete j i) [
  | yes e ↦ rw (e, get-put_self t i b, ==_self i) (omega (arith, ap Desc.refs at))
  | no ne ↦ rw (get-put_ne t i j b ne, ==_ne j i ne) (omega arith)
]

less_one_refs : (d : Desc) → 0 < d.refs → d.refs ≤ 600 → (less_one d).refs + 1 ≡ d.refs
less_one_refs d pos small = ground arith

module _ (o : Open) (t : FdTable) (extra : ℕ → ℕ) (counted : IsCounted o t extra) where
  pub few : Few o
  few i lt = omega (arith, counted.refs i lt, fds_to-le t i, counted.bounded i)

  pub target_refs : (fd d : ℕ) → fd < 32 → get t fd ≡ some d → 0 < (get o.descs d).refs
  target_refs fd d lt e =
      omega (arith, counted.refs d (counted.targets fd d lt e), fds_to-pos t fd d lt e)

  -- One reference more on `d`, in the hands of `t'` or of `extra'`.
  module _ (d : ℕ) (lt : d < 64) (pos : 0 < (get o.descs d).refs) (t' : FdTable) (extra' : ℕ → ℕ)
      (targets : (fd e : ℕ) → fd < 32 → get t' fd ≡ some e → e < 64)
      (bounded : (e : ℕ) → extra' e ≤ 530) where
    refs_more : (j : ℕ) → (get (desc_incref o d).descs j).refs ≡ (get o.descs j).refs + one_at d j
    refs_more j =
        ap {A = Table Desc} (λ s. (get s j).refs) (descs-desc_incref o d lt counted.shared few pos)
        ∙ refs_by_one (get o.descs d) (with_refs ((get o.descs d).refs + 1) (get o.descs d)) d j
            o.descs refl refl

    refs_fewer : (j : ℕ) → (get (desc_decref o d).descs j).refs + one_at d j ≡ (get o.descs j).refs
    refs_fewer j =
        ap {A = Table Desc} (λ s. (get s j).refs + one_at d j)
          (descs-desc_decref o d lt counted.shared few pos)
        ∙ refs_less_one (get o.descs d) (less_one (get o.descs d)) d j o.descs refl
            (less_one_refs (get o.descs d) pos (few d lt))

    pub incref-IsCounted :
        ((j : ℕ) → fds_to t' j + extra' j ≡ fds_to t j + extra j + one_at d j)
        → IsCounted (desc_incref o d) t' extra'
    incref-IsCounted moves = record {
      shared = desc_incref-IsShared o d lt counted.shared few pos;
      refs = λ j near. omega (arith, refs_more j, counted.refs j near, moves j);
      targets = targets;
      bounded = bounded;
    }

    pub decref-IsCounted :
        ((j : ℕ) → fds_to t' j + extra' j + one_at d j ≡ fds_to t j + extra j)
        → IsCounted (desc_decref o d) t' extra'
    decref-IsCounted moves = record {
      shared = desc_decref-IsShared o d lt counted.shared few pos;
      refs = λ j near. omega (arith, refs_fewer j, counted.refs j near, moves j);
      targets = targets;
      bounded = bounded;
    }

put_targets :
    (t : FdTable) (fd : ℕ) (e : Option ℕ)
    → ((i d : ℕ) → i < 32 → get t i ≡ some d → d < 64)
    → ((d : ℕ) → e ≡ some d → d < 64)
    → (i d : ℕ) → i < 32
    → get (put t fd e) i ≡ some d
    → d < 64
put_targets t fd e old new i d lt at = elim (ℕ_discrete i fd) [
  | yes same ↦ new d (sym (get-put_self t fd e) ∙ subst (λ k. get (put t fd e) k ≡ some d) same at)
  | no ne ↦ old i d lt (sym (get-put_ne t fd i e ne) ∙ at)
]

some_lt : (a b : ℕ) → a < 64 → some a ≡ some b → b < 64
some_lt a b lt e = subst (λ k. k < 64) (elim_some e) lt
  where
    elim_some : some a ≡ some b → a ≡ b
    elim_some e = cc

module _ (o : Open) (t : FdTable) (extra : ℕ → ℕ) (counted : IsCounted o t extra) where
  -- A free descriptor is made to lead to `d`.
  pub open-IsCounted :
      (fd d : ℕ)
      → fd < 32
      → d < 64
      → 0 < (get o.descs d).refs
      → get t fd ≡ none
      → IsCounted (desc_incref o d) (put t fd (some d)) extra
  open-IsCounted fd d fd_lt lt pos free =
      incref-IsCounted o t extra counted d lt pos (put t fd (some d)) extra
        (put_targets t fd (some d) counted.targets (λ e h. some_lt d e lt h)) counted.bounded
        (λ j. omega (arith, fds_to-put t fd j (some d) fd_lt, ap (λ x. point x j) free, swap j))
    where
      swap : (j : ℕ) → point (some d) j ≡ one_at d j
      swap j = ground arith

  close-IsCounted :
      (fd d : ℕ) → fd < 32 → get t fd ≡ some d → IsCounted (desc_decref o d) (put t fd none) extra
  close-IsCounted fd d fd_lt at =
      decref-IsCounted o t extra counted d (counted.targets fd d fd_lt at)
        (target_refs o t extra counted fd d fd_lt at) (put t fd none) extra
        (put_targets t fd none counted.targets (λ e h. absurd cc)) counted.bounded
        (λ j. omega (arith, fds_to-put t fd j none fd_lt, ap (λ x. point x j) at, swap j))
    where
      swap : (j : ℕ) → point (some d) j ≡ one_at d j
      swap j = ground arith

  -- `fd_close`: the descriptor is free afterwards, and all others are as before.
  pub fd_close-IsCounted :
      (fd : ℕ)
      → fd < 32
      → let (o', t') = fd_close o t fd in IsCounted o' t' extra × (t' ≡ put t fd none)
  unfolding fd_close
  fd_close-IsCounted fd lt = elim (Option-cases (get t fd)) [
    | inl e ↦ rw (e, fd_close) (counted, sym (put-get t fd none e))
    | inr (d, e) ↦ rw (e, fd_close, lt→leb_false 32 fd lt) (close-IsCounted fd d lt e, refl)
  ]

-- `desc_alloc`: the lowest description without references gets one, which the caller holds; without
-- such a description nothing changes.
pub data AllocOutcome (o : Open) (t : FdTable) (extra : ℕ → ℕ) : Open × Option ℕ → Type 0 where
  full : ((d : ℕ) → d < 64 → 0 < (get o.descs d).refs) → AllocOutcome o t extra (o, none)
  allocated :
      (d : ℕ)
      → d < 64
      → (get o.descs d).refs ≡ 0
      → ((e : ℕ) → e < d → 0 < (get o.descs e).refs)
      → IsCounted (put_desc o d (record { kind = unused; refs = 1 })) t (λ j. extra j + one_at d j)
      → AllocOutcome o t extra (put_desc o d (record { kind = unused; refs = 1 }), some d)

pub weight_unused : (n : ℕ) (key : Key) → weight (record { kind = unused; refs = n }) key ≡ 0
weight_unused n key = refl

pub weight_zero : (d : Desc) (key : Key) → d.refs ≡ 0 → weight d key ≡ 0
weight_zero d key e = ground arith

-- A description that leads nowhere may be given another that leads nowhere.
pub blank-IsShared :
    (o : Open) (i n : ℕ)
    → i < 64
    → IsShared o
    → ((key : Key) → weight (get o.descs i) key ≡ 0)
    → IsShared (put_desc o i (record { kind = unused; refs = n }))
blank-IsShared o i n lt shared nowhere =
    let d : Desc = record { kind = unused; refs = n } in
    step-IsShared o (put_desc o i d) i d lt refl shared
      (λ key near. omega (arith, counter-put_desc o i d key, nowhere key, weight_unused n key))
      (λ key near pos.
        in_use-put_desc o i d key
        ∙ shared.alive key near (omega (arith, counter-put_desc o i d key)))

alloc-IsCounted :
    (o : Open) (t : FdTable) (extra : ℕ → ℕ) (i : ℕ)
    → IsCounted o t extra
    → ((j : ℕ) → extra j ≤ 529)
    → i < 64
    → (get o.descs i).refs ≡ 0
    → IsCounted (put_desc o i (record { kind = unused; refs = 1 })) t (λ j. extra j + one_at i j)
alloc-IsCounted o t extra i counted room lt free = record {
  shared = blank-IsShared o i 1 lt counted.shared (λ key. weight_zero (get o.descs i) key free);
  refs = λ j near. omega (
    arith,
    refs_by_one (get o.descs i) (record { kind = unused; refs = 1 }) i j o.descs refl (omega arith),
    counted.refs j near,
  );
  targets = counted.targets;
  bounded = λ j. omega (arith, room j, at_most i j);
}
  where
    at_most : (i j : ℕ) → one_at i j ≤ 1
    at_most i j = ground arith

pub desc_alloc-AllocOutcome :
    (o : Open) (t : FdTable) (extra : ℕ → ℕ)
    → IsCounted o t extra
    → ((j : ℕ) → extra j ≤ 529)
    → AllocOutcome o t extra (desc_alloc o)
unfolding desc_alloc
desc_alloc-AllocOutcome o t extra counted room =
    elim (Option-cases (first (λ i. (get o.descs i).refs == 0) 0 64)) [
      | inl e ↦
          rw (e, desc_alloc)
            (full (λ d lt.
              nonzero (get o.descs d).refs
                (first-none (λ i. (get o.descs i).refs == 0) 0 64 e d (omega arith) (omega arith))))
      | inr (d, e) ↦
          let f : IsFirst (λ i. (get o.descs i).refs == 0) 0 64 d = first-IsFirst _ 0 64 e in
          let lt : d < 64 = omega (arith, f.below) in
          let free : (get o.descs d).refs ≡ 0 = zero_at (get o.descs d).refs f.passes in
          rw (e, desc_alloc)
            (allocated d lt free
              (λ i below. nonzero (get o.descs i).refs (f.skipped i (omega arith) below))
              (alloc-IsCounted o t extra d counted room lt free))
    ]
  where
    nonzero : (n : ℕ) → (n == 0) ≡ false → 0 < n
    nonzero n h = ground arith

    zero_at : (n : ℕ) → (n == 0) ≡ true → n ≡ 0
    zero_at n h = ground arith

-- `fd_alloc_into` from descriptor 0 on: the lowest free descriptor leads to the description; without
-- one nothing changes.
pub data InstallOutcome (o : Open) (t : FdTable) (extra : ℕ → ℕ) (d : ℕ)
    : (Open × FdTable) × Option ℕ → Type 0 where
  all_used : ((fd : ℕ) → fd < 32 → get t fd ≢ none) → InstallOutcome o t extra d ((o, t), none)
  installed :
      (fd : ℕ)
      → fd < 32
      → get t fd ≡ none
      → ((i : ℕ) → i < fd → get t i ≢ none)
      → IsCounted (desc_incref o d) (put t fd (some d)) extra
      → InstallOutcome o t extra d ((desc_incref o d, put t fd (some d)), some fd)

pub fd_alloc_into-InstallOutcome :
    (o : Open) (t : FdTable) (extra : ℕ → ℕ) (d : ℕ)
    → IsCounted o t extra
    → d < 64
    → 0 < (get o.descs d).refs
    → InstallOutcome o t extra d (fd_alloc_into o t 0 d)
unfolding fd_alloc_into
fd_alloc_into-InstallOutcome o t extra d counted lt pos =
    elim (Option-cases (first (λ fd. is_none (get t fd)) 0 32)) [
      | inl e ↦
          rw (e, fd_alloc_into)
            (all_used (λ fd near.
              taken (get t fd)
                (first-none (λ i. is_none (get t i)) 0 32 e fd (omega arith) (omega arith))))
      | inr (fd, e) ↦
          let f : IsFirst (λ i. is_none (get t i)) 0 32 fd = first-IsFirst _ 0 32 e in
          let near : fd < 32 = omega (arith, f.below) in
          let is_free : get t fd ≡ none = free (get t fd) f.passes in
          rw (e, fd_alloc_into)
            (installed fd near is_free
              (λ i below. taken (get t i) (f.skipped i (omega arith) below))
              (open-IsCounted o t extra counted fd d near lt pos is_free))
    ]
  where
    taken : (x : Option ℕ) → is_none x ≡ false → x ≢ none
    taken none h e = absurd cc
    taken (some a) h e = absurd cc

    free : (x : Option ℕ) → is_none x ≡ true → x ≡ none
    free none h = refl
    free (some a) h = absurd cc
