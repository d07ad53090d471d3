-- ===== src/Calls/Close.antt =====
-- `sys_close`, `sys_dup3` and `proc_close_all_fds` on every branch.
use mona_rpzero.Prelude.{
  ℕ, zero, suc, ◌+◌, ◌≤◌, ◌<◌, ◌≡◌, refl, sym, ap, ◌∙◌, ◌≢◌, ◌⊎◌, inl, inr, not, ◌||◌, none, some,
  Option-cases, get, put, get-put_self, get-put_ne, put-put, if_cases, ◌==◌, leb, arith,
  lt→leb_false, leb→le, leb_false→lt, le→leb, subst, ==_ne, Bool-cases, ℕ_discrete, Result, ok, err,
}
use mona_rpzero.Prelude.Errno
use mona_rpzero.Fd.{
  Open, FdTable, fd_get_desc_idx, fd_close, desc_incref, close_from, proc_close_all_fds,
}
use mona_rpzero.Fd.Keep.{IsCounted, target_refs, fd_close-IsCounted, open-IsCounted, fds_to-none}
use mona_rpzero.Calls.{sys_close, sys_dup3, dup_onto}

-- A descriptor of the table that leads nowhere, or none of the table.
abbrev pub IsBad : FdTable → ℕ → Type 0
IsBad t fd = (32 ≤ fd) ⊎ (get t fd ≡ none)

module _ (o : Open) (t : FdTable) (extra : ℕ → ℕ) where
  -- What `sys_close` gives.
  pub data CloseOutcome (fd : ℕ) : (Open × FdTable) × Result (Unit {0}) → Type 0 where
    bad : IsBad t fd → CloseOutcome fd ((o, t), err Errno.ebadf)
    closed :
        (o' : Open) (d : ℕ)
        → fd < 32
        → get t fd ≡ some d
        → IsCounted o' (put t fd none) extra
        → CloseOutcome fd ((o', put t fd none), ok tt)

  -- What `sys_dup3` gives.
  pub data DupOutcome (oldfd newfd flags : ℕ) : (Open × FdTable) × Result ℕ → Type 0 where
    bad_flags : flags ≢ 0 → DupOutcome oldfd newfd flags ((o, t), err Errno.einval)
    bad : IsBad t oldfd ⊎ (32 ≤ newfd) → DupOutcome oldfd newfd flags ((o, t), err Errno.ebadf)
    unmoved :
        (d : ℕ)
        → oldfd ≡ newfd
        → get t oldfd ≡ some d
        → DupOutcome oldfd newfd flags ((o, t), ok newfd)
    moved :
        (o' : Open) (d : ℕ)
        → oldfd ≢ newfd
        → get t oldfd ≡ some d
        → IsCounted o' (put t newfd (some d)) extra
        → DupOutcome oldfd newfd flags ((o', put t newfd (some d)), ok newfd)

module _ (o : Open) (t : FdTable) (extra : ℕ → ℕ) (counted : IsCounted o t extra) where
  -- `fd_get_desc_idx` reads the table: whatever a descriptor leads to is open.
  pub fd_get_desc_idx-some :
      (fd d : ℕ) → fd < 32 → get t fd ≡ some d → fd_get_desc_idx o t fd ≡ some d
  unfolding fd_get_desc_idx
  fd_get_desc_idx-some fd d lt e =
      rw
        (
          e,
          fd_get_desc_idx,
          lt→leb_false 32 fd lt,
          lt→leb_false 64 d (counted.targets fd d lt e),
          ==_ne (get o.descs d).refs 0
              (λ z. absurd (omega (arith, target_refs o t extra counted fd d lt e))),
        )
        refl

  fd_get_desc_idx-none : (fd : ℕ) → IsBad t fd → fd_get_desc_idx o t fd ≡ none
  unfolding fd_get_desc_idx
  fd_get_desc_idx-none fd (inr e) = rw (e, fd_get_desc_idx) refl
  fd_get_desc_idx-none fd (inl far) = elim (Option-cases (get t fd)) [
    | inl e ↦ rw (e, fd_get_desc_idx) refl
    | inr (d, e) ↦ rw (e, fd_get_desc_idx, le→leb 32 fd far) refl
  ]

  where_it_leads : (fd : ℕ) → IsBad t fd ⊎ ((fd < 32) × (d : ℕ) × (get t fd ≡ some d))
  where_it_leads fd = elim (Bool-cases (leb 32 fd)) [
    | inl far ↦ inl (inl (leb→le 32 fd far))
    | inr near ↦ elim (Option-cases (get t fd)) [
      | inl e ↦ inl (inr e)
      | inr (d, e) ↦ inr (leb_false→lt 32 fd near, d, e)
    ]
  ]

  closes :
      (fd d : ℕ) (r : Open × FdTable)
      → fd < 32
      → get t fd ≡ some d
      → IsCounted r.0 r.1 extra × (r.1 ≡ put t fd none)
      → CloseOutcome o t extra fd (r, ok tt)
  closes fd d (o', t') lt e (c, same) =
      subst (λ s. CloseOutcome o t extra fd ((o', s), ok tt)) (sym same)
        (closed o' d lt e (subst (λ s. IsCounted o' s extra) same c))

  -- `sys_close` where the references are counted: of a descriptor that leads nowhere it gives EBADF
  -- and changes nothing; else exactly that descriptor is freed and the references are counted again.
  pub sys_close-CloseOutcome : (fd : ℕ) → CloseOutcome o t extra fd (sys_close o t fd)
  unfolding sys_close
  sys_close-CloseOutcome fd = elim (where_it_leads fd) [
    | inl h ↦
        if_cases (CloseOutcome o t extra fd) (leb 32 fd) (λ _. bad h)
          (λ _. rw (fd_get_desc_idx-none fd h) (bad h))
    | inr (lt, d, e) ↦
        rw (lt→leb_false 32 fd lt, fd_get_desc_idx-some fd d lt e)
          (closes fd d (fd_close o t fd) lt e (fd_close-IsCounted o t extra counted fd lt))
  ]

  dup_onto_lem :
      (oldfd newfd d : ℕ)
      → oldfd < 32
      → newfd < 32
      → oldfd ≢ newfd
      → get t oldfd ≡ some d
      → (r : Open × FdTable) → IsCounted r.0 r.1 extra × (r.1 ≡ put t newfd none)
      → IsCounted (desc_incref r.0 d) (put r.1 newfd (some d)) extra
        × (put r.1 newfd (some d) ≡ put t newfd (some d))
  dup_onto_lem oldfd newfd d old_lt new_lt ne e (o', t') (c, same) =
      let still : get t' oldfd ≡ some d =
        ap (λ s. get s oldfd) same ∙ get-put_ne t newfd oldfd none ne ∙ e in
      (
        open-IsCounted o' t' extra c newfd d new_lt (c.targets oldfd d old_lt still)
            (target_refs o' t' extra c oldfd d old_lt still)
            (ap (λ s. get s newfd) same ∙ get-put_self t newfd none),
        ap (λ s. put s newfd (some d)) same ∙ put-put t newfd none (some d),
      )

  dups :
      (oldfd newfd flags d : ℕ)
      → oldfd ≢ newfd
      → get t oldfd ≡ some d
      → (r : Open × FdTable) → IsCounted r.0 r.1 extra × (r.1 ≡ put t newfd (some d))
      → DupOutcome o t extra oldfd newfd flags (r, ok newfd)
  dups oldfd newfd flags d ne e (o', t') (c, same) =
      subst (λ s. DupOutcome o t extra oldfd newfd flags ((o', s), ok newfd)) (sym same)
        (moved o' d ne e (subst (λ s. IsCounted o' s extra) same c))

  pub sys_dup3-DupOutcome :
      (oldfd newfd flags : ℕ)
      → DupOutcome o t extra oldfd newfd flags (sys_dup3 o t oldfd newfd flags)
  unfolding sys_dup3 dup_onto
  sys_dup3-DupOutcome oldfd newfd flags =
      if_cases (DupOutcome o t extra oldfd newfd flags) (not (flags == 0))
        (λ h. bad_flags (ground arith))
        (λ _.
          if_cases (DupOutcome o t extra oldfd newfd flags) (leb 32 oldfd || leb 32 newfd)
            (λ h. bad (ground arith))
            (λ h. elim (where_it_leads oldfd) [
              | inl b ↦ rw (fd_get_desc_idx-none oldfd b) (bad (inl b))
              | inr (lt, d, e) ↦ rw (fd_get_desc_idx-some oldfd d lt e) (
                  if_cases (DupOutcome o t extra oldfd newfd flags) (oldfd == newfd)
                    (λ eq. unmoved d (ground arith) e)
                    (λ ne.
                      let new_lt : newfd < 32 = ground arith in
                      dups oldfd newfd flags d (ground arith) e (dup_onto o t d newfd) (
                        dup_onto_lem oldfd newfd d lt new_lt (ground arith) e (fd_close o t newfd)
                          (fd_close-IsCounted o t extra counted newfd new_lt))))
            ]))

-- The loop of `proc_close_all_fds` frees the descriptors from `fd` on and keeps the count.
closed_from :
    (n fd : ℕ) (o : Open) (t : FdTable) (extra : ℕ → ℕ)
    → fd + n ≡ 32
    → ((i : ℕ) → i < fd → get t i ≡ none)
    → IsCounted o t extra
    → let (o', t') = close_from n fd o t in
      IsCounted o' t' extra × ((i : ℕ) → i < 32 → get t' i ≡ none)
unfolding close_from
closed_from zero fd o t extra all before counted = (counted, λ i lt. before i (omega arith))
closed_from (suc n) fd o t extra all before counted =
    let (c, e) = fd_close-IsCounted o t extra counted fd (omega arith) in
    closed_from n (fd + 1) (fd_close o t fd).0 (fd_close o t fd).1 extra (omega arith)
      (λ i lt. ap (λ s. get s i) e ∙ below i lt) c
  where
    below : (i : ℕ) → i < fd + 1 → get (put t fd none) i ≡ none
    below i lt = elim (ℕ_discrete i fd) [
      | yes e ↦ rw e (get-put_self t fd none)
      | no ne ↦ get-put_ne t fd i none ne ∙ before i (omega arith)
    ]

-- `proc_close_all_fds` where the references are counted leaves no descriptor of the process in use,
-- and every reference that is left belongs to others.
pub close_all_lem :
    (o : Open) (t : FdTable) (extra : ℕ → ℕ)
    → IsCounted o t extra
    → let (o', t') = proc_close_all_fds o t in
      IsCounted o' t' extra
      × ((fd : ℕ) → fd < 32 → get t' fd ≡ none)
      × ((d : ℕ) → d < 64 → (get o'.descs d).refs ≡ extra d)
unfolding proc_close_all_fds
close_all_lem o t extra counted =
    let (c, free) = closed_from 32 0 o t extra refl (λ i lt. absurd (omega arith)) counted in
    let (o', t') = close_from 32 0 o t in
    (c, free, λ d lt. omega (arith, c.refs d lt, fds_to-none t' d free))
