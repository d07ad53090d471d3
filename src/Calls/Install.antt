-- ===== src/Calls/Install.antt =====
-- The end of `sys_pipe2`, on two descriptions of the ends of a new pipe.
use mona_rpzero.Prelude.{
  ℕ, ◌+◌, ◌<◌, ◌≡◌, sym, ap, ◌∙◌, ◌≢◌, inl, inr, true, false, Option, none, some, Option-cases,
  Table, get, put, get-put_self, get-put_ne, put-put, put-get, arith, subst, err,
}
use mona_rpzero.Prelude.Errno
use mona_rpzero.Path.{user_range_ok}
use mona_rpzero.Path.Memory.{write_bytes_to_user}
use mona_rpzero.Pipe.{end_read, end_write}
use mona_rpzero.Fd.{Open, Desc, FdTable, Kind, desc_incref, desc_decref, fd_alloc_into, fd_close}
use mona_rpzero.Fd.Shared.{desc_incref_ne, desc_decref_ne, desc_incref_kind, desc_decref_kind}
use mona_rpzero.Fd.Keep.{
  IsCounted, one_at, decref-IsCounted, fd_close-IsCounted, InstallOutcome, all_used, installed,
  fd_alloc_into-InstallOutcome, fds_to, few, fds_to-pos,
}
use mona_rpzero.Calls
use mona_rpzero.Calls.{
  Called, clear_opt, close_opt, open_end, out_bytes, report, with_abort, install, described,
  describe, sys_pipe2,
}
use mona_rpzero.Calls.Fresh.{IsIdle}
use mona_rpzero.Calls.Frame.{Else, desc_incref-Else, desc_decref-Else}
use mona_rpzero.Calls.Undo.{
  IsOpened, with_both, Shortage, PipeOutcome, one_at_self, fd_close_ne, fd_close-Else,
  abort-IsCounted, Rest, emptied-IsIdle, abort-IsBack, failed, opened, fds,
}

module _ (o0 : Open) (t : FdTable) (extra : ℕ → ℕ) (mem : Table ℕ) (pipefd_user flags pid : ℕ)
    (c0 : IsCounted o0 t extra) (lt : pid < 16) (unused_pipe : (get o0.pipes pid).used ≡ false)
    (in_user : user_range_ok pipefd_user 8 ≡ true) where
  abbrev pub Good : Called → Type 0
  Good = PipeOutcome o0 t extra mem pipefd_user flags

  pub gives_up :
      (o : Open)
      → IsIdle o pid
      → IsCounted o t extra
      → Shortage o0 t
      → Else o0 o pid
      → Good ((with_abort o pid, t), (mem, err Errno.emfile))
  gives_up o idle c why else_same =
      let c' : IsCounted (with_abort o pid) t extra = abort-IsCounted o t extra pid lt idle c in
      failed (with_abort o pid) why (abort-IsBack o0 o t extra pid lt unused_pipe else_same c0 c')
        c'

  can_write : (src : Table ℕ) → write_bytes_to_user mem pipefd_user src 8 ≢ none
  unfolding write_bytes_to_user
  can_write src e = absurd (ground arith)

  -- The user's memory takes the two numbers, as the range has been checked.
  reports :
      (o' : Open) (rdesc wdesc rfd wfd : ℕ)
      → IsOpened o0 t pid rdesc wdesc rfd wfd o'
      → IsCounted o' (with_both t rfd rdesc wfd wdesc) extra
      → Good (report o' (with_both t rfd rdesc wfd wdesc) mem pipefd_user rfd wfd)
  unfolding report
  reports o' rdesc wdesc rfd wfd is_opened c =
      elim (Option-cases (write_bytes_to_user mem pipefd_user (out_bytes rfd wfd) 8)) [
        | inl e ↦ absurd (can_write (out_bytes rfd wfd) e)
        | inr (mem', e) ↦ rw (e, report) (opened o' mem' pid rdesc wdesc rfd wfd is_opened c e)
      ]

  -- Both descriptions have been made: `o` before, `o3` after both ends are open.
  module _ (o o3 : Open) (rdesc wdesc : ℕ) (c : IsCounted o t extra) (idle : IsIdle o pid)
      (c3 : IsCounted o3 t (λ j. extra j + one_at rdesc j + one_at wdesc j)) (r_lt : rdesc < 64)
      (w_lt : wdesc < 64) (apart : wdesc ≢ rdesc) (r_free : (get o.descs rdesc).refs ≡ 0)
      (w_free : (get o.descs wdesc).refs ≡ 0)
      (r_kind : (get o3.descs rdesc).kind ≡ Kind.pipe pid end_read)
      (w_kind : (get o3.descs wdesc).kind ≡ Kind.pipe pid end_write) (rest : Rest o o3 rdesc wdesc)
      (else3 : Else o0 o3 pid) where
    abbrev both : ℕ → ℕ
    both j = extra j + one_at rdesc j + one_at wdesc j

    abbrev dropped : Open → Open
    dropped o2 = desc_decref (desc_decref o2 rdesc) wdesc

    module _ (o2 : Open) (t2 : FdTable) (c2 : IsCounted o2 t2 both) where
      drop_read : IsCounted (desc_decref o2 rdesc) t2 (λ j. extra j + one_at wdesc j)
      drop_read =
          decref-IsCounted o2 t2 both c2 rdesc r_lt
            (omega (arith, c2.refs rdesc r_lt, one_at_self rdesc)) t2
            (λ j. extra j + one_at wdesc j) c2.targets (λ j. omega (arith, c2.bounded j))
            (λ j. omega arith)

      -- The creation references go.
      drops : IsCounted (dropped o2) t2 extra
      drops =
          decref-IsCounted (desc_decref o2 rdesc) t2 (λ j. extra j + one_at wdesc j) drop_read wdesc
            w_lt (omega (arith, drop_read.refs wdesc w_lt, one_at_self wdesc)) t2 extra
            drop_read.targets (λ j. omega (arith, drop_read.bounded j)) (λ j. omega arith)

      read_kind :
          0 < fds_to t2 rdesc → (get (dropped o2).descs rdesc).kind ≡ (get o2.descs rdesc).kind
      read_kind led =
          ap Desc.kind (desc_decref_ne (desc_decref o2 rdesc) wdesc rdesc (λ e. apart (sym e)))
          ∙ desc_decref_kind o2 rdesc (omega (arith, c2.refs rdesc r_lt, one_at_self rdesc))
              (few o2 t2 both c2 rdesc r_lt)

      write_kind :
          0 < fds_to t2 wdesc → (get (dropped o2).descs wdesc).kind ≡ (get o2.descs wdesc).kind
      write_kind led =
          desc_decref_kind (desc_decref o2 rdesc) wdesc
            (omega (arith, drop_read.refs wdesc w_lt, one_at_self wdesc))
            (few (desc_decref o2 rdesc) t2 _ drop_read wdesc w_lt)
          ∙ ap Desc.kind (desc_decref_ne o2 rdesc wdesc apart)

      dropped-Rest : Rest o o2 rdesc wdesc → Rest o (dropped o2) rdesc wdesc
      dropped-Rest r j nr nw =
          desc_decref_ne (desc_decref o2 rdesc) wdesc j nw
          ∙ desc_decref_ne o2 rdesc j nr
          ∙ r j nr nw

      dropped-Else :
          (get o2.descs rdesc).kind ≡ Kind.pipe pid end_read
          → (get o2.descs wdesc).kind ≡ Kind.pipe pid end_write
          → Else o0 o2 pid
          → Else o0 (dropped o2) pid
      dropped-Else at_r at_w before j ne =
          desc_decref-Else (desc_decref o2 rdesc) wdesc pid end_write
            (ap Desc.kind (desc_decref_ne o2 rdesc wdesc apart) ∙ at_w) j ne
          ∙ desc_decref-Else o2 rdesc pid end_read at_r j ne
          ∙ before j ne

    -- No descriptor at all was free.
    none_free :
        ((fd : ℕ) → fd < 32 → get t fd ≢ none)
        → Good (Calls.installed (dropped o3) t mem pipefd_user pid none none)
    unfolding Calls.installed
    none_free full =
        let c' : IsCounted (dropped o3) t extra = drops o3 t c3 in
        gives_up (dropped o3)
          (emptied-IsIdle o (dropped o3) t extra pid rdesc wdesc lt idle c c'
            (dropped-Rest o3 t c3 rest) r_free w_free)
          c' (fds 0 (λ fd fd_lt ne. full fd fd_lt)) (dropped-Else o3 t c3 r_kind w_kind else3)

    -- The second descriptor was missing: the first is closed again.
    module _ (rfd : ℕ) (rfd_lt : rfd < 32) (free : get t rfd ≡ none)
        (low : (i : ℕ) → i < rfd → get t i ≢ none)
        (c1 : IsCounted (desc_incref o3 rdesc) (put t rfd (some rdesc)) both) where
      abbrev o1 : Open
      o1 = desc_incref o3 rdesc

      abbrev t1 : FdTable
      t1 = put t rfd (some rdesc)

      rest1 : Rest o o1 rdesc wdesc
      rest1 j nr nw = desc_incref_ne o3 rdesc j nr ∙ rest j nr nw

      one_free_from :
          (r : Open × FdTable)
          → IsCounted r.0 r.1 extra × (r.1 ≡ put t1 rfd none)
          → Rest o r.0 rdesc wdesc
          → Shortage o0 t
          → Else o0 r.0 pid
          → Good ((with_abort r.0 pid, r.1), (mem, err Errno.emfile))
      one_free_from (o', t') (c', e) rest' why else' =
          let back : t' ≡ t = e ∙ put-put t rfd (some rdesc) none ∙ put-get t rfd none free in
          let c'' : IsCounted o' t extra = subst (λ s. IsCounted o' s extra) back c' in
          subst (λ s. Good ((with_abort o' pid, s), (mem, err Errno.emfile))) (sym back)
            (gives_up o'
              (emptied-IsIdle o o' t extra pid rdesc wdesc lt idle c c'' rest' r_free w_free) c''
              why else')

      at_rdesc : (get o1.descs rdesc).kind ≡ Kind.pipe pid end_read
      at_rdesc = desc_incref_kind o3 rdesc rdesc ∙ r_kind

      at_wdesc : (get o1.descs wdesc).kind ≡ Kind.pipe pid end_write
      at_wdesc = desc_incref_kind o3 rdesc wdesc ∙ w_kind

      else1 : Else o0 (dropped o1) pid
      else1 =
          dropped-Else o1 t1 c1 at_rdesc at_wdesc
            (λ j ne. desc_incref-Else o3 rdesc pid end_read r_kind j ne ∙ else3 j ne)

      closed-Else : Else o0 (fd_close (dropped o1) t1 rfd).0 pid
      closed-Else j ne =
          fd_close-Else (dropped o1) t1 rfd rdesc pid end_read (get-put_self t rfd (some rdesc))
            (read_kind o1 t1 c1 (fds_to-pos t1 rfd rdesc rfd_lt (get-put_self t rfd (some rdesc)))
              ∙ at_rdesc)
            j ne
          ∙ else1 j ne

      one_free :
          ((fd : ℕ) → fd < 32 → get t1 fd ≢ none)
          → Good (Calls.installed (dropped o1) t1 mem pipefd_user pid (some rfd) none)
      unfolding Calls.installed
      one_free full =
          one_free_from (fd_close (dropped o1) t1 rfd)
            (fd_close-IsCounted (dropped o1) t1 extra (drops o1 t1 c1) rfd rfd_lt)
            (λ j nr nw.
              fd_close_ne (dropped o1) t1 rfd rdesc j (get-put_self t rfd (some rdesc)) nr
              ∙ dropped-Rest o1 t1 c1 rest1 j nr nw)
            (fds rfd (λ fd fd_lt ne e. full fd fd_lt (get-put_ne t rfd fd (some rdesc) ne ∙ e)))
            closed-Else

      module _ (wfd : ℕ) (wfd_lt : wfd < 32) (free' : get t1 wfd ≡ none)
          (low' : (i : ℕ) → i < wfd → get t1 i ≢ none)
          (c2 : IsCounted (desc_incref o1 wdesc) (put t1 wfd (some wdesc)) both) where
        abbrev o2 : Open
        o2 = desc_incref o1 wdesc

        abbrev t2 : FdTable
        t2 = put t1 wfd (some wdesc)

        other_fd : wfd ≢ rfd
        other_fd e = clash (sym (get-put_self t rfd (some rdesc)) ∙ sym (ap (get t1) e) ∙ free')
          where
            clash : some rdesc ≡ none → ⊥
            clash h = cc

        is_opened : IsOpened o0 t pid rdesc wdesc rfd wfd (dropped o2)
        is_opened = record {
          new_pipe = unused_pipe;
          low_rfd = (rfd_lt, free, low);
          low_wfd = (
            wfd_lt,
            sym (get-put_ne t rfd wfd (some rdesc) other_fd) ∙ free',
            λ i below ne e. low' i below (get-put_ne t rfd i (some rdesc) ne ∙ e),
          );
          different = other_fd;
          read_end =
              read_kind o2 t2 c2 (
                fds_to-pos t2 rfd rdesc rfd_lt (
                  get-put_ne t1 wfd rfd (some wdesc) (λ e. other_fd (sym e))
                  ∙ get-put_self t rfd (some rdesc)))
              ∙ desc_incref_kind o1 wdesc rdesc
              ∙ desc_incref_kind o3 rdesc rdesc
              ∙ r_kind;
          write_end =
              write_kind o2 t2 c2
                (fds_to-pos t2 wfd wdesc wfd_lt (get-put_self t1 wfd (some wdesc)))
              ∙ desc_incref_kind o1 wdesc wdesc
              ∙ desc_incref_kind o3 rdesc wdesc
              ∙ w_kind;
        }

        two_free : Good (Calls.installed (dropped o2) t2 mem pipefd_user pid (some rfd) (some wfd))
        unfolding Calls.installed
        two_free = reports (dropped o2) rdesc wdesc rfd wfd is_opened (drops o2 t2 c2)

      second :
          (y : (Open × FdTable) × Option ℕ)
          → InstallOutcome o1 t1 both wdesc y
          → Good (Calls.installed (dropped y.0.0) y.0.1 mem pipefd_user pid (some rfd) y.1)
      second y (all_used h) = one_free h
      second y (installed wfd wfd_lt free' low' c2) = two_free wfd wfd_lt free' low' c2

    second_none :
        ((fd : ℕ) → fd < 32 → get t fd ≢ none)
        → (y : (Open × FdTable) × Option ℕ) → InstallOutcome o3 t both wdesc y
        → Good (Calls.installed (dropped y.0.0) y.0.1 mem pipefd_user pid none y.1)
    second_none used y (all_used h) = none_free used
    second_none used y (installed wfd wfd_lt free' low' c2) = absurd (used wfd wfd_lt free')

    installs_from :
        (x : (Open × FdTable) × Option ℕ)
        → InstallOutcome o3 t both rdesc x
        → let ((o2, t2), wfd) = fd_alloc_into x.0.0 x.0.1 0 wdesc in
          Good (Calls.installed (dropped o2) t2 mem pipefd_user pid x.1 wfd)
    installs_from x (all_used h) = second_none h (fd_alloc_into o3 t 0 wdesc) (
        fd_alloc_into-InstallOutcome o3 t both wdesc c3 w_lt
          (omega (arith, c3.refs wdesc w_lt, one_at_self wdesc)))
    installs_from x (installed rfd rfd_lt free low c1) =
        second rfd rfd_lt free low c1
          (fd_alloc_into (desc_incref o3 rdesc) (put t rfd (some rdesc)) 0 wdesc)
          (fd_alloc_into-InstallOutcome _ _ both wdesc c1 w_lt
            (omega (arith, c1.refs wdesc w_lt, one_at_self wdesc)))

    pub installs : Good (install o3 t mem pipefd_user pid rdesc wdesc)
    unfolding install
    installs = installs_from (fd_alloc_into o3 t 0 rdesc) (
        fd_alloc_into-InstallOutcome o3 t both rdesc c3 r_lt
          (omega (arith, c3.refs rdesc r_lt, one_at_self rdesc)))
