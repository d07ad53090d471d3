-- ===== src/Calls/Undo.antt =====
-- What `sys_pipe2` gives, and how its steps are undone.
use mona_rpzero.Prelude.{
  ℕ, ◌+◌, ◌<◌, ◌≡◌, refl, sym, ap, ◌∙◌, ◌≢◌, true, false, none, some, Table, get, put, get-put_self,
  get-put_ne, if_cases, leb, arith, subst, ℕ_discrete, ok, err,
}
use mona_rpzero.Prelude.Errno
use mona_rpzero.Path.{user_range_ok}
use mona_rpzero.Path.Memory.{write_bytes_to_user}
use mona_rpzero.Pipe.{Pipe, reset, end_read, end_write}
use mona_rpzero.Fd.{Open, Desc, FdTable, Kind, put_desc, unused, desc_clear, fd_close}
use mona_rpzero.Fd.Counts.{Key, reader, writer, InRange, counter}
use mona_rpzero.Fd.Shared.{weight, weight-users, users-zero, desc_decref_ne, counter-put_desc}
use mona_rpzero.Fd.Keep.{
  IsCounted, one_at, blank-IsShared, weight_unused, weight_zero, refs_less_one,
}
use mona_rpzero.Calls.{Called, out_bytes, with_abort}
use mona_rpzero.Calls.Fresh.{IsIdle, with_reset-IsCounted, with_abort-eq}
use mona_rpzero.Calls.Frame.{Else, desc_decref-Else}

-- The descriptors that `sys_pipe2` opens, and what they lead to.
pub record IsOpened (o : Open) (t : FdTable) (pid rdesc wdesc rfd wfd : ℕ) (o' : Open)
    : Type 0 where
  pub new_pipe : (get o.pipes pid).used ≡ false
  pub low_rfd : (rfd < 32) × (get t rfd ≡ none) × ((i : ℕ) → i < rfd → get t i ≢ none)
  pub low_wfd : (wfd < 32) × (get t wfd ≡ none) × ((i : ℕ) → i < wfd → i ≢ rfd → get t i ≢ none)
  pub different : wfd ≢ rfd
  pub read_end : (get o'.descs rdesc).kind ≡ Kind.pipe pid end_read
  pub write_end : (get o'.descs wdesc).kind ≡ Kind.pipe pid end_write

abbrev pub with_both : FdTable → ℕ → ℕ → ℕ → ℕ → FdTable
with_both t rfd rdesc wfd wdesc = put (put t rfd (some rdesc)) wfd (some wdesc)

-- Why `sys_pipe2` gives up: all pipes are in use, at most one description is free, or at most one
-- descriptor.
pub data Shortage (o : Open) (t : FdTable) : Type 0 where
  pipes : ((p : ℕ) → p < 16 → (get o.pipes p).used ≡ true) → Shortage o t
  descs : (a : ℕ) → ((d : ℕ) → d < 64 → d ≢ a → 0 < (get o.descs d).refs) → Shortage o t
  fds : (a : ℕ) → ((fd : ℕ) → fd < 32 → fd ≢ a → get t fd ≢ none) → Shortage o t

-- The same pipes are in use, and they have not changed; and every description has as many references.
pub record IsBack (o o' : Open) : Type 0 where
  pub same_use : (p : ℕ) → (get o'.pipes p).used ≡ (get o.pipes p).used
  pub kept : (p : ℕ) → (get o.pipes p).used ≡ true → get o'.pipes p ≡ get o.pipes p
  pub refs : (d : ℕ) → d < 64 → (get o'.descs d).refs ≡ (get o.descs d).refs

-- What `sys_pipe2` gives.
pub data PipeOutcome (o : Open) (t : FdTable) (extra : ℕ → ℕ) (mem : Table ℕ)
    (pipefd_user flags : ℕ) : Called → Type 0 where
  bad_flags :
      flags ≢ 0 → PipeOutcome o t extra mem pipefd_user flags ((o, t), (mem, err Errno.enosys))
  bad_address :
      user_range_ok pipefd_user 8 ≡ false
      → PipeOutcome o t extra mem pipefd_user flags ((o, t), (mem, err Errno.efault))
  failed :
      (o' : Open)
      → Shortage o t
      → IsBack o o'
      → IsCounted o' t extra
      → PipeOutcome o t extra mem pipefd_user flags ((o', t), (mem, err Errno.emfile))
  opened :
      (o' : Open) (mem' : Table ℕ) (pid rdesc wdesc rfd wfd : ℕ)
      → IsOpened o t pid rdesc wdesc rfd wfd o'
      → IsCounted o' (with_both t rfd rdesc wfd wdesc) extra
      → write_bytes_to_user mem pipefd_user (out_bytes rfd wfd) 8 ≡ some mem'
      → PipeOutcome o t extra mem pipefd_user flags
          ((o', with_both t rfd rdesc wfd wdesc), (mem', ok tt))

pub one_at_self : (d : ℕ) → one_at d d ≡ 1
one_at_self d = ground arith

pub fd_close_ne :
    (o : Open) (t : FdTable) (fd d j : ℕ)
    → get t fd ≡ some d
    → j ≢ d
    → get (fd_close o t fd).0.descs j ≡ get o.descs j
unfolding fd_close
fd_close_ne o t fd d j e ne =
    rw (e, fd_close)
      (if_cases (λ (r : Open × FdTable). get r.0.descs j ≡ get o.descs j) (leb 32 fd) (λ _. refl)
        (λ _. desc_decref_ne o d j ne))

pub fd_close-Else :
    (o : Open) (t : FdTable) (fd d pid end : ℕ)
    → get t fd ≡ some d
    → (get o.descs d).kind ≡ Kind.pipe pid end
    → Else o (fd_close o t fd).0 pid
unfolding fd_close
fd_close-Else o t fd d pid end e kind j ne =
    rw (e, fd_close)
      (if_cases (λ (r : Open × FdTable). get r.0.pipes j ≡ get o.pipes j) (leb 32 fd) (λ _. refl)
        (λ _. desc_decref-Else o d pid end kind j ne))

-- A description that was handed out is cleared again.
pub clear-IsCounted :
    (o : Open) (t : FdTable) (extra extra' : ℕ → ℕ) (i : ℕ)
    → IsCounted o t extra
    → i < 64
    → ((key : Key) → weight (get o.descs i) key ≡ 0)
    → (get o.descs i).refs ≡ 1
    → ((j : ℕ) → extra j ≡ extra' j + one_at i j)
    → IsCounted (put_desc o i desc_clear) t extra'
clear-IsCounted o t extra extra' i c lt nowhere single less = record {
  shared = blank-IsShared o i 0 lt c.shared nowhere;
  refs = λ j near. omega (
    arith,
    refs_less_one (get o.descs i) desc_clear i j o.descs refl (omega arith),
    c.refs j near,
    less j,
  );
  targets = c.targets;
  bounded = λ j. omega (arith, c.bounded j, less j);
}

pub clear_blank :
    (o : Open) (t : FdTable) (extra : ℕ → ℕ) (i : ℕ)
    → i < 64
    → IsCounted (put_desc o i (record { kind = unused; refs = 1 })) t (λ j. extra j + one_at i j)
    → IsCounted (put_desc (put_desc o i (record { kind = unused; refs = 1 })) i desc_clear) t extra
clear_blank o t extra i lt c =
    let blank : Desc = record { kind = unused; refs = 1 } in
    let at : get (put o.descs i blank) i ≡ blank = get-put_self o.descs i blank in
    clear-IsCounted (put_desc o i blank) t (λ j. extra j + one_at i j) extra i c lt
      (λ key. ap (λ d. weight d key) at ∙ weight_unused 1 key) (ap Desc.refs at) (λ j. refl)

-- The pipe is idle, and goes.
pub abort-IsCounted :
    (o : Open) (t : FdTable) (extra : ℕ → ℕ) (pid : ℕ)
    → pid < 16
    → IsIdle o pid
    → IsCounted o t extra
    → IsCounted (with_abort o pid) t extra
abort-IsCounted o t extra pid lt idle c =
    subst (λ s. IsCounted s t extra) (sym (with_abort-eq o pid lt))
      (with_reset-IsCounted false o pid idle t extra c)

pub put_desc-IsIdle : (o : Open) (pid i : ℕ) (d : Desc) → IsIdle o pid → IsIdle (put_desc o i d) pid
put_desc-IsIdle o pid i d idle = record {
  reads = counter-put_desc o i d (reader pid) ∙ idle.reads;
  writes = counter-put_desc o i d (writer pid) ∙ idle.writes;
}

-- Only the two descriptions have changed.
abbrev pub Rest : Open → Open → ℕ → ℕ → Type 0
Rest o o' rdesc wdesc = (j : ℕ) → j ≢ rdesc → j ≢ wdesc → get o'.descs j ≡ get o.descs j

-- With the references of both gone, the pipe is idle.
pub emptied-IsIdle :
    (o o' : Open) (t : FdTable) (extra : ℕ → ℕ) (pid rdesc wdesc : ℕ)
    → pid < 16
    → IsIdle o pid
    → IsCounted o t extra
    → IsCounted o' t extra
    → Rest o o' rdesc wdesc
    → (get o.descs rdesc).refs ≡ 0
    → (get o.descs wdesc).refs ≡ 0
    → IsIdle o' pid
emptied-IsIdle o o' t extra pid rdesc wdesc lt idle c c' rest r_free w_free = record {
  reads = ends (reader pid) lt idle.reads;
  writes = ends (writer pid) lt idle.writes;
}
  where
    weightless :
        (key : Key)
        → InRange key
        → counter o key ≡ 0
        → (j : ℕ) → j < 64
        → weight (get o'.descs j) key ≡ 0
    weightless key near z j j_lt = elim (ℕ_discrete (get o.descs j).refs 0) [
      | yes e ↦ weight_zero (get o'.descs j) key (omega (arith, c'.refs j j_lt, c.refs j j_lt))
      | no ne ↦
          ap (λ d. weight d key)
            (rest j (λ e. ne (ap (λ i. (get o.descs i).refs) e ∙ r_free))
              (λ e. ne (ap (λ i. (get o.descs i).refs) e ∙ w_free)))
          ∙ omega (arith, weight-users o.descs key j j_lt, c.shared.counted key near)
    ]

    ends : (key : Key) → InRange key → counter o key ≡ 0 → counter o' key ≡ 0
    ends key near z = c'.shared.counted key near ∙ users-zero o'.descs key (weightless key near z)

-- The pipe that was set up is free again.
pub abort-IsBack :
    (o0 o : Open) (t : FdTable) (extra : ℕ → ℕ) (pid : ℕ)
    → pid < 16
    → (get o0.pipes pid).used ≡ false
    → Else o0 o pid
    → IsCounted o0 t extra
    → IsCounted (with_abort o pid) t extra
    → IsBack o0 (with_abort o pid)
abort-IsBack o0 o t extra pid lt free else_same c0 c = record {
  same_use = λ p. elim (ℕ_discrete p pid) [
    | yes e ↦
        subst (λ k. (get (with_abort o pid).pipes k).used ≡ (get o0.pipes k).used) (sym e)
          (ap (λ (x : Open). (get x.pipes pid).used) (with_abort-eq o pid lt)
            ∙ ap Pipe.used (get-put_self o.pipes pid (reset false (get o.pipes pid)))
            ∙ sym free)
    | no ne ↦ ap Pipe.used (others p ne)
  ];
  kept = λ p used. others p (λ e. clash (sym used ∙ ap (λ k. (get o0.pipes k).used) e ∙ free));
  refs = λ d d_lt. c.refs d d_lt ∙ sym (c0.refs d d_lt);
}
  where
    clash : true ≡ false → ⊥
    clash e = cc

    others : (p : ℕ) → p ≢ pid → get (with_abort o pid).pipes p ≡ get o0.pipes p
    others p ne =
        ap (λ (x : Open). get x.pipes p) (with_abort-eq o pid lt)
        ∙ get-put_ne o.pipes pid p (reset false (get o.pipes pid)) ne
        ∙ else_same p ne
