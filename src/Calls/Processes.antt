-- ===== src/Calls/Processes.antt =====
-- All processes at once: the references of a description are the descriptors of any process that lead
-- to it, whatever the order of the system calls.
use mona_rpzero.Prelude.{
  ℕ, zero, suc, ◌+◌, ◌-◌, ◌*◌, ◌≤◌, ◌<◌, ◌≡◌, sym, ap, ◌∙◌, ◌≢◌, none, some, Table, get, put,
  get-put_self, get-put_ne, arith, subst, ℕ_discrete, sum_below, sum_below_change, le-sum_below,
  sum_below-zero, Result,
}
use mona_rpzero.Fd.{Open, FdTable, proc_close_all_fds}
use mona_rpzero.Fd.Shared.{IsShared}
use mona_rpzero.Fd.Keep.{IsCounted, fds_to, fds_to-le, fds_to-pos, fds_to-none}
use mona_rpzero.Calls.{Called, sys_close, sys_dup3, sys_pipe2, inherit_fds}
use mona_rpzero.Calls.Close.{
  CloseOutcome, closed, sys_close-CloseOutcome, DupOutcome, unmoved, moved, sys_dup3-DupOutcome,
  close_all_lem,
}
use mona_rpzero.Calls.Undo.{PipeOutcome, bad_address, failed, opened}
use mona_rpzero.Calls.NewPipe.{sys_pipe2-PipeOutcome}
use mona_rpzero.Calls.Inherit.{inherit_fds-IsInherited}

-- The descriptor tables of the sixteen processes.
abbrev pub FdTables : Type 0
FdTables = Table FdTable

-- The descriptors of any process that lead to a description.
unfoldable pub all_fds_to : FdTables → ℕ → ℕ
all_fds_to ts d = sum_below (λ p. fds_to (get ts p) d) 16

-- The books of the kernel: every reference of a description is a descriptor of some process, and the
-- counters of pipes, sockets and connections are sums of such references.
pub record IsBalanced (o : Open) (ts : FdTables) : Type 0 where
  pub shared : IsShared o
  pub refs : (d : ℕ) → d < 64 → (get o.descs d).refs ≡ all_fds_to ts d
  pub targets : (p fd d : ℕ) → p < 16 → fd < 32 → get (get ts p) fd ≡ some d → d < 64

all_fds_to-put :
    (ts : FdTables) (p : ℕ) (t : FdTable) (d : ℕ)
    → p < 16
    → all_fds_to (put ts p t) d + fds_to (get ts p) d ≡ all_fds_to ts d + fds_to t d
unfolding all_fds_to
all_fds_to-put ts p t d lt =
    sum_below_change (λ q. fds_to (get (put ts p t) q) d) (λ q. fds_to (get ts q) d) 16 p lt
      (λ q ne. ap (λ s. fds_to s d) (get-put_ne ts p q t ne))
    ∙ ap (λ s. all_fds_to ts d + fds_to s d) (get-put_self ts p t)

own-le : (ts : FdTables) (p d : ℕ) → p < 16 → fds_to (get ts p) d ≤ all_fds_to ts d
unfolding all_fds_to
own-le ts p d lt = le-sum_below (λ q. fds_to (get ts q) d) 16 p lt

sum_fds-le : (ts : FdTables) (d n : ℕ) → sum_below (λ q. fds_to (get ts q) d) n ≤ n * 32
unfolding sum_below
sum_fds-le ts d zero = omega arith
sum_fds-le ts d (suc n) = omega (arith, sum_fds-le ts d n, fds_to-le (get ts n) d)

pub all_fds_to-none :
    (ts : FdTables) (d : ℕ)
    → ((p fd : ℕ) → p < 16 → fd < 32 → get (get ts p) fd ≡ none)
    → all_fds_to ts d ≡ 0
unfolding all_fds_to
all_fds_to-none ts d h =
    sum_below-zero (λ p. fds_to (get ts p) d) 16
      (λ p lt. fds_to-none (get ts p) d (λ fd. h p fd lt))

-- The descriptors of the other processes.
abbrev pub others : FdTables → ℕ → ℕ → ℕ
others ts p d = all_fds_to ts d - fds_to (get ts p) d

all-le : (ts : FdTables) (d : ℕ) → all_fds_to ts d ≤ 512
unfolding all_fds_to
all-le ts d = sum_fds-le ts d 16

module _ (o : Open) (ts : FdTables) (balanced : IsBalanced o ts) (p : ℕ) (lt : p < 16) where
  pub others-le : (d : ℕ) → others ts p d ≤ 512
  others-le d = omega (arith, all-le ts d)

  pub balanced-IsCounted : IsCounted o (get ts p) (others ts p)
  balanced-IsCounted = record {
    shared = balanced.shared;
    refs = λ d d_lt. omega (arith, balanced.refs d d_lt, own-le ts p d lt);
    targets = λ fd d fd_lt e. balanced.targets p fd d lt fd_lt e;
    bounded = λ d. omega (arith, others-le d);
  }

  pub counted-IsBalanced :
      (o' : Open) (t' : FdTable) → IsCounted o' t' (others ts p) → IsBalanced o' (put ts p t')
  counted-IsBalanced o' t' c = record {
    shared = c.shared;
    refs = λ d d_lt. omega (arith, c.refs d d_lt, all_fds_to-put ts p t' d lt, own-le ts p d lt);
    targets = λ q fd d q_lt fd_lt e. elim (ℕ_discrete q p) [
      | yes same ↦ c.targets fd d fd_lt (
          sym (ap (λ s. get s fd) (get-put_self ts p t'))
          ∙ subst (λ k. get (get (put ts p t') k) fd ≡ some d) same e)
      | no ne ↦
          balanced.targets q fd d q_lt fd_lt
            (sym (ap (λ s. get s fd) (get-put_ne ts p q t' ne)) ∙ e)
    ];
  }

-- The tables once the call of process `p` has left `x`.
abbrev pub updated : FdTables → ℕ → Open × FdTable → Open × FdTables
updated ts p x = (x.0, put ts p x.1)

-- One system call of process `p` on the descriptors. The child of a clone is a process without
-- descriptors, as `proc_clear` has left it.
pub data Step : Open × FdTables → Open × FdTables → Type 0 where
  close :
      (o : Open) (ts : FdTables) (p fd : ℕ)
      → p < 16
      → Step (o, ts) (updated ts p (sys_close o (get ts p) fd).0)
  dup :
      (o : Open) (ts : FdTables) (p oldfd newfd flags : ℕ)
      → p < 16
      → Step (o, ts) (updated ts p (sys_dup3 o (get ts p) oldfd newfd flags).0)
  new_pipe :
      (o : Open) (ts : FdTables) (p : ℕ) (mem : Table ℕ) (pipefd_user flags : ℕ)
      → p < 16
      → Step (o, ts) (updated ts p (sys_pipe2 o (get ts p) mem pipefd_user flags).0)
  exit :
      (o : Open) (ts : FdTables) (p : ℕ)
      → p < 16
      → Step (o, ts) (updated ts p (proc_close_all_fds o (get ts p)))
  clone :
      (o : Open) (ts : FdTables) (p q : ℕ)
      → p < 16
      → q < 16
      → p ≢ q
      → ((fd : ℕ) → fd < 32 → get (get ts q) fd ≡ none)
      → Step (o, ts) (updated ts q (inherit_fds o (get ts p) (get ts q)))

-- Any number of system calls, of any processes in any order.
pub data Steps : Open × FdTables → Open × FdTables → Type 0 where
  done : (s : Open × FdTables) → Steps s s
  more : {s s' s'' : Open × FdTables} → Steps s s' → Step s' s'' → Steps s s''

module _ (o : Open) (t : FdTable) (extra : ℕ → ℕ) where
  closes-IsCounted :
      (fd : ℕ) {x : (Open × FdTable) × Result (Unit {0})}
      → IsCounted o t extra
      → CloseOutcome o t extra fd x
      → IsCounted x.0.0 x.0.1 extra
  closes-IsCounted fd c (CloseOutcome.bad h) = c
  closes-IsCounted fd c (closed o' d lt e c') = c'

  dups-IsCounted :
      (oldfd newfd flags : ℕ) {x : (Open × FdTable) × Result ℕ}
      → IsCounted o t extra
      → DupOutcome o t extra oldfd newfd flags x
      → IsCounted x.0.0 x.0.1 extra
  dups-IsCounted oldfd newfd flags c (DupOutcome.bad_flags h) = c
  dups-IsCounted oldfd newfd flags c (DupOutcome.bad h) = c
  dups-IsCounted oldfd newfd flags c (unmoved d e at) = c
  dups-IsCounted oldfd newfd flags c (moved o' d ne at c') = c'

  pipes-IsCounted :
      (mem : Table ℕ) (pipefd_user flags : ℕ) {x : Called}
      → IsCounted o t extra
      → PipeOutcome o t extra mem pipefd_user flags x
      → IsCounted x.0.0 x.0.1 extra
  pipes-IsCounted mem pipefd_user flags c (PipeOutcome.bad_flags h) = c
  pipes-IsCounted mem pipefd_user flags c (bad_address h) = c
  pipes-IsCounted mem pipefd_user flags c (failed o' why back c') = c'
  pipes-IsCounted mem pipefd_user flags c (opened o' mem' pid r w rfd wfd is_opened c' e) = c'

-- The parent's descriptors are among those that the child does not own.
held_by_parent :
    (o : Open) (ts : FdTables) (p q : ℕ)
    → IsBalanced o ts
    → p < 16
    → q < 16
    → p ≢ q
    → ((fd : ℕ) → fd < 32 → get (get ts q) fd ≡ none)
    → (fd d : ℕ) → fd < 32
    → get (get ts p) fd ≡ some d
    → (d < 64) × (0 < others ts q d)
held_by_parent o ts p q b p_lt q_lt ne empty fd d fd_lt e = (
  b.targets p fd d p_lt fd_lt e,
  omega (
    arith,
    fds_to-pos (get ts p) fd d fd_lt e,
    own-le ts p d p_lt,
    fds_to-none (get ts q) d empty,
  ),
)

pub Step-IsBalanced :
    {s s' : Open × FdTables} → IsBalanced s.0 s.1 → Step s s' → IsBalanced s'.0 s'.1
Step-IsBalanced b (close o ts p fd lt) =
    let c : IsCounted o (get ts p) (others ts p) = balanced-IsCounted o ts b p lt in
    counted-IsBalanced o ts b p lt _ _ (
      closes-IsCounted o (get ts p) (others ts p) fd c
        (sys_close-CloseOutcome o (get ts p) (others ts p) c fd))
Step-IsBalanced b (dup o ts p oldfd newfd flags lt) =
    let c : IsCounted o (get ts p) (others ts p) = balanced-IsCounted o ts b p lt in
    counted-IsBalanced o ts b p lt _ _ (
      dups-IsCounted o (get ts p) (others ts p) oldfd newfd flags c
        (sys_dup3-DupOutcome o (get ts p) (others ts p) c oldfd newfd flags))
Step-IsBalanced b (new_pipe o ts p mem pipefd_user flags lt) =
    let c : IsCounted o (get ts p) (others ts p) = balanced-IsCounted o ts b p lt in
    counted-IsBalanced o ts b p lt _ _ (
      pipes-IsCounted o (get ts p) (others ts p) mem pipefd_user flags c (
        sys_pipe2-PipeOutcome o (get ts p) (others ts p) mem pipefd_user flags c
          (λ d. omega (arith, others-le o ts b p lt d))))
Step-IsBalanced b (exit o ts p lt) =
    let c : IsCounted o (get ts p) (others ts p) = balanced-IsCounted o ts b p lt in
    counted-IsBalanced o ts b p lt _ _ (close_all_lem o (get ts p) (others ts p) c).0
Step-IsBalanced b (clone o ts p q p_lt q_lt ne empty) =
    counted-IsBalanced o ts b q q_lt _ _
      (inherit_fds-IsInherited (get ts p) (others ts q)
        (held_by_parent o ts p q b p_lt q_lt ne empty) o (get ts q)
        (balanced-IsCounted o ts b q q_lt) empty).counted

-- Whatever system calls of whatever processes ran, in any order, from balanced books: a description
-- has as many references as descriptors of all processes lead to it, every counter of a pipe's end,
-- a socket or a connection is the sum of the references of the descriptions that lead there, and
-- what has references is in use.
pub Steps-IsBalanced :
    {s s' : Open × FdTables} → IsBalanced s.0 s.1 → Steps s s' → IsBalanced s'.0 s'.1
Steps-IsBalanced b (done s) = b
Steps-IsBalanced b (more steps step) = Step-IsBalanced (Steps-IsBalanced b steps) step
