-- ===== src/Calls.antt =====
-- The system calls of kernel-aarch64/sys_fs.c that only move descriptors about: close, dup3, pipe2.
pub mod Close
pub mod Fresh
pub mod Frame
pub mod Undo
pub mod Install
pub mod NewPipe
pub mod Inherit
pub mod Processes
pub mod Start
mod Tests
use mona_rpzero.Prelude.{
  ℕ, zero, suc, ◌+◌, Bool, true, false, not, ◌||◌, Option, none, some, leb, ◌==◌, if◌then◌else◌,
  Table, get, put, table, Result, ok, err,
}
use mona_rpzero.Prelude.Errno
use mona_rpzero.Path.{user_range_ok}
use mona_rpzero.Path.Memory.{write_bytes_to_user}
use mona_rpzero.Pipe
use mona_rpzero.Pipe.{end_read, end_write}
use mona_rpzero.Fd.{
  Open, Desc, FdTable, pipe, max_fds, desc_clear, put_desc, desc_alloc, desc_incref, desc_decref,
  fd_get_desc_idx, fd_alloc_into, fd_close, is_none,
}

-- The system calls work on the table of the current process.
unfoldable pub sys_close : Open → FdTable → ℕ → (Open × FdTable) × Result (Unit {0})
sys_close o t fd =
    if leb max_fds fd
    then ((o, t), err Errno.ebadf)
    else if is_none (fd_get_desc_idx o t fd)
    then ((o, t), err Errno.ebadf)
    else (fd_close o t fd, ok tt)

-- The end of `sys_dup3`: the destination is closed, then leads where the source does.
pub dup_onto : Open → FdTable → ℕ → ℕ → Open × FdTable
dup_onto o t didx newfd =
    let (o', t') = fd_close o t newfd in (desc_incref o' didx, put t' newfd (some didx))

unfoldable pub sys_dup3 : Open → FdTable → ℕ → ℕ → ℕ → (Open × FdTable) × Result ℕ
unfolding dup_onto
sys_dup3 o t oldfd newfd flags =
    if not (flags == 0)
    then ((o, t), err Errno.einval)
    else if leb max_fds oldfd || leb max_fds newfd
    then ((o, t), err Errno.ebadf)
    else elim (fd_get_desc_idx o t oldfd) [
      | none ↦ ((o, t), err Errno.ebadf)
      | some didx ↦
          if oldfd == newfd then ((o, t), ok newfd) else (dup_onto o t didx newfd, ok newfd)
    ]

abbrev pub clear_opt : Open → Option ℕ → Open
clear_opt o none = o
clear_opt o (some didx) = put_desc o didx desc_clear

abbrev pub close_opt : Open → FdTable → Option ℕ → Open × FdTable
close_opt o t none = (o, t)
close_opt o t (some fd) = fd_close o t fd

-- One end of a new pipe: the description, and the hook.
unfoldable pub open_end : Open → ℕ → ℕ → ℕ → Open
open_end o didx pid end = record (put_desc o didx (record { kind = pipe pid end; refs = 1 })) {
  pipes = Pipe.incref o.pipes pid end;
}

-- `uint32_t out[2]`, in memory
abbrev pub out_bytes : ℕ → ℕ → Table ℕ
out_bytes rfd wfd = table (λ i. if i == 0 then rfd else if i == 4 then wfd else 0)

abbrev pub Called : Type 0
Called = (Open × FdTable) × (Table ℕ × Result (Unit {0}))

-- The end of `sys_pipe2`: the numbers of the descriptors go to the user.
unfoldable pub report : Open → FdTable → Table ℕ → ℕ → ℕ → ℕ → Called
report o t mem pipefd_user rfd wfd =
    elim (write_bytes_to_user mem pipefd_user (out_bytes rfd wfd) 8) [
      | some mem' ↦ ((o, t), (mem', ok tt))
      | none ↦ let (o1, t1) = fd_close o t rfd in (fd_close o1 t1 wfd, (mem, err Errno.efault))
    ]

abbrev pub with_abort : Open → ℕ → Open
with_abort o pid = record o { pipes = Pipe.abort o.pipes pid }

-- What `sys_pipe2` does with the two descriptors it has, or has not, found.
unfoldable pub installed : Open → FdTable → Table ℕ → ℕ → ℕ → Option ℕ → Option ℕ → Called
installed o t mem pipefd_user pid (some rfd) (some wfd) = report o t mem pipefd_user rfd wfd
installed o t mem pipefd_user pid rfd wfd =
    let (o1, t1) = close_opt o t rfd in
    let (o2, t2) = close_opt o1 t1 wfd in ((with_abort o2 pid, t2), (mem, err Errno.emfile))

-- Both descriptions exist; descriptors are found for them, and their creation references go.
unfoldable pub install : Open → FdTable → Table ℕ → ℕ → ℕ → ℕ → ℕ → Called
install o t mem pipefd_user pid rdesc wdesc =
    let ((o1, t1), rfd) = fd_alloc_into o t 0 rdesc in
    let ((o2, t2), wfd) = fd_alloc_into o1 t1 0 wdesc in
    installed (desc_decref (desc_decref o2 rdesc) wdesc) t2 mem pipefd_user pid rfd wfd

-- `sys_pipe2` behind `pipe_create`, with the descriptions it has, or has not, found.
unfoldable pub described : Open → FdTable → Table ℕ → ℕ → ℕ → Option ℕ → Option ℕ → Called
described o t mem pipefd_user pid (some rdesc) (some wdesc) =
    install (open_end (open_end o rdesc pid end_read) wdesc pid end_write) t mem pipefd_user pid
      rdesc wdesc
described o t mem pipefd_user pid rdesc wdesc =
    ((with_abort (clear_opt (clear_opt o rdesc) wdesc) pid, t), (mem, err Errno.emfile))

unfoldable pub describe : Open → FdTable → Table ℕ → ℕ → ℕ → Called
describe o t mem pipefd_user pid =
    let (o1, rdesc) = desc_alloc o in
    let (o2, wdesc) = desc_alloc o1 in described o2 t mem pipefd_user pid rdesc wdesc

unfoldable pub sys_pipe2 : Open → FdTable → Table ℕ → ℕ → ℕ → Called
sys_pipe2 o t mem pipefd_user flags =
    if not (flags == 0)
    then ((o, t), (mem, err Errno.enosys))
    else if not (user_range_ok pipefd_user 8)
    then ((o, t), (mem, err Errno.efault))
    else let (ps, r) = Pipe.create o.pipes in
      elim r [
        | err e ↦ ((record o { pipes = ps }, t), (mem, err Errno.emfile))
        | ok pid ↦ describe (record o { pipes = ps }) t mem pipefd_user pid
      ]

-- The loop of `sys_clone` (sys_proc.c) that gives the child the descriptors of the parent, from
-- descriptor `i` on.
unfoldable pub inherit_from : ℕ → ℕ → Open → FdTable → FdTable → Open × FdTable
inherit_from zero i o parent child = (o, child)
inherit_from (suc n) i o parent child = elim (get parent i) [
  | none ↦ inherit_from n (i + 1) o parent (put child i none)
  | some didx ↦ inherit_from n (i + 1) (desc_incref o didx) parent (put child i (some didx))
]

unfoldable pub inherit_fds : Open → FdTable → FdTable → Open × FdTable
inherit_fds o parent child = inherit_from max_fds 0 o parent child
