-- ===== src/Fd.antt =====
-- kernel-aarch64/fd.c: the table of open descriptions, which descriptors of several processes share,
-- and the system calls of kernel-aarch64/sys_fs.c that only move descriptors about.
pub mod Counts
pub mod Shared
pub mod Keep
use mona_rpzero.Prelude.{
  ℕ, zero, suc, ◌+◌, ◌%◌, ◌^◌, Bool, true, false, not, Option, none, some, List, [], ◌∷◌, ltb, leb,
  ◌||◌, ◌-◌, ◌==◌, if◌then◌else◌, Table, get, put, for_below, first, Result, ok, err, add32, sub32,
}
use mona_rpzero.Prelude.Errno
use mona_rpzero.Pipe
use mona_rpzero.Pipe.{Pipes, end_read, end_write}
use mona_rpzero.Udp
use mona_rpzero.Udp.{Sock}
use mona_rpzero.Tcp
use mona_rpzero.Tcp.{Conn}

abbrev pub max_fds : ℕ
max_fds = 32

abbrev pub max_filedescs : ℕ
max_filedescs = 64

-- `fdesc_kind_t` with the member of the union that belongs to it.
pub data Kind : Type 0 where
  unused : Kind
  uart : Kind
  initramfs : (data_at size off mode : ℕ) → Bool → List ℕ → Kind
  pipe : (pipe_id end : ℕ) → Kind
  ramfile : (file_id off : ℕ) → Kind
  proc : (node off : ℕ) → Kind
  udp6 : (sock_id : ℕ) → Kind
  tcp6 : (conn_id : ℕ) → Kind

-- `file_desc_t`
pub record Desc : Type 0 where
  pub kind : Kind
  pub refs : ℕ

abbrev pub desc_clear : Desc
desc_clear = record { kind = unused; refs = 0 }

-- `g_descs`, and the tables that its hooks change: `g_pipes`, `g_udp6` and `g_tcp6`.
pub record Open : Type 0 where
  pub descs : Table Desc
  pub pipes : Pipes
  pub socks : Table Sock
  pub conns : Table Conn

unfoldable pub fd_init : Table Desc → Table Desc
fd_init = for_below max_filedescs (λ d. desc_clear)

unfoldable pub desc_alloc : Open → Open × Option ℕ
desc_alloc o = elim (first (λ i. (get o.descs i).refs == 0) 0 max_filedescs) [
  | none ↦ (o, none)
  | some i ↦ (record o { descs = put o.descs i (record { kind = unused; refs = 1 }) }, some i)
]

-- The hooks that `desc_incref` and `desc_decref` call.
abbrev pub hook_incref : Open → Kind → Open
hook_incref o (pipe id end) = record o { pipes = Pipe.incref o.pipes id end }
hook_incref o (udp6 id) = record o { socks = Udp.on_desc_incref o.socks id }
hook_incref o (tcp6 id) = record o { conns = Tcp.on_desc_incref o.conns id }
hook_incref o _ = o

abbrev pub hook_decref : Open → Kind → Open
hook_decref o (pipe id end) = record o { pipes = Pipe.decref o.pipes id end }
hook_decref o (udp6 id) = record o { socks = Udp.on_desc_decref o.socks id }
hook_decref o (tcp6 id) = record o { conns = Tcp.on_desc_decref o.conns id }
hook_decref o _ = o

abbrev pub with_refs : ℕ → Desc → Desc
with_refs n d = record d { refs = n }

abbrev pub put_desc : Open → ℕ → Desc → Open
put_desc o didx d = record o { descs = put o.descs didx d }

unfoldable pub desc_incref : Open → ℕ → Open
desc_incref o didx =
    let d = get o.descs didx in
    if leb max_filedescs didx
    then o
    else if d.refs == 0
    then o
    else hook_incref (put_desc o didx (with_refs (add32 d.refs 1) d)) d.kind

-- The last reference clears the description.
abbrev pub less_one : Desc → Desc
less_one d = if sub32 d.refs 1 == 0 then desc_clear else with_refs (sub32 d.refs 1) d

unfoldable pub desc_decref : Open → ℕ → Open
desc_decref o didx =
    let d = get o.descs didx in
    if leb max_filedescs didx
    then o
    else if d.refs == 0
    then o
    else put_desc (hook_decref o d.kind) didx (less_one d)

-- `fd_table_t`: `none` stands for the negative numbers of unused descriptors.
abbrev pub FdTable : Type 0
FdTable = Table (Option ℕ)

-- The index of `fd_get_desc_idx`; `none` for -1.
unfoldable pub fd_get_desc_idx : Open → FdTable → ℕ → Option ℕ
fd_get_desc_idx o t fd = elim (get t fd) [
  | none ↦ none
  | some didx ↦
      if leb max_fds fd
      then none
      else if leb max_filedescs didx
      then none
      else if (get o.descs didx).refs == 0
      then none
      else some didx
]

abbrev pub is_none : Option ℕ → Bool
is_none none = true
is_none (some i) = false

-- The callers pass descriptor 0 or more as `min_fd`, and the index of a description.
unfoldable pub fd_alloc_into : Open → FdTable → ℕ → ℕ → (Open × FdTable) × Option ℕ
fd_alloc_into o t min_fd didx = elim (first (λ fd. is_none (get t fd)) min_fd (max_fds - min_fd)) [
  | none ↦ ((o, t), none)
  | some fd ↦ ((desc_incref o didx, put t fd (some didx)), some fd)
]

unfoldable pub fd_close : Open → FdTable → ℕ → Open × FdTable
fd_close o t fd = elim (get t fd) [
  | none ↦ (o, t)
  | some didx ↦ if leb max_fds fd then (o, t) else (desc_decref o didx, put t fd none)
]

-- The loop of `proc_close_all_fds` (proc.c), from descriptor `fd` on.
unfoldable pub close_from : ℕ → ℕ → Open → FdTable → Open × FdTable
close_from zero fd o t = (o, t)
close_from (suc n) fd o t = let (o', t') = fd_close o t fd in close_from n (fd + 1) o' t'

unfoldable pub proc_close_all_fds : Open → FdTable → Open × FdTable
proc_close_all_fds o t = close_from max_fds 0 o t
