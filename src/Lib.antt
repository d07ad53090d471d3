-- ===== src/Lib.antt =====
-- mona-rpzero: models of parts of the kernel under kernel-aarch64, and what holds of them.
--
-- The program is a small kernel with a Linux-like set of system calls. System calls work on open
-- descriptions, which lead to pipes, to files of a writable overlay or to files of a boot archive;
-- processes live in pages that a physical page allocator hands out. All state is in fixed global
-- tables, and the kernel runs one handler at a time. A model is therefore a pure function from the
-- tables a C function reads to the tables it leaves and the value it returns.
--
-- Which file models which part:
--   Prelude    shared helpers: tables as total functions from an index (Prelude/Arrays), the search
--              for the first index (Prelude/Search), unsigned arithmetic with its wrap-around
--              (Prelude/Words), bytes of a bitmap (Prelude/Bits), sums, results, error numbers.
--   Pipe       kernel-aarch64/pipe.c. `Pipes` is g_pipes; init, create, abort, incref, decref, read
--              and write are the functions pipe_init to pipe_write. Pipe/Channel is the abstract
--              pipe, a queue of bytes with counts of readers and writers; Pipe/Ring has the
--              invariant of the ring and Pipe/Refine, Pipe/Slots, Pipe/History the theorems.
--   Pmm        kernel-aarch64/pmm.c. `Pmm` is the bitmap with the numbers beside it; reserve_range,
--              init, alloc_page, free_page, alloc_2mib_aligned and free_2mib_aligned keep the names
--              of the C functions. Pmm/Invariant says that the counter agrees with the bitmap.
--   Vfs        kernel-aarch64/vfs.c. `Vfs` is the three tables g_ramdirs, g_ramfiles and g_raminodes;
--              a function vfs_x is x. Vfs/Invariant says that names are unique and that an inode has
--              as many links as names; Vfs/Create, Link, Unlink, Dirs, Rmdir, Rename, Attr and Start
--              have one operation each.
--   Cpio       kernel-aarch64/cpio_newc.c. The archive is the memory from its first byte on;
--              parse_one, cpio_newc_find and cpio_newc_foreach keep their names. Cpio/Bounds says
--              what parse_one accepts, Cpio/Loops that the loops end, Cpio/Archive what they give.
--   Path       kernel-aarch64/sys_util.c. user_range_ok, normalize_abs_path, resolve_path,
--              abs_path_to_no_slash_trim, abs_path_parent_dir and copy_cstr_from_user keep their names.
--              Path/Names is the abstract view, a stack of names and what a component does to it;
--              Path/Normal, Stack, Again, Resolve and Parent are about paths, Path/User and
--              Path/Memory, which has the writers and readers, about user memory.
--   Klog       kernel-aarch64/klog.c. klog_putc, klog_len, klog_at and klog_clear keep their names;
--              Klog/Newest says that the ring holds the newest bytes.
--   Lookup     kernel-aarch64/initramfs.c (initramfs_init, initramfs_lookup) and vfs_lookup_abs of
--              kernel-aarch64/vfs.c, which tries the overlay and then the archive; Lookup/Order says
--              which of them a path leads to.
--   Udp, Tcp   kernel-aarch64/net_ipv6.c, the sockets. A function net_udp6_x is Udp.x (udp6_x likewise),
--              net_tcp6_x is Tcp.x. Udp/Ports is about the ports of the
--              sockets, Udp/Deliver about what the calls keep and whom a datagram reaches.
--   Fd         kernel-aarch64/fd.c, every function by its name, and proc_close_all_fds of proc.c. `Open`
--              is g_descs with the tables that its hooks change. Fd/Counts and Fd/Shared compare the
--              counters with the references, Fd/Keep the references with the descriptors.
--   Calls      kernel-aarch64/sys_fs.c, sys_close, sys_dup3 and sys_pipe2, and the part of sys_clone
--              (sys_proc.c) that shares descriptors. Calls/Close, Calls/Fresh, Frame, Undo, Install,
--              NewPipe and
--              Inherit have one call each or a part of it; Calls/Processes is about any sequence of
--              calls of all processes, Calls/Start about the start.
--   Mmap       kernel-aarch64/sys_proc.c: sys_brk, sys_mmap and sys_munmap with their helpers; `Space`
--              has the fields of proc_t that they use. Mmap/Areas has the invariant, Mmap/Limits the guards, Mmap/Map,
--              Search and Call are about sys_mmap, Cuts, Round and Unmap about sys_munmap, Brk about sys_brk,
--              Mmap/Empty about the area of no bytes.
--   Sched      kernel-aarch64/proc.c and sched.c, udp6_wake_waiters of net_ipv6.c, and exit, kill and
--              wait4 of sys_proc.c: `Proc` has the fields of proc_t for the state, the waits and the
--              result; `pass` is one round of sched_pick_next_runnable, `end_process` what exit and
--              kill share. Sched/Fair is about the rotation, Sched/Children says what the tests
--              of the table mean, Sched/Ends is about the end of a process, Sched/Waits about wait4,
--              Sched/Books about the descriptors of processes that end.
-- In each part the module Tests runs the functions on concrete tables.
--
-- How the state corresponds: an array is a `Table`, whose entries beyond the array's size no function
-- reads or writes; a C string is the list of its bytes without the zero; a null pointer is `none`, or
-- the empty list where the code treats both alike; a negative return value -E is `err E`. Numbers are
-- natural numbers with the wrap-around of their C type written out where a sum or a difference may
-- leave it.
--
-- Loops: a loop over a constant range is structural. The loops of reserve_range and
-- pmm_alloc_2mib_aligned run on fuel, one more than the number of pages and the number of pages; every
-- round takes at least a page. Those of the archive reader run on one more than the bytes of the
-- archive, and every entry takes at least its header; that of normalize_abs_path on one more than the
-- bytes of the path, of which every round takes one. Running out is a value of its own there. The search of
-- sys_mmap and the loop of proc_recompute_mmap_next run on one more than the address they start from,
-- which every round lowers; running out is `none`.
--
-- Where the code waits: `sched_pick_next_runnable` takes what its passes see as a list, and is `none`
-- if the list ends before a pass decides.
--
-- Not modelled: what the code prints, hardware registers and assembly; saved register frames and
-- address spaces, so clone beyond the descriptors and execve; the listing of directories
-- (vfs_list_dir, initramfs_list_dir); the system calls on files beyond close, dup3 and pipe2; the
-- completion of pending reads when a process is switched to; the exchange of TCP segments, the
-- neighbour cache and the rest of the network stack; the drivers and the user programs.
pub mod Prelude
pub mod Pipe
pub mod Pmm
pub mod Vfs
pub mod Cpio
pub mod Path
pub mod Klog
pub mod Lookup
pub mod Sched
pub mod Mmap
pub mod Udp
pub mod Tcp
pub mod Fd
pub mod Calls
