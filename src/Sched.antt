-- ===== src/Sched.antt =====
-- kernel-aarch64/proc.c and sched.c: the table of processes, and which of them runs next; with the
-- calls of kernel-aarch64/sys_proc.c that end and reap processes.
pub mod Fair
pub mod Children
pub mod Ends
pub mod Waits
pub mod Books
mod Tests
use mona_rpzero.Prelude.{
  ℕ, zero, suc, ◌+◌, ◌*◌, ◌%◌, Bool, true, false, not, ◌&&◌, ◌||◌, Option, none, some, List, [],
  ◌∷◌, ltb, leb, ◌==◌, if◌then◌else◌, Table, get, put, for_below, first, Result, ok, err,
}
use mona_rpzero.Prelude.Errno
use mona_rpzero.Path.{user_range_ok, user_region_base}
use mona_rpzero.Path.Memory.{put_word}
use mona_rpzero.Pmm
use mona_rpzero.Pmm.{Pmm}
use mona_rpzero.Fd.{max_fds, Open, FdTable, proc_close_all_fds}
use Prim.Native.Nat.{bit_and}

abbrev pub max_procs : ℕ
max_procs = 16

-- `proc_state_t`
pub data State : Type 0 where
  unused : State
  runnable : State
  waiting : State
  zombie : State
  sleeping : State
  blocked_io : State

-- The fields of `proc_t` that say how a process runs, waits and ends; the descriptors and the memory
-- are in Calls and Mmap. `x0` is the first saved register, where the result of a call goes. A target
-- of `none` stands for a `wait_target_pid` that is not positive.
pub record Proc : Type 0 where
  pub pid : ℕ
  pub ppid : ℕ
  pub state : State
  pub user_pa_base : ℕ
  pub x0 : ℕ
  pub exit_code : ℕ
  pub clear_child_tid_user : ℕ
  pub wait_target_pid : Option ℕ
  pub wait_status_user : ℕ
  pub sleep_deadline_ns : ℕ
  pub pending_console_read : Bool
  pub pending_udp6_recv : Bool
  pub pending_udp6_sock_id : ℕ

-- What `proc_clear` leaves in these fields; `clear_fds` is what it does to the descriptors.
abbrev pub proc_clear : Proc
proc_clear = record {
  pid = 0;
  ppid = 0;
  state = unused;
  user_pa_base = 0;
  x0 = 0;
  exit_code = 0;
  clear_child_tid_user = 0;
  wait_target_pid = none;
  wait_status_user = 0;
  sleep_deadline_ns = 0;
  pending_console_read = false;
  pending_udp6_recv = false;
  pending_udp6_sock_id = 0;
}

abbrev pub is_unused : State → Bool
is_unused unused = true
is_unused s = false

abbrev pub is_runnable : State → Bool
is_runnable runnable = true
is_runnable s = false

abbrev pub is_waiting : State → Bool
is_waiting waiting = true
is_waiting s = false

abbrev pub is_zombie : State → Bool
is_zombie zombie = true
is_zombie s = false

abbrev pub is_sleeping : State → Bool
is_sleeping sleeping = true
is_sleeping s = false

abbrev pub is_blocked : State → Bool
is_blocked blocked_io = true
is_blocked s = false

unfoldable pub proc_find_free_slot : Table Proc → Option ℕ
proc_find_free_slot t = first (λ i. is_unused (get t i).state) 0 max_procs

-- `sched_wake_sleepers` on one process
abbrev pub wake_sleeper : ℕ → Proc → Proc
wake_sleeper now p =
    if is_sleeping p.state && leb p.sleep_deadline_ns now then record p { state = runnable } else p

unfoldable pub sched_wake_sleepers : ℕ → Table Proc → Table Proc
sched_wake_sleepers now = for_below max_procs (wake_sleeper now)

-- `udp6_wake_waiters` (net_ipv6.c) on one process
abbrev pub wake_waiter : ℕ → Proc → Proc
wake_waiter sock_id p =
    if p.pending_udp6_recv && p.pending_udp6_sock_id == sock_id
    then (if is_sleeping p.state || is_blocked p.state
        then record p { state = runnable; sleep_deadline_ns = 0 }
        else p)
    else p

unfoldable pub udp6_wake_waiters : ℕ → Table Proc → Table Proc
udp6_wake_waiters sock_id = for_below max_procs (wake_waiter sock_id)

-- The process `step` places behind the one that ran last.
abbrev pub place_behind : ℕ → ℕ → ℕ
place_behind last step = (last + step) % max_procs

-- The loops over `step = 1 … MAX_PROCS`: the first process that passes, by its place.
unfoldable pub next_passing : (ℕ → Bool) → ℕ → Option ℕ
next_passing p last = elim (first (λ step. p (place_behind last step)) 1 max_procs) [
  | none ↦ none
  | some step ↦ some (place_behind last step)
]

abbrev pub reads_console : Table Proc → ℕ → Bool
reads_console t i = is_blocked (get t i).state && (get t i).pending_console_read

-- The process woken, if any; `ready` is what `console_in_has_data` returns.
unfoldable pub sched_wake_one_console_reader_if_ready :
    Bool → Table Proc → ℕ → Table Proc × Option ℕ
sched_wake_one_console_reader_if_ready ready t last =
    if not ready then (t, none) else elim (next_passing (reads_console t) last) [
      | none ↦ (t, none)
      | some idx ↦ (put t idx (record (get t idx) { state = runnable }), some idx)
    ]

-- The least deadline among the sleepers of the first `n` processes.
unfoldable pub earliest_below : ℕ → Table Proc → Option ℕ
earliest_below zero t = none
earliest_below (suc n) t =
    let p = get t n in
    if not (is_sleeping p.state) then earliest_below n t else elim (earliest_below n t) [
      | none ↦ some p.sleep_deadline_ns
      | some d ↦ if ltb p.sleep_deadline_ns d then some p.sleep_deadline_ns else some d
    ]

unfoldable pub sched_any_sleepers : Table Proc → Option ℕ
sched_any_sleepers t = earliest_below max_procs t

-- What one pass of `sched_pick_next_runnable` comes to: a process, nobody to wait for, or the wait for
-- an interrupt.
pub data Pick : Type 0 where
  picked : ℕ → Pick
  nobody : Pick
  idle : Pick

abbrev pub is_some : Option ℕ → Bool
is_some none = false
is_some (some i) = true

unfoldable pub rest_of_pass : Table Proc → ℕ → Pick
rest_of_pass t last = elim (next_passing (λ i. is_runnable (get t i).state) last) [
  | some idx ↦ picked idx
  | none ↦
      if is_some (sched_any_sleepers t)
        || is_some (first (λ i. is_blocked (get t i).state) 0 max_procs)
      then idle
      else nobody
]

-- One pass, at time `now` and after the console was polled. The process picked is `g_last_sched`.
unfoldable pub pass : ℕ → Bool → Table Proc → ℕ → Table Proc × Pick
pass now ready t last =
    let (t', woke) =
      sched_wake_one_console_reader_if_ready ready (sched_wake_sleepers now t) last in
    elim woke [ some idx ↦ (t', picked idx) | none ↦ (t', rest_of_pass t' last) ]

-- `sched_pick_next_runnable`, on what the passes see: the time, and whether there is input. Between two
-- passes the processor waits for an interrupt. `none` if the observations run out.
unfoldable pub sched_pick_next_runnable :
    List (ℕ × Bool) → Table Proc → ℕ → Option (Table Proc × Pick)
sched_pick_next_runnable [] t last = none
sched_pick_next_runnable ((now, ready) ∷ seen) t last =
    let (t', pick) = pass now ready t last in
    let again = sched_pick_next_runnable seen t' last in
    elim pick [ picked idx ↦ some (t', picked idx) | nobody ↦ some (t', nobody) | idle ↦ again ]

-- What the end of a process touches: the processes with their descriptors and their memories, and the
-- pages that are handed out.
pub record Kernel : Type 0 where
  pub procs : Table Proc
  pub files : Open
  pub fdts : Table FdTable
  pub mems : Table (Table ℕ)
  pub pmm : Pmm

-- `*(uint32_t *)p = v` in the memory of process `i`
abbrev pub store32 : Kernel → ℕ → ℕ → ℕ → Kernel
store32 k i p v = record k { mems = put k.mems i (put_word 4 v (get k.mems i) p) }

-- The descriptors of process `i` are closed.
abbrev pub close_fds : Kernel → ℕ → Kernel
close_fds k i =
    let (o, t) = proc_close_all_fds k.files (get k.fdts i) in
    record k { files = o; fdts = put k.fdts i t }

-- `*clear_child_tid = 0`, where the pointer is good.
abbrev pub clear_tid : Kernel → ℕ → Kernel
clear_tid k i =
    let p = (get k.procs i).clear_child_tid_user in
    if not (p == 0) && user_range_ok p 4 then store32 k i p 0 else k

abbrev pub become_zombie : ℕ → Proc → Proc
become_zombie code p = record p { state = zombie; exit_code = code }

-- The loop of `proc_clear` over the descriptors: none of them leads anywhere.
abbrev pub clear_fds : FdTable → FdTable
clear_fds = for_below max_fds (λ d. none)

-- The memory of the process goes back, but not that of the first one, and its entry is free.
abbrev pub reap : Kernel → ℕ → Kernel
reap k i =
    let pa = (get k.procs i).user_pa_base in
    record k {
      pmm =
          if not (pa == 0) && not (pa == user_region_base)
          then Pmm.free_2mib_aligned k.pmm pa
          else k.pmm;
      procs = put k.procs i proc_clear;
      fdts = put k.fdts i (clear_fds (get k.fdts i));
    }

-- The status word that `wait4` stores.
abbrev pub status_word : ℕ → ℕ
status_word code = bit_and code 0xff * 256

abbrev pub store_status : Kernel → ℕ → ℕ → Kernel
store_status k i code =
    let p = (get k.procs i).wait_status_user in
    if not (p == 0) && user_range_ok p 4 then store32 k i p (status_word code) else k

abbrev pub resume_with : ℕ → Proc → Proc
resume_with cpid p = record p {
  state = runnable;
  wait_target_pid = none;
  wait_status_user = 0;
  x0 = cpid;
}

abbrev pub resume : Kernel → ℕ → ℕ → Kernel
resume k i cpid = record k { procs = put k.procs i (resume_with cpid (get k.procs i)) }

-- The first process that waits and is the parent.
abbrev pub waits_as : Table Proc → ℕ → ℕ → Bool
waits_as t ppid i = is_waiting (get t i).state && (get t i).pid == ppid

abbrev pub accepts : Option ℕ → ℕ → Bool
accepts none cpid = true
accepts (some want) cpid = want == cpid

-- The parent of `idx` that waits for it gets the result, and `idx` is reaped.
unfoldable pub wake_parent : Kernel → ℕ → ℕ → Kernel
wake_parent k idx code =
    let p = get k.procs idx in
    elim (first (waits_as k.procs p.ppid) 0 max_procs) [
      | none ↦ k
      | some i ↦
          if accepts (get k.procs i).wait_target_pid p.pid
          then reap (resume (store_status k i code) i p.pid) idx
          else k
    ]

-- What `handle_exit_and_maybe_switch` and `sys_kill` do to the process that ends.
unfoldable pub end_process : Kernel → ℕ → ℕ → Kernel
unfolding wake_parent
end_process k idx code =
    let k1 = clear_tid (close_fds k idx) idx in
    wake_parent (record k1 { procs = put k1.procs idx (become_zombie code (get k1.procs idx)) }) idx
      code

abbrev pub has_pid : Table Proc → ℕ → ℕ → Bool
has_pid t pid i = not (is_unused (get t i).state) && (get t i).pid == pid

unfoldable pub proc_find_idx_by_pid : Table Proc → ℕ → Option ℕ
proc_find_idx_by_pid t pid = first (has_pid t pid) 0 max_procs

-- What `sys_kill` comes to: a result, or the exit of the caller itself with a code. The pid is `none`
-- where it is not positive.
pub data Killed : Type 0 where
  returns : Result (Unit {0}) → Killed
  exits : ℕ → Killed

unfoldable pub sys_kill : Kernel → ℕ → Option ℕ → ℕ → Kernel × Killed
sys_kill k cur none sig = (k, returns (err Errno.einval))
sys_kill k cur (some pid) sig =
    if not (sig == 0) && (not (sig == 9) && not (sig == 15))
    then (k, returns (err Errno.enosys))
    else elim (proc_find_idx_by_pid k.procs pid) [
      | none ↦ (k, returns (err Errno.esrch))
      | some idx ↦
          if sig == 0 || is_zombie (get k.procs idx).state
          then (k, returns (ok tt))
          else if idx == cur
          then (k, exits (128 + bit_and sig 0xff))
          else (end_process k idx (128 + bit_and sig 0xff), returns (ok tt))
    ]

-- A zombie child that the caller may reap.
abbrev pub reapable : Table Proc → ℕ → Option ℕ → ℕ → Bool
reapable t ppid pid_req i =
    is_zombie (get t i).state && ((get t i).ppid == ppid && accepts pid_req (get t i).pid)

abbrev pub is_child : Table Proc → ℕ → ℕ → Bool
is_child t ppid i = not (is_unused (get t i).state) && (get t i).ppid == ppid

-- What `sys_wait4` comes to: a result, 0 for no zombie yet, or the wait of the caller.
pub data Waited : Type 0 where
  returns : Result ℕ → Waited
  blocks : Waited

abbrev pub start_waiting : Option ℕ → ℕ → Proc → Proc
start_waiting pid_req wstatus_user p = record p {
  state = waiting;
  wait_target_pid = pid_req;
  wait_status_user = wstatus_user;
}

-- The status of the zombie at `found` is stored, if the caller gives an address.
abbrev pub noted : Kernel → ℕ → ℕ → ℕ → Kernel
noted k cur wstatus_user found =
    if wstatus_user == 0
    then k
    else store32 k cur wstatus_user (status_word (get k.procs found).exit_code)

-- The zombie at `found` is reaped.
abbrev pub wait_reap : Kernel → ℕ → ℕ → ℕ → Kernel × Waited
wait_reap k cur wstatus_user found =
    let p = get k.procs found in
    if not (wstatus_user == 0) && not (user_range_ok wstatus_user 4)
    then (k, Waited.returns (err Errno.efault))
    else (reap (close_fds (noted k cur wstatus_user found) found) found, Waited.returns (ok p.pid))

-- Up to the choice of another process, which `blocks` asks for and `wait_switch` completes.
unfoldable pub sys_wait4 : Kernel → ℕ → Option ℕ → ℕ → Bool → Kernel × Waited
sys_wait4 k cur pid_req wstatus_user nohang =
    let ppid = (get k.procs cur).pid in
    elim (first (reapable k.procs ppid pid_req) 0 max_procs) [
      | some found ↦ wait_reap k cur wstatus_user found
      | none ↦
          if not (is_some (first (is_child k.procs ppid) 0 max_procs))
          then (k, Waited.returns (err Errno.echild))
          else if nohang
          then (k, Waited.returns (ok 0))
          else (
            record k {
              procs = put k.procs cur (start_waiting pid_req wstatus_user (get k.procs cur));
            },
            blocks,
          )
    ]

abbrev pub stop_waiting : Proc → Proc
stop_waiting p = record p { state = runnable; wait_target_pid = none; wait_status_user = 0 }

-- What `sys_wait4` does with the choice of the scheduler: the caller is left blocked, or gives up.
unfoldable pub wait_switch : Table Proc → ℕ → Pick → Table Proc × Waited
wait_switch t cur (picked i) =
    if not (i == cur)
    then (t, blocks)
    else (put t cur (stop_waiting (get t cur)), Waited.returns (err Errno.eagain))
wait_switch t cur pick = (put t cur (stop_waiting (get t cur)), Waited.returns (err Errno.eagain))
