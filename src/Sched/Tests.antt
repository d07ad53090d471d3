-- ===== src/Sched/Tests.antt =====
-- Runs of the scheduler, and of the end of a process.
use mona_rpzero.Prelude.{
  ◌+◌, ℕ, ◌<◌, ◌≡◌, refl, inl, Bool, false, true, Option, none, [], Table, table, get, put, arith,
  ok, first,
}
use mona_rpzero.Path.{user_region_base, user_range_ok}
use mona_rpzero.Path.Memory.{put_word}
use mona_rpzero.Pmm.{Pmm}
use mona_rpzero.Fd.{Open}
use mona_rpzero.Pipe.{Pipe}
use mona_rpzero.Sched.{
  Proc, State, Kernel, proc_clear, runnable, waiting, zombie, picked, end_process, sys_wait4,
  Waited, sys_kill,
}
use mona_rpzero.Sched.Fair.{pick_at, picked_in_sixteen}
use mona_rpzero.Sched.Ends.{EndOutcome, end_process-EndOutcome}
use mona_rpzero.Sched.Waits.{WaitOutcome, sys_wait4-WaitOutcome}
use mona_rpzero.Sched.Books.{Balanced, HasNoFds, ends-Balanced}
use mona_rpzero.Calls.Start.{started, started-IsBalanced}
use mona_rpzero.Udp.{Udp}
use mona_rpzero.Tcp.{Conn, closed}
use mona_rpzero.Fd.{desc_clear}

abbrev proc_with : ℕ → ℕ → State → Proc
proc_with pid ppid state = record proc_clear { pid = pid; ppid = ppid; state = state }

-- The first process waits for its child, the second.
abbrev two_procs : Table Proc
two_procs = put (put (table (λ i. proc_clear)) 0 (proc_with 1 0 waiting)) 1 (proc_with 2 1 runnable)

fair_example : (k : ℕ) × (k < 16) × (pick_at (λ m. two_procs) (λ m. 5) 0 k ≡ picked 1)
unfolding get put
fair_example =
    picked_in_sixteen (λ m. two_procs) (λ m. 5) 0 1 (omega arith) (omega arith) (λ m. inl refl)

abbrev some_pipes : Table Pipe
some_pipes = table (λ i. record {
  used = true;
  buf = table (λ j. 0);
  rpos = 0;
  wpos = 0;
  count = 0;
  read_refs = 1;
  write_refs = 1;
})

abbrev some_udp : Udp
some_udp = record {
  socks = table (λ i. record {
    used = true;
    refs = 5;
    bound = true;
    bound_port = 53;
    q_head = 0;
    q_tail = 0;
    q_count = 0;
    q = table (λ j. record { src_ip = []; src_port = 0; dst_port = 0; len = 0; bytes = [] });
  });
  ephemeral_next = 0;
}

abbrev some_conns : Table Conn
some_conns = table (λ i. record {
  used = true;
  state = closed;
  refs = 5;
  local_port = 0;
  remote_port = 0;
  remote_ip = [];
  iss = 0;
  snd_una = 0;
  snd_nxt = 0;
  irs = 0;
  rcv_nxt = 0;
  rx = table (λ j. 0);
  rx_head = 0;
  rx_tail = 0;
  rx_count = 0;
  last_syn_tx_ns = 0;
})

abbrev some_open : Open
some_open = started (table (λ i. desc_clear)) some_pipes some_udp some_conns

abbrev some_pmm : Pmm
some_pmm = record {
  bitmap = table (λ i. 0);
  base = 0;
  size = 0x800000;
  page_size = 4096;
  total_pages = 2048;
  free_pages = 2048;
}

abbrev kernel : Kernel
kernel = record {
  procs = two_procs;
  files = some_open;
  fdts = table (λ p. table (λ fd. none));
  mems = table (λ p. table (λ a. 0));
  pmm = some_pmm;
}

-- The parent wants the status at the start of the user region, and the child has an address to clear
-- eight bytes on.
abbrev waited_for : Kernel
waited_for = record kernel {
  procs =
      put
        (put (table (λ i. proc_clear)) 0
          (record (proc_with 1 0 waiting) { wait_status_user = user_region_base }))
        1 (record (proc_with 2 1 runnable) { clear_child_tid_user = user_region_base + 8 });
  mems = table (λ p. table (λ a. 7));
}

abbrev parent_memory : Table ℕ
parent_memory = get (end_process waited_for 1 3).mems 0

-- The status word 0x300 stands in the parent's memory.
status_stored :
    (get parent_memory user_region_base ≡ 0)
    × (get parent_memory (user_region_base + 1) ≡ 3)
    × (get parent_memory (user_region_base + 4) ≡ 7)
unfolding end_process get first put user_range_ok put_word
status_stored = (refl, refl, refl)

tid_zeroed : get (get (end_process waited_for 1 3).mems 1) (user_region_base + 8) ≡ 0
unfolding end_process get first put user_range_ok put_word
tid_zeroed = refl

end_example : EndOutcome waited_for 1 3 (end_process waited_for 1 3)
end_example = end_process-EndOutcome waited_for 1 3

-- The child has ended with a code of 3 and was not waited for.
abbrev ended : Kernel
ended = record kernel {
  procs =
      put (put (table (λ i. proc_clear)) 0 (proc_with 1 0 runnable)) 1
        (record (proc_with 2 1 zombie) { exit_code = 3 });
}

reaps_child : (sys_wait4 ended 0 none 0 false).1 ≡ Waited.returns (ok 2)
unfolding sys_wait4 get put first
reaps_child = refl

wait_example : WaitOutcome ended 0 none 0 false (sys_wait4 ended 0 none 0 false)
wait_example = sys_wait4-WaitOutcome ended 0 none 0 false

kernel-Balanced : Balanced kernel
unfolding get
kernel-Balanced =
    started-IsBalanced (table (λ i. desc_clear)) some_pipes some_udp some_conns kernel.fdts
      (λ p fd p_lt fd_lt. refl)

ends_example :
    ((idx code : ℕ)
      → idx < 16
      → Balanced (end_process kernel idx code) × HasNoFds (end_process kernel idx code) idx)
    × ((cur : ℕ) (pid : Option ℕ) (sig : ℕ) → Balanced (sys_kill kernel cur pid sig).0)
    × ((cur : ℕ) (pid_req : Option ℕ) (wstatus_user : ℕ) (nohang : Bool)
        → Balanced (sys_wait4 kernel cur pid_req wstatus_user nohang).0)
ends_example = ends-Balanced kernel kernel-Balanced
