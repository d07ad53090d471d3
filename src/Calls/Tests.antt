-- ===== src/Calls/Tests.antt =====
-- Runs of the system calls on descriptors, from the start of the kernel.
use mona_rpzero.Prelude.{
  ℕ, zero, ◌-◌, ◌≡◌, refl, true, false, none, some, List, [], ◌∷◌, Table, table, get, slice, Result,
  ok, err, arith,
}
use mona_rpzero.Path.{user_region_base}
use mona_rpzero.Pipe.{Pipe}
use mona_rpzero.Udp.{Sock}
use mona_rpzero.Tcp.{Conn, closed}
use mona_rpzero.Fd.{Open, FdTable, desc_clear, pipe, proc_close_all_fds}
use mona_rpzero.Calls.{sys_close, sys_pipe2, inherit_fds}
use mona_rpzero.Calls.Close.{CloseOutcome, sys_close-CloseOutcome}
use mona_rpzero.Calls.Processes.{
  FdTables, IsBalanced, Step, done, more, updated, others, Steps-IsBalanced, balanced-IsCounted,
  Step-IsBalanced,
}
use mona_rpzero.Calls.Start.{started, started-IsBalanced}

abbrev some_pipe : Pipe
some_pipe = record {
  used = true;
  buf = table (λ i. 7);
  rpos = 3;
  wpos = 4;
  count = 1;
  read_refs = 2;
  write_refs = 2;
}

abbrev some_sock : Sock
some_sock = record {
  used = true;
  refs = 5;
  bound = true;
  bound_port = 53;
  q_head = 0;
  q_tail = 0;
  q_count = 0;
  q = table (λ i. record { src_ip = []; src_port = 0; dst_port = 0; len = 0; bytes = [] });
}

abbrev some_conn : Conn
some_conn = record {
  used = true;
  state = closed;
  refs = 5;
  local_port = 0;
  remote_port = 0;
  remote_ip = [];
  iss = 0;
  snd_una = 0;
  snd_nxt = 0;
  irs = 0;
  rcv_nxt = 0;
  rx = table (λ i. 0);
  rx_head = 0;
  rx_tail = 0;
  rx_count = 0;
  last_syn_tx_ns = 0;
}

abbrev base : Open
base =
    started (table (λ i. desc_clear)) (table (λ i. some_pipe))
      (record { socks = table (λ i. some_sock); ephemeral_next = 0 }) (table (λ i. some_conn))

abbrev no_fds : FdTables
no_fds = table (λ p. table (λ fd. none))

base-IsBalanced : IsBalanced base no_fds
unfolding get
base-IsBalanced =
    started-IsBalanced (table (λ i. desc_clear)) (table (λ i. some_pipe))
      (record { socks = table (λ i. some_sock); ephemeral_next = 0 }) (table (λ i. some_conn))
      no_fds (λ p fd p_lt fd_lt. refl)

start_example : IsBalanced base no_fds
unfolding get
start_example =
    started-IsBalanced (table (λ i. desc_clear)) (table (λ i. some_pipe))
      (record { socks = table (λ i. some_sock); ephemeral_next = 0 }) (table (λ i. some_conn))
      no_fds (λ p fd p_lt fd_lt. refl)

abbrev memory : Table ℕ
memory = table (λ i. 9)

-- Process 0 opens a pipe.
abbrev with_pipe : Open × FdTables
with_pipe = updated no_fds 0 (sys_pipe2 base (get no_fds 0) memory user_region_base 0).0

opens : Step (base, no_fds) with_pipe
opens = Step.new_pipe base no_fds 0 memory user_region_base 0 (omega arith)

with_pipe-IsBalanced : IsBalanced with_pipe.0 with_pipe.1
with_pipe-IsBalanced = Step-IsBalanced base-IsBalanced opens

-- Then it closes the read end.
abbrev read_closed : Open × FdTables
read_closed = updated with_pipe.1 0 (sys_close with_pipe.0 (get with_pipe.1 0) 0).0

closes : Step with_pipe read_closed
closes = Step.close with_pipe.0 with_pipe.1 0 0 (omega arith)

history_example : IsBalanced read_closed.0 read_closed.1
history_example = Steps-IsBalanced base-IsBalanced (more (more (done (base, no_fds)) opens) closes)

close_example :
    CloseOutcome with_pipe.0
      (get with_pipe.1 0)
      (others with_pipe.1 0)
      1
      (sys_close with_pipe.0 (get with_pipe.1 0) 1)
close_example =
    sys_close-CloseOutcome with_pipe.0 (get with_pipe.1 0) (others with_pipe.1 0)
      (balanced-IsCounted with_pipe.0 with_pipe.1 with_pipe-IsBalanced 0 (omega arith)) 1

pipe_takes_lowest : slice (get with_pipe.1 0) 0 3 ≡ some 0 ∷ some 1 ∷ none ∷ []
unfolding get slice sys_pipe2 mona_rpzero.Prelude.put mona_rpzero.Path.user_range_ok
    mona_rpzero.Pipe.create mona_rpzero.Prelude.first mona_rpzero.Pipe.init
    mona_rpzero.Prelude.for_below mona_rpzero.Calls.describe mona_rpzero.Calls.described
    mona_rpzero.Fd.desc_alloc mona_rpzero.Fd.fd_init mona_rpzero.Calls.install
    mona_rpzero.Calls.installed mona_rpzero.Fd.fd_alloc_into mona_rpzero.Calls.report
    mona_rpzero.Path.Memory.write_bytes_to_user
pipe_takes_lowest = refl
