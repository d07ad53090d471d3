-- ===== src/Calls/Start.antt =====
-- The books at the start of the kernel: no description has references.
use mona_rpzero.Prelude.{
  ℕ, ◌<◌, ◌≡◌, refl, sym, ap, ◌∙◌, false, none, some, Table, get, get-for_below, for_below, lt→ltb,
  arith,
}
use mona_rpzero.Pipe
use mona_rpzero.Pipe.{Pipe, Pipes}
use mona_rpzero.Udp
use mona_rpzero.Udp.{Udp, Sock}
use mona_rpzero.Tcp
use mona_rpzero.Tcp.{Conn}
use mona_rpzero.Fd.{Open, Desc, fd_init, desc_clear}
use mona_rpzero.Fd.Counts.{Key, reader, writer, sock, conn, InRange, counter}
use mona_rpzero.Fd.Shared.{users-zero}
use mona_rpzero.Fd.Keep.{weight_zero}
use mona_rpzero.Calls.Processes.{FdTables, IsBalanced, all_fds_to-none}

-- The tables after `fd_init`, `pipe_init`, `net_udp6_init` and `net_tcp6_init`.
abbrev pub started : Table Desc → Pipes → Udp → Table Conn → Open
started descs pipes udp conns = record {
  descs = fd_init descs;
  pipes = Pipe.init pipes;
  socks = (Udp.init udp).socks;
  conns = Tcp.init conns;
}

clash : {d : ℕ} → none ≡ some d → ⊥
clash e = cc

entry_below {ℓ} :
    {A : Type ℓ} (n : ℕ) (f : A → A) (t : Table A) (i : ℕ)
    → i < n
    → get (for_below n f t) i ≡ f (get t i)
entry_below n f t i lt = rw (get-for_below n f t i, lt→ltb i n lt) refl

module _ (descs : Table Desc) (pipes : Pipes) (udp : Udp) (conns : Table Conn) where
  no_counts : (key : Key) → InRange key → counter (started descs pipes udp conns) key ≡ 0
  unfolding Pipe.init Udp.init Tcp.init
  no_counts (reader id) lt = ap Pipe.read_refs (entry_below 16 (Pipe.reset false) pipes id lt)
  no_counts (writer id) lt = ap Pipe.write_refs (entry_below 16 (Pipe.reset false) pipes id lt)
  no_counts (sock id) lt = ap Sock.refs (entry_below 8 (Udp.clean false 0) udp.socks id lt)
  no_counts (conn id) lt = ap Conn.refs (entry_below 8 (Tcp.clean false 0) conns id lt)

  cleared : (i : ℕ) → i < 64 → get (fd_init descs) i ≡ desc_clear
  unfolding fd_init
  cleared i lt = entry_below 64 (λ d. desc_clear) descs i lt

  -- After the initialisations, whatever the memory held, and with no descriptor in any process, the
  -- books are balanced.
  pub started-IsBalanced :
      (ts : FdTables)
      → ((p fd : ℕ) → p < 16 → fd < 32 → get (get ts p) fd ≡ none)
      → IsBalanced (started descs pipes udp conns) ts
  started-IsBalanced ts empty = record {
    shared = record {
      counted = λ key near. omega (
        arith,
        no_counts key near,
        users-zero (fd_init descs) key
            (λ i lt. weight_zero (get (fd_init descs) i) key (ap Desc.refs (cleared i lt))),
      );
      alive = λ key near pos. absurd (omega (arith, no_counts key near));
    };
    refs = λ d lt. ap Desc.refs (cleared d lt) ∙ sym (all_fds_to-none ts d empty);
    targets = λ p fd d p_lt fd_lt e. absurd (clash (sym (empty p fd p_lt fd_lt) ∙ e));
  }
