-- ===== src/Tcp.antt =====
-- kernel-aarch64/net_ipv6.c, the table of TCP connections: how a connection is handed out, shared by
-- descriptions and freed. The exchange of segments is left out.
mod Tests
use mona_rpzero.Prelude.{
  ℕ, zero, suc, ◌+◌, ◌-◌, ◌%◌, ◌^◌, Bool, true, false, not, ◌&&◌, Option, none, some, List, [], ◌∷◌,
  ltb, leb, ◌==◌, if◌then◌else◌, Table, get, put, for_below, first, Result, ok, err,
}
use mona_rpzero.Prelude.Errno

abbrev pub tcp6_max_conns : ℕ
tcp6_max_conns = 8

-- `tcp6_state_t`
pub data State : Type 0 where
  closed : State
  syn_sent : State
  established : State
  close_wait : State

-- `tcp6_conn_t`
pub record Conn : Type 0 where
  pub used : Bool
  pub state : State
  pub refs : ℕ
  pub local_port : ℕ
  pub remote_port : ℕ
  pub remote_ip : List ℕ
  pub iss : ℕ
  pub snd_una : ℕ
  pub snd_nxt : ℕ
  pub irs : ℕ
  pub rcv_nxt : ℕ
  pub rx : Table ℕ
  pub rx_head : ℕ
  pub rx_tail : ℕ
  pub rx_count : ℕ
  pub last_syn_tx_ns : ℕ

abbrev pub no_ip : List ℕ
no_ip = 0 ∷ 0 ∷ 0 ∷ 0 ∷ 0 ∷ 0 ∷ 0 ∷ 0 ∷ 0 ∷ 0 ∷ 0 ∷ 0 ∷ 0 ∷ 0 ∷ 0 ∷ 0 ∷ []

-- The assignments that `net_tcp6_init` and `net_tcp6_conn_alloc` share; the bytes received stay.
abbrev pub clean : Bool → ℕ → Conn → Conn
clean used refs c = record {
  used = used;
  state = closed;
  refs = refs;
  local_port = 0;
  remote_port = 0;
  remote_ip = no_ip;
  iss = 0;
  snd_una = 0;
  snd_nxt = 0;
  irs = 0;
  rcv_nxt = 0;
  rx = c.rx;
  rx_head = 0;
  rx_tail = 0;
  rx_count = 0;
  last_syn_tx_ns = 0;
}

unfoldable pub init : Table Conn → Table Conn
init = for_below tcp6_max_conns (clean false 0)

-- `net_tcp6_on_desc_incref` behind `tcp6_get`
abbrev pub join_conn : Conn → Conn
join_conn c =
    if not c.used then c else if ltb c.refs 0xffff then record c { refs = c.refs + 1 } else c

-- `net_tcp6_on_desc_decref` behind `tcp6_get`
abbrev pub leave_conn : Conn → Conn
leave_conn c =
    if not c.used
    then c
    else if c.refs == 0
    then c
    else if c.refs - 1 == 0
    then record c { refs = c.refs - 1; used = false; state = closed }
    else record c { refs = c.refs - 1 }

-- `tcp6_get` and the function on the connection that it gives: none beyond the table. Both functions
-- above leave a connection that is not in use.
abbrev pub at_conn : Table Conn → ℕ → (Conn → Conn) → Table Conn
at_conn t conn_id f = if leb tcp6_max_conns conn_id then t else put t conn_id (f (get t conn_id))

unfoldable pub on_desc_incref : Table Conn → ℕ → Table Conn
on_desc_incref t conn_id = at_conn t conn_id join_conn

unfoldable pub on_desc_decref : Table Conn → ℕ → Table Conn
on_desc_decref t conn_id = at_conn t conn_id leave_conn

unfoldable pub conn_alloc : Table Conn → Table Conn × Result ℕ
conn_alloc t = elim (first (λ i. not (get t i).used) 0 tcp6_max_conns) [
  | none ↦ (t, err Errno.enomem)
  | some i ↦ (put t i (clean true 1 (get t i)), ok i)
]

-- The loop of `tcp6_next_ephemeral_port`, with `tries` left, and the counter that it leaves; 0 for no
-- port.
abbrev pub has_port : Table Conn → ℕ → ℕ → Bool
has_port t p i = (get t i).used && (get t i).local_port == p

abbrev pub next_port : ℕ → ℕ
next_port p = let q = (p + 1) % 2 ^ 16 in if ltb q 40000 then 40000 else q

pub try_ports : ℕ → Table Conn → ℕ → ℕ × ℕ
try_ports zero t p = (p, 0)
try_ports (suc tries) t p =
    let rest = try_ports tries t (next_port p) in
    if p == 0
    then rest
    else elim (first (has_port t p) 0 tcp6_max_conns) [ none ↦ (next_port p, p) | some i ↦ rest ]

unfoldable pub next_ephemeral_port : Table Conn → ℕ → ℕ × ℕ
unfolding try_ports
next_ephemeral_port t ephemeral = try_ports 2000 t ephemeral
