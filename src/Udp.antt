-- ===== src/Udp.antt =====
-- kernel-aarch64/net_ipv6.c, the UDP sockets: a table of eight sockets, each with a queue of at most
-- eight datagrams.
pub mod Ports
pub mod Deliver
mod Tests
use mona_rpzero.Prelude.{
  ℕ, zero, suc, ◌+◌, ◌-◌, ◌%◌, ◌^◌, Bool, true, false, not, ◌&&◌, Option, none, some, List, [],
  length, take, ltb, leb, ◌==◌, if◌then◌else◌, Table, get, put, for_below, first, Result, ok, err,
  add32, sub32,
}
use mona_rpzero.Prelude.Errno

abbrev pub max_socks : ℕ
max_socks = 8

abbrev pub queue_len : ℕ
queue_len = 8

abbrev pub udp6_max_payload : ℕ
udp6_max_payload = 1500

-- `udp6_dgram_t`. `bytes` holds the bytes that were stored; those behind them are never read.
pub record Dgram : Type 0 where
  pub src_ip : List ℕ
  pub src_port : ℕ
  pub dst_port : ℕ
  pub len : ℕ
  pub bytes : List ℕ

-- `udp6_sock_t`
pub record Sock : Type 0 where
  pub used : Bool
  pub refs : ℕ
  pub bound : Bool
  pub bound_port : ℕ
  pub q_head : ℕ
  pub q_tail : ℕ
  pub q_count : ℕ
  pub q : Table Dgram

-- `g_udp6` and `g_udp6_ephemeral_next`
pub record Udp : Type 0 where
  pub socks : Table Sock
  pub ephemeral_next : ℕ

-- The assignments that `net_udp6_init`, `net_udp6_socket_alloc` and `net_udp6_on_desc_decref` share;
-- the datagrams stay.
abbrev pub clean : Bool → ℕ → Sock → Sock
clean used refs s = record s {
  used = used;
  refs = refs;
  bound = false;
  bound_port = 0;
  q_head = 0;
  q_tail = 0;
  q_count = 0;
}

abbrev pub first_ephemeral : ℕ
first_ephemeral = 49152

unfoldable pub init : Udp → Udp
init u = record {
  socks = for_below max_socks (clean false 0) u.socks;
  ephemeral_next = first_ephemeral;
}

-- `net_udp6_on_desc_incref` on the socket itself
abbrev pub join_sock : Sock → Sock
join_sock s = if not s.used then s else record s { refs = add32 s.refs 1 }

-- `net_udp6_on_desc_decref` on the socket itself
abbrev pub leave_sock : Sock → Sock
leave_sock s =
    let refs = if ltb 0 s.refs then sub32 s.refs 1 else s.refs in
    if not s.used then s else if refs == 0 then clean false refs s else record s { refs = refs }

abbrev pub at_sock : Table Sock → ℕ → (Sock → Sock) → Table Sock
at_sock t sock_id f = if leb max_socks sock_id then t else put t sock_id (f (get t sock_id))

unfoldable pub on_desc_incref : Table Sock → ℕ → Table Sock
on_desc_incref t sock_id = at_sock t sock_id join_sock

unfoldable pub on_desc_decref : Table Sock → ℕ → Table Sock
on_desc_decref t sock_id = at_sock t sock_id leave_sock

-- The callers pass a pointer to a local.
unfoldable pub socket_alloc : Table Sock → Table Sock × Result ℕ
socket_alloc t = elim (first (λ i. not (get t i).used) 0 max_socks) [
  | none ↦ (t, err Errno.enomem)
  | some i ↦ (put t i (clean true 1 (get t i)), ok i)
]

-- Socket `i` is bound to the port, and is not the one to skip.
abbrev pub holds_port : Table Sock → ℕ → ℕ → ℕ → Bool
holds_port t port skip_sid i =
    (not (i == skip_sid) && (get t i).used) && ((get t i).bound && (get t i).bound_port == port)

abbrev pub is_found : Option ℕ → Bool
is_found none = false
is_found (some i) = true

unfoldable pub port_in_use : Table Sock → ℕ → ℕ → Bool
port_in_use t port skip_sid =
    if port == 0 then true else is_found (first (holds_port t port skip_sid) 0 max_socks)

abbrev pub bind_to : ℕ → Sock → Sock
bind_to port s = record s { bound = true; bound_port = port }

-- `g_udp6_ephemeral_next++` and its correction
abbrev pub next_ephemeral : ℕ → ℕ
next_ephemeral p = let q = (p + 1) % 2 ^ 16 in if ltb q first_ephemeral then first_ephemeral else q

-- The loop of `udp6_bind_ephemeral`, with `tries` left.
pub try_ports : ℕ → Udp → ℕ → Udp × Result ℕ
try_ports zero u sid = (u, err Errno.eaddrinuse)
try_ports (suc tries) u sid =
    let p = u.ephemeral_next in
    let u' = record u { ephemeral_next = next_ephemeral p } in
    let rest = try_ports tries u' sid in
    if not (port_in_use u.socks p sid)
    then (record u' { socks = put u.socks sid (bind_to p (get u.socks sid)) }, ok p)
    else rest

abbrev pub max_tries : ℕ
max_tries = 1024

-- The port goes through `out_port`, where that is not null.
unfoldable pub bind_ephemeral : Udp → ℕ → Udp × Result ℕ
bind_ephemeral u sid =
    if leb max_socks sid
    then (u, err Errno.einval)
    else if not (get u.socks sid).used
    then (u, err Errno.ebadf)
    else try_ports max_tries u sid

-- The port bound stands for the 0 that C returns.
unfoldable pub bind : Udp → ℕ → ℕ → Udp × Result ℕ
bind u sock_id port =
    if leb max_socks sock_id
    then (u, err Errno.ebadf)
    else if not (get u.socks sock_id).used
    then (u, err Errno.ebadf)
    else if port == 0
    then bind_ephemeral u sock_id
    else if port_in_use u.socks port sock_id
    then (u, err Errno.eaddrinuse)
    else (record u { socks = put u.socks sock_id (bind_to port (get u.socks sock_id)) }, ok port)

-- The copy that `net_udp6_try_recv` makes.
abbrev pub copied : Dgram → Dgram
copied d = record d { bytes = take d.len d.bytes }

-- The end of `net_udp6_try_recv`: the oldest datagram leaves the queue.
abbrev pub pop : Sock → Sock
pop s = record s { q_head = (s.q_head + 1) % queue_len; q_count = (s.q_count + 256 - 1) % 256 }

unfoldable pub try_recv : Table Sock → ℕ → Table Sock × Result Dgram
try_recv t sock_id =
    let s = get t sock_id in
    if leb max_socks sock_id
    then (t, err Errno.ebadf)
    else if not s.used
    then (t, err Errno.ebadf)
    else if s.q_count == 0
    then (t, err Errno.eagain)
    else (put t sock_id (pop s), ok (copied (get s.q s.q_head)))

-- The part of `udp6_deliver` on one socket that stores the datagram.
abbrev pub push : Dgram → Sock → Sock
push d s = record s {
  q = put s.q s.q_tail d;
  q_tail = (s.q_tail + 1) % queue_len;
  q_count = (s.q_count + 1) % 256;
}

-- The socket takes the datagram: used, bound to its port, with room.
abbrev pub takes : ℕ → Sock → Bool
takes dst_port s =
    (s.used && s.bound) && (s.bound_port == dst_port && not (leb queue_len s.q_count))

abbrev pub deliver_to : Dgram → Sock → Sock
deliver_to d s = if takes d.dst_port s then push d s else s

-- `udp6_deliver` on the sockets; which processes it wakes is in Sched.
unfoldable pub deliver : Table Sock → List ℕ → ℕ → ℕ → List ℕ → Table Sock
deliver t src_ip src_port dst_port payload =
    if ltb udp6_max_payload (length payload)
    then t
    else for_below max_socks
        (deliver_to (record {
          src_ip = src_ip;
          src_port = src_port;
          dst_port = dst_port;
          len = length payload % 2 ^ 16;
          bytes = payload;
        }))
        t
