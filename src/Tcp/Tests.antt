-- ===== src/Tcp/Tests.antt =====
-- Runs of the TCP connections.
use mona_rpzero.Prelude.{◌≡◌, refl, true, false, [], Table, table, get, put, ok, first, for_below}
use mona_rpzero.Tcp.{
  Conn, closed, init, conn_alloc, on_desc_incref, on_desc_decref, next_ephemeral_port, try_ports,
}

-- The memory before the initialisation.
abbrev memory : Table Conn
memory = table (λ i. record {
  used = true;
  state = closed;
  refs = 5;
  local_port = 40000;
  remote_port = 0;
  remote_ip = [];
  iss = 0;
  snd_una = 0;
  snd_nxt = 0;
  irs = 0;
  rcv_nxt = 0;
  rx = table (λ j. 0);
  rx_head = 0;
  rx_tail = 0;
  rx_count = 0;
  last_syn_tx_ns = 0;
})

abbrev one_open : Table Conn
one_open = (conn_alloc (init memory)).0

second_place : (conn_alloc one_open).1 ≡ ok 1
unfolding conn_alloc first init for_below get put
second_place = refl

-- The last reference frees the connection, the one before does not.
shared : (get (on_desc_decref (on_desc_incref one_open 0) 0) 0).used ≡ true
unfolding conn_alloc first init for_below get put on_desc_decref on_desc_incref
shared = refl

freed : (get (on_desc_decref one_open 0) 0).used ≡ false
unfolding conn_alloc first init for_below get put on_desc_decref
freed = refl

port_skipped : next_ephemeral_port memory 40000 ≡ (40002, 40001)
unfolding next_ephemeral_port try_ports first get
port_skipped = refl
