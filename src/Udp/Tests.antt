-- ===== src/Udp/Tests.antt =====
-- Runs of the UDP sockets.
use mona_rpzero.Prelude.{
  ℕ, ◌≡◌, ◌≢◌, refl, ap, true, [], ◌∷◌, Table, table, get, put, ok, err, arith, first, for_below,
}
use mona_rpzero.Prelude.Errno
use mona_rpzero.Udp.{
  Udp, Sock, init, socket_alloc, bind, bind_ephemeral, deliver, try_recv, port_in_use, try_ports,
}
use mona_rpzero.Udp.Deliver.{Reached, Call, started, one_receiver}

-- The memory before the initialisation.
abbrev memory : Udp
memory = record {
  socks = table (λ i. record {
    used = true;
    refs = 5;
    bound = true;
    bound_port = 53;
    q_head = 0;
    q_tail = 0;
    q_count = 0;
    q = table (λ j. record { src_ip = []; src_port = 0; dst_port = 0; len = 0; bytes = [] });
  });
  ephemeral_next = 0;
}

-- A first socket is bound to port 53.
abbrev opened : Udp
opened = record (init memory) { socks = (socket_alloc (init memory).socks).0 }

abbrev bound : Udp
bound = (bind opened 0 53).0

abbrev second : Udp
second = record bound { socks = (socket_alloc bound.socks).0 }

abbrev answered : Table Sock
answered = deliver second.socks (1 ∷ []) 9 53 (7 ∷ 8 ∷ [])

port_taken : (bind second 1 53).1 ≡ err Errno.eaddrinuse
unfolding bind get socket_alloc first init for_below put port_in_use
port_taken = refl

any_port : (bind_ephemeral second 1).1 ≡ ok 49152
unfolding bind_ephemeral get socket_alloc first bind init for_below put port_in_use try_ports
any_port = refl

received :
    (try_recv answered 0).1
    ≡ ok (record { src_ip = 1 ∷ []; src_port = 9; dst_port = 53; len = 2; bytes = 7 ∷ 8 ∷ [] })
unfolding try_recv get deliver for_below socket_alloc first bind init put port_in_use
received = refl

nothing_there : (try_recv answered 1).1 ≡ err Errno.eagain
unfolding try_recv get deliver for_below socket_alloc first bind init put port_in_use
nothing_there = refl

reached : Reached second
reached =
    Reached.next bound second
      (Reached.next opened bound
        (Reached.next (init memory) opened (started memory) (Call.alloc (init memory)))
        (Call.to_port opened 0 53))
      (Call.alloc bound)

first_changes : get (deliver second.socks [] 9 53 (7 ∷ [])) 0 ≢ get second.socks 0
unfolding get deliver for_below socket_alloc first bind init put port_in_use
first_changes e = clash (ap Sock.q_count e)
  where
    clash : ◌≡◌ {A = ℕ} 1 0 → ⊥
    clash x = omega (arith, x)

receiver_example : get (deliver second.socks [] 9 53 (7 ∷ [])) 1 ≡ get second.socks 1
receiver_example =
    one_receiver second reached [] 9 53 (7 ∷ []) 0 1 (omega arith) (omega arith) (omega arith)
      first_changes
