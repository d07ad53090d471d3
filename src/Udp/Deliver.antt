-- ===== src/Udp/Deliver.antt =====
-- What the calls on UDP sockets keep, and which socket a datagram reaches.
use mona_rpzero.Prelude.{
  ℕ, ◌<◌, ◌≡◌, ◌≢◌, refl, sym, ap, ◌∙◌, inl, inr, Bool, true, false, not, Option-cases, List, Table,
  get, first, arith, if_cases, if◌then◌else◌, ◌==◌, ltb, leb, subst, Result, sub32, Bool-cases,
  length,
}
use mona_rpzero.Udp.{
  Sock, Udp, init, clean, socket_alloc, on_desc_incref, on_desc_decref, join_sock, leave_sock,
  bind_ephemeral, bind, try_recv, deliver, deliver_to, takes, Dgram, pop, at_sock,
}
use mona_rpzero.Udp.Ports.{
  binds, Distinct, Fewer, put-Distinct, each-Distinct, each_entry, clash, bind-Distinct,
  bind_ephemeral-Distinct,
}

at_sock-Distinct :
    (t : Table Sock) (id : ℕ) (f : Sock → Sock)
    → ((s : Sock) → Fewer s (f s))
    → Distinct t
    → Distinct (at_sock t id f)
at_sock-Distinct t id f fewer d =
    if_cases Distinct (leb 8 id) (λ _. d)
      (λ _. put-Distinct t id (f (get t id)) (fewer (get t id)) d)

clean-Fewer : (used : Bool) (refs : ℕ) (s : Sock) → Fewer s (clean used refs s)
clean-Fewer true refs s p b = absurd (clash (sym b))
clean-Fewer false refs s p b = absurd (clash (sym b))

join_sock-Fewer : (s : Sock) → Fewer s (join_sock s)
join_sock-Fewer s = if_cases (Fewer s) (not s.used) (λ _ p b. b) (λ _ p b. b)

leave_sock-Fewer : (s : Sock) → Fewer s (leave_sock s)
leave_sock-Fewer s =
    if_cases (Fewer s) (not s.used) (λ _ p b. b)
      (λ _.
        if_cases (Fewer s) ((if ltb 0 s.refs then sub32 s.refs 1 else s.refs) == 0)
          (λ _. clean-Fewer false (if ltb 0 s.refs then sub32 s.refs 1 else s.refs) s) (λ _ p b. b))

deliver_to-Fewer : (g : Dgram) (s : Sock) → Fewer s (deliver_to g s)
deliver_to-Fewer g s = if_cases (Fewer s) (takes g.dst_port s) (λ _ p b. b) (λ _ p b. b)

socket_alloc-Distinct : (t : Table Sock) → Distinct t → Distinct (socket_alloc t).0
unfolding socket_alloc
socket_alloc-Distinct t d = elim (Option-cases (first (λ i. not (get t i).used) 0 8)) [
  | inl e ↦ rw (e, socket_alloc) d
  | inr (i, e) ↦ rw (e, socket_alloc) (put-Distinct t i _ (clean-Fewer true 1 (get t i)) d)
]

abbrev Kept : Table Sock × Result Dgram → Type 0
Kept x = Distinct x.0

try_recv-Distinct : (t : Table Sock) (id : ℕ) → Distinct t → Distinct (try_recv t id).0
unfolding try_recv
try_recv-Distinct t id d =
    if_cases Kept (leb 8 id) (λ _. d)
      (λ _.
        if_cases Kept (not (get t id).used) (λ _. d)
          (λ _.
            if_cases Kept ((get t id).q_count == 0) (λ _. d)
              (λ _. put-Distinct t id (pop (get t id)) (λ p b. b) d)))

deliver-Distinct :
    (t : Table Sock) (src_ip : List ℕ) (src_port dst_port : ℕ) (payload : List ℕ)
    → Distinct t
    → Distinct (deliver t src_ip src_port dst_port payload)
unfolding deliver
deliver-Distinct t src_ip src_port dst_port payload d =
    if_cases Distinct (ltb 1500 (length payload)) (λ _. d)
      (λ _. each-Distinct (deliver_to _) t (deliver_to-Fewer _) d)

-- The calls that change the sockets.
pub data Call : Udp → Udp → Type 0 where
  alloc : (u : Udp) → Call u (record u { socks = (socket_alloc u.socks).0 })
  incref : (u : Udp) (id : ℕ) → Call u (record u { socks = on_desc_incref u.socks id })
  decref : (u : Udp) (id : ℕ) → Call u (record u { socks = on_desc_decref u.socks id })
  to_port : (u : Udp) (id port : ℕ) → Call u (bind u id port).0
  to_any_port : (u : Udp) (id : ℕ) → Call u (bind_ephemeral u id).0
  receive : (u : Udp) (id : ℕ) → Call u (record u { socks = (try_recv u.socks id).0 })
  arrive :
      (u : Udp) (src_ip : List ℕ) (src_port dst_port : ℕ) (payload : List ℕ)
      → Call u (record u { socks = deliver u.socks src_ip src_port dst_port payload })

-- What the calls reach from `net_udp6_init`, whatever the memory held before.
pub data Reached : Udp → Type 0 where
  started : (u : Udp) → Reached (init u)
  next : (u u' : Udp) → Reached u → Call u u' → Reached u'

Call-Distinct : (u u' : Udp) → Call u u' → Distinct u.socks → Distinct u'.socks
unfolding on_desc_incref on_desc_decref
Call-Distinct u u' (alloc v) d = socket_alloc-Distinct v.socks d
Call-Distinct u u' (incref v id) d = at_sock-Distinct v.socks id join_sock join_sock-Fewer d
Call-Distinct u u' (decref v id) d = at_sock-Distinct v.socks id leave_sock leave_sock-Fewer d
Call-Distinct u u' (to_port v id port) d = bind-Distinct v id port d
Call-Distinct u u' (to_any_port v id) d = bind_ephemeral-Distinct v id d
Call-Distinct u u' (receive v id) d = try_recv-Distinct v.socks id d
Call-Distinct u u' (arrive v src_ip src_port dst_port payload) d =
    deliver-Distinct v.socks src_ip src_port dst_port payload d

init-Distinct : (u : Udp) → Distinct (init u).socks
unfolding init
init-Distinct u p i j i_lt j_lt bi bj =
    absurd (clash (sym (ap (binds p) (sym (each_entry (clean false 0) u.socks i i_lt)) ∙ bi)))

reached-Distinct : (u : Udp) → Reached u → Distinct u.socks
reached-Distinct u (started u0) = init-Distinct u0
reached-Distinct u (next u0 u1 r c) = Call-Distinct u0 u1 c (reached-Distinct u0 r)

takes-binds : (p : ℕ) (s : Sock) → takes p s ≡ true → binds p s ≡ true
takes-binds p s h = ground arith

-- A socket that a datagram changes takes it.
changed_takes :
    (t : Table Sock) (src_ip : List ℕ) (src_port dst_port : ℕ) (payload : List ℕ) (i : ℕ)
    → i < 8
    → get (deliver t src_ip src_port dst_port payload) i ≢ get t i
    → takes dst_port (get t i) ≡ true
unfolding deliver
changed_takes t src_ip src_port dst_port payload i lt =
    if_cases (λ t'. get t' i ≢ get t i → takes dst_port (get t i) ≡ true)
      (ltb 1500 (length payload)) (λ _ ne. absurd (ne refl))
      (λ _.
        subst (λ s'. s' ≢ get t i → takes dst_port (get t i) ≡ true)
          (sym (each_entry (deliver_to _) t i lt))
          (if_cases (λ s'. s' ≢ get t i → takes dst_port (get t i) ≡ true)
            (takes dst_port (get t i)) (λ h _. h) (λ _ ne. absurd (ne refl))))

-- A socket that does not take the datagram stays as it is.
others_kept :
    (t : Table Sock) (src_ip : List ℕ) (src_port dst_port : ℕ) (payload : List ℕ) (i : ℕ)
    → i < 8
    → takes dst_port (get t i) ≡ false
    → get (deliver t src_ip src_port dst_port payload) i ≡ get t i
unfolding deliver
others_kept t src_ip src_port dst_port payload i lt kept =
    if_cases (λ t'. get t' i ≡ get t i) (ltb 1500 (length payload)) (λ _. refl)
      (λ _.
        each_entry (deliver_to _) t i lt
        ∙ if_cases (λ s'. s' ≡ get t i) (takes dst_port (get t i))
            (λ h. absurd (clash (sym h ∙ kept))) (λ _. refl))

-- In every state that the calls on UDP sockets reach from the initialisation, whatever the memory held
-- before: if a datagram that arrives changes a socket, every other socket stays as it is.
pub one_receiver :
    (u : Udp)
    → Reached u
    → (src_ip : List ℕ) (src_port dst_port : ℕ) (payload : List ℕ) (i j : ℕ) → i < 8
    → j < 8
    → i ≢ j
    → get (deliver u.socks src_ip src_port dst_port payload) i ≢ get u.socks i
    → get (deliver u.socks src_ip src_port dst_port payload) j ≡ get u.socks j
one_receiver u r src_ip src_port dst_port payload i j i_lt j_lt ne changed =
    let ti : takes dst_port (get u.socks i) ≡ true =
      changed_takes u.socks src_ip src_port dst_port payload i i_lt changed in
    elim (Bool-cases (takes dst_port (get u.socks j))) [
      | inl tj ↦ absurd (
          ne (
            reached-Distinct u r dst_port i j i_lt j_lt (takes-binds dst_port (get u.socks i) ti)
              (takes-binds dst_port (get u.socks j) tj)))
      | inr kept ↦ others_kept u.socks src_ip src_port dst_port payload j j_lt kept
    ]
