-- ===== src/Fd/Counts.antt =====
-- The counters of pipes, sockets and connections against the references of the descriptions that
-- lead there: what the hooks of `desc_incref` and `desc_decref` keep.
use mona_rpzero.Prelude.{
  ℕ, ◌+◌, ◌<◌, ◌≡◌, refl, sym, ◌≢◌, inl, inr, Bool, true, false, ◌&&◌, Table, get, put,
  get-put_self, get-put_ne, if◌then◌else◌, ◌==◌, leb, Bool-cases, arith, ℕ_discrete, lt→leb_false,
  subst,
}
use mona_rpzero.Pipe
use mona_rpzero.Pipe.{Pipe, Pipes, incref_end, decref_end, max_pipes}
use mona_rpzero.Udp
use mona_rpzero.Udp.{Sock, max_socks, join_sock, leave_sock}
use mona_rpzero.Tcp
use mona_rpzero.Tcp.{Conn, tcp6_max_conns, join_conn, leave_conn}
use mona_rpzero.Fd.{Open, Kind, pipe, udp6, tcp6, hook_incref, hook_decref}

-- What a description can keep open.
pub data Key : Type 0 where
  reader : ℕ → Key
  writer : ℕ → Key
  sock : ℕ → Key
  conn : ℕ → Key

abbrev pub InRange : Key → Type 0
InRange (reader id) = id < 16
InRange (writer id) = id < 16
InRange (sock id) = id < 8
InRange (conn id) = id < 8

-- The counter of the C code.
abbrev pub counter : Open → Key → ℕ
counter o (reader id) = (get o.pipes id).read_refs
counter o (writer id) = (get o.pipes id).write_refs
counter o (sock id) = (get o.socks id).refs
counter o (conn id) = (get o.conns id).refs

abbrev pub in_use : Open → Key → Bool
in_use o (reader id) = (get o.pipes id).used
in_use o (writer id) = (get o.pipes id).used
in_use o (sock id) = (get o.socks id).used
in_use o (conn id) = (get o.conns id).used

abbrev pub leads : Kind → Key → Bool
leads (pipe id end) (reader k) = id == k && end == 0
leads (pipe id end) (writer k) = id == k && end == 1
leads (udp6 id) (sock k) = id == k
leads (tcp6 id) (conn k) = id == k
leads kind key = false

abbrev pub one_if : Bool → ℕ
one_if b = if b then 1 else 0

-- What a hook does to one counter.
pub record Joined (o : Open) (kind : Kind) (o' : Open) (key : Key) : Type 0 where
  pub count : counter o' key ≡ counter o key + one_if (leads kind key)
  pub used : in_use o' key ≡ in_use o key

pub record Left (o : Open) (kind : Kind) (o' : Open) (key : Key) : Type 0 where
  pub count : counter o' key + one_if (leads kind key) ≡ counter o key
  pub used : in_use o key ≡ true → 0 < counter o' key → in_use o' key ≡ true

-- What a function on one entry of a table does to entry `k`.
at_entry {ℓ} :
    {A : Type ℓ} (R : A → A → Type 0) (n : ℕ) (t : Table A) (id k : ℕ) (f : A → A)
    → k < n
    → (k ≡ id → R (get t k) (f (get t k)))
    → (k ≢ id → R (get t k) (get t k))
    → R (get t k) (get (if leb n id then t else put t id (f (get t id))) k)
at_entry R n t id k f near same other = elim (ℕ_discrete k id) [
  | yes e ↦ rw (lt→leb_false n id (subst (λ i. i < n) e near)) (
      subst (λ i. R (get t i) (get (put t id (f (get t id))) i)) (sym e)
        (rw (get-put_self t id (f (get t id))) (subst (λ i. R (get t i) (f (get t i))) e (same e))))
  | no ne ↦ elim (Bool-cases (leb n id)) [
    | inl far ↦ rw far (other ne)
    | inr in_table ↦ rw (in_table, get-put_ne t id k (f (get t id)) ne) (other ne)
  ]
]

-- The two relations of an entry before and after, on its counter and its flag.
module _ {A : Type 0} (refs : A → ℕ) (used : A → Bool) (led : Bool) where
  abbrev MoreBy : A → A → Type 0
  MoreBy a b = (refs b ≡ refs a + one_if led) × (used b ≡ used a)

  abbrev LessBy : A → A → Type 0
  LessBy a b = (refs b + one_if led ≡ refs a) × (used a ≡ true → 0 < refs b → used b ≡ true)

  same-MoreBy : (a : A) → led ≡ false → MoreBy a a
  same-MoreBy a h = ground arith

  same-LessBy : (a : A) → led ≡ false → LessBy a a
  same-LessBy a h = ground arith

other_entry : (id k : ℕ) (b : Bool) → k ≢ id → (id == k && b) ≡ false
other_entry id k b ne = ground arith

other_id : (id k : ℕ) → k ≢ id → (id == k) ≡ false
other_id id k ne = ground arith

module _ (id k : ℕ) (e : k ≡ id) where
  module _ (p : Pipe) (end : ℕ) where
    join_reader :
        ((id == k && end == 0) ≡ true → p.used ≡ true)
        → p.read_refs < 65535
        → MoreBy Pipe.read_refs Pipe.used (id == k && end == 0) p (incref_end end p)
    unfolding incref_end
    join_reader h lt = ground arith

    join_writer :
        ((id == k && end == 1) ≡ true → p.used ≡ true)
        → p.write_refs < 65535
        → MoreBy Pipe.write_refs Pipe.used (id == k && end == 1) p (incref_end end p)
    unfolding incref_end
    join_writer h lt = ground arith

    leave_reader :
        ((id == k && end == 0) ≡ true → (p.used ≡ true) × (0 < p.read_refs))
        → p.read_refs < 65536
        → LessBy Pipe.read_refs Pipe.used (id == k && end == 0) p (decref_end end p)
    unfolding decref_end
    leave_reader h lt = ground arith

    leave_writer :
        ((id == k && end == 1) ≡ true → (p.used ≡ true) × (0 < p.write_refs))
        → p.write_refs < 65536
        → LessBy Pipe.write_refs Pipe.used (id == k && end == 1) p (decref_end end p)
    unfolding decref_end
    leave_writer h lt = ground arith

  join_sock_lem :
      (s : Sock)
      → ((id == k) ≡ true → s.used ≡ true)
      → s.refs < 65535
      → MoreBy Sock.refs Sock.used (id == k) s (join_sock s)
  join_sock_lem s h lt = ground arith

  leave_sock_lem :
      (s : Sock)
      → ((id == k) ≡ true → (s.used ≡ true) × (0 < s.refs))
      → s.refs < 65536
      → LessBy Sock.refs Sock.used (id == k) s (leave_sock s)
  leave_sock_lem s h lt = ground arith

  join_conn_lem :
      (c : Conn)
      → ((id == k) ≡ true → c.used ≡ true)
      → c.refs < 65535
      → MoreBy Conn.refs Conn.used (id == k) c (join_conn c)
  join_conn_lem c h lt = ground arith

  leave_conn_lem :
      (c : Conn)
      → ((id == k) ≡ true → (c.used ≡ true) × (0 < c.refs))
      → c.refs < 65536
      → LessBy Conn.refs Conn.used (id == k) c (leave_conn c)
  leave_conn_lem c h lt = ground arith

pub hook_incref-Joined :
    (o : Open) (kind : Kind) (key : Key)
    → InRange key
    → (leads kind key ≡ true → in_use o key ≡ true)
    → counter o key < 65535
    → Joined o kind (hook_incref o kind) key
unfolding Pipe.incref Udp.on_desc_incref Tcp.on_desc_incref
hook_incref-Joined o (pipe id end) (reader k) near live lt =
    let r =
      at_entry (MoreBy Pipe.read_refs Pipe.used (id == k && end == 0)) 16 o.pipes id k
        (incref_end end) near (λ e. join_reader id k e (get o.pipes k) end live lt)
        (λ ne.
          same-MoreBy Pipe.read_refs Pipe.used (id == k && end == 0) (get o.pipes k)
            (other_entry id k (end == 0) ne)) in
    record { count = r.0; used = r.1 }
hook_incref-Joined o (pipe id end) (writer k) near live lt =
    let r =
      at_entry (MoreBy Pipe.write_refs Pipe.used (id == k && end == 1)) 16 o.pipes id k
        (incref_end end) near (λ e. join_writer id k e (get o.pipes k) end live lt)
        (λ ne.
          same-MoreBy Pipe.write_refs Pipe.used (id == k && end == 1) (get o.pipes k)
            (other_entry id k (end == 1) ne)) in
    record { count = r.0; used = r.1 }
hook_incref-Joined o (udp6 id) (sock k) near live lt =
    let r =
      at_entry (MoreBy Sock.refs Sock.used (id == k)) 8 o.socks id k (join_sock) near
        (λ e. join_sock_lem id k e (get o.socks k) live lt)
        (λ ne. same-MoreBy Sock.refs Sock.used (id == k) (get o.socks k) (other_id id k ne)) in
    record { count = r.0; used = r.1 }
hook_incref-Joined o (tcp6 id) (conn k) near live lt =
    let r =
      at_entry (MoreBy Conn.refs Conn.used (id == k)) 8 o.conns id k (join_conn) near
        (λ e. join_conn_lem id k e (get o.conns k) live lt)
        (λ ne. same-MoreBy Conn.refs Conn.used (id == k) (get o.conns k) (other_id id k ne)) in
    record { count = r.0; used = r.1 }
hook_incref-Joined o kind key near live lt = record { count = omega arith; used = refl }

pub hook_decref-Left :
    (o : Open) (kind : Kind) (key : Key)
    → InRange key
    → (leads kind key ≡ true → (in_use o key ≡ true) × (0 < counter o key))
    → counter o key < 65536
    → Left o kind (hook_decref o kind) key
unfolding Pipe.decref Udp.on_desc_decref Tcp.on_desc_decref
hook_decref-Left o (pipe id end) (reader k) near live lt =
    let r =
      at_entry (LessBy Pipe.read_refs Pipe.used (id == k && end == 0)) 16 o.pipes id k
        (decref_end end) near (λ e. leave_reader id k e (get o.pipes k) end live lt)
        (λ ne.
          same-LessBy Pipe.read_refs Pipe.used (id == k && end == 0) (get o.pipes k)
            (other_entry id k (end == 0) ne)) in
    record { count = r.0; used = r.1 }
hook_decref-Left o (pipe id end) (writer k) near live lt =
    let r =
      at_entry (LessBy Pipe.write_refs Pipe.used (id == k && end == 1)) 16 o.pipes id k
        (decref_end end) near (λ e. leave_writer id k e (get o.pipes k) end live lt)
        (λ ne.
          same-LessBy Pipe.write_refs Pipe.used (id == k && end == 1) (get o.pipes k)
            (other_entry id k (end == 1) ne)) in
    record { count = r.0; used = r.1 }
hook_decref-Left o (udp6 id) (sock k) near live lt =
    let r =
      at_entry (LessBy Sock.refs Sock.used (id == k)) 8 o.socks id k (leave_sock) near
        (λ e. leave_sock_lem id k e (get o.socks k) live lt)
        (λ ne. same-LessBy Sock.refs Sock.used (id == k) (get o.socks k) (other_id id k ne)) in
    record { count = r.0; used = r.1 }
hook_decref-Left o (tcp6 id) (conn k) near live lt =
    let r =
      at_entry (LessBy Conn.refs Conn.used (id == k)) 8 o.conns id k (leave_conn) near
        (λ e. leave_conn_lem id k e (get o.conns k) live lt)
        (λ ne. same-LessBy Conn.refs Conn.used (id == k) (get o.conns k) (other_id id k ne)) in
    record { count = r.0; used = r.1 }
hook_decref-Left o kind key near live lt = record { count = omega arith; used = λ u p. u }
