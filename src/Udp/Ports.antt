-- ===== src/Udp/Ports.antt =====
-- The ports that the UDP sockets are bound to.
use mona_rpzero.Prelude.{
  ℕ, zero, suc, ◌<◌, ◌≡◌, ◌≢◌, refl, sym, ap, ◌∙◌, inl, inr, Bool, true, false, not, ◌&&◌, some,
  Option-cases, Table, get, put, get-put_self, get-put_ne, first, first-none, arith, if_cases, ◌==◌,
  leb, ℕ_discrete, get-for_below, put_cases, lt→ltb, subst, Result, for_below,
}
use mona_rpzero.Udp.{
  Sock, Udp, port_in_use, holds_port, is_found, bind_to, try_ports, bind_ephemeral, bind, max_tries,
  next_ephemeral,
}

-- The socket is in use and bound to the port.
abbrev pub binds : ℕ → Sock → Bool
binds p s = (s.used && s.bound) && s.bound_port == p

-- No two sockets are bound to one port.
abbrev pub Distinct : Table Sock → Type 0
Distinct t =
    (p i j : ℕ) → i < 8 → j < 8 → binds p (get t i) ≡ true → binds p (get t j) ≡ true → i ≡ j

-- The socket is bound at most where it was before.
abbrev pub Fewer : Sock → Sock → Type 0
Fewer s s' = (p : ℕ) → binds p s' ≡ true → binds p s ≡ true

Fewer-Distinct :
    (t t' : Table Sock) → ((i : ℕ) → i < 8 → Fewer (get t i) (get t' i)) → Distinct t → Distinct t'
Fewer-Distinct t t' fewer d p i j i_lt j_lt bi bj =
    d p i j i_lt j_lt (fewer i i_lt p bi) (fewer j j_lt p bj)

put-Fewer :
    (t : Table Sock) (id : ℕ) (s : Sock)
    → Fewer (get t id) s
    → (i : ℕ) → Fewer (get t i) (get (put t id s) i)
put-Fewer t id s fewer i p =
    put_cases (λ s'. binds p s' ≡ true → binds p (get t i) ≡ true) t id s i
      (λ e b. subst (λ k. binds p (get t k) ≡ true) (sym e) (fewer p b)) (λ ne b. b)

pub put-Distinct :
    (t : Table Sock) (id : ℕ) (s : Sock) → Fewer (get t id) s → Distinct t → Distinct (put t id s)
put-Distinct t id s fewer = Fewer-Distinct t (put t id s) (λ i lt. put-Fewer t id s fewer i)

pub each_entry :
    (f : Sock → Sock) (t : Table Sock) (i : ℕ) → i < 8 → get (for_below 8 f t) i ≡ f (get t i)
each_entry f t i lt = rw (get-for_below 8 f t i, lt→ltb i 8 lt) refl

pub each-Distinct :
    (f : Sock → Sock) (t : Table Sock)
    → ((s : Sock) → Fewer s (f s))
    → Distinct t
    → Distinct (for_below 8 f t)
each-Distinct f t fewer =
    Fewer-Distinct t (for_below 8 f t)
      (λ i lt p b. fewer (get t i) p (ap (binds p) (sym (each_entry f t i lt)) ∙ b))

pub clash : true ≡ false → ⊥
clash e = cc

-- A port that is free is held by no other socket.
free_others :
    (t : Table Sock) (p sid : ℕ)
    → port_in_use t p sid ≡ false
    → (i : ℕ) → i < 8
    → i ≢ sid
    → binds p (get t i) ≡ false
unfolding port_in_use
free_others t p sid free i lt ne = elim (Option-cases (first (holds_port t p sid) 0 8)) [
  | inl e ↦
      let h : holds_port t p sid i ≡ false = first-none _ 0 8 e i (omega arith) (omega arith) in
      ground arith
  | inr (k, e) ↦ absurd (clash (sym (found k e) ∙ free))
]
  where
    found : (k : ℕ) → first (holds_port t p sid) 0 8 ≡ some k → port_in_use t p sid ≡ true
    found k e = if_cases (λ b. b ≡ true) (p == 0) (λ _. refl) (λ _. ap is_found e)

module _ (t : Table Sock) (p sid : ℕ) (free : port_in_use t p sid ≡ false) where
  bound_t : Table Sock
  bound_t = put t sid (bind_to p (get t sid))

  no_second :
      (q i j : ℕ)
      → i ≡ sid
      → j ≢ sid
      → j < 8
      → binds q (get bound_t i) ≡ true
      → binds q (get bound_t j) ≡ true
      → ⊥
  unfolding bound_t
  no_second q i j e ne j_lt bi bj =
      let here : binds q (bind_to p (get t sid)) ≡ true =
        ap (binds q) (sym (get-put_self t sid _))
        ∙ ap (λ k. binds q (get bound_t k)) (sym e)
        ∙ bi in
      let there : binds q (get t j) ≡ true = ap (binds q) (sym (get-put_ne t sid j _ ne)) ∙ bj in
      let same : p ≡ q = ground arith in
      let not_there : binds p (get t j) ≡ false = free_others t p sid free j j_lt ne in
      clash (sym there ∙ ap (λ r. binds r (get t j)) (sym same) ∙ not_there)

  -- A port that no other socket holds may be taken.
  bind_to-Distinct : Distinct t → Distinct (put t sid (bind_to p (get t sid)))
  unfolding bound_t
  bind_to-Distinct d q i j i_lt j_lt bi bj = elim (ℕ_discrete i sid) [
    | yes e ↦ elim (ℕ_discrete j sid) [
      | yes e' ↦ e ∙ sym e'
      | no ne ↦ absurd (no_second q i j e ne j_lt bi bj)
    ]
    | no ne ↦ elim (ℕ_discrete j sid) [
      | yes e ↦ absurd (no_second q j i e ne i_lt bj bi)
      | no ne' ↦
          d q i j i_lt j_lt (ap (binds q) (sym (get-put_ne t sid i _ ne)) ∙ bi)
            (ap (binds q) (sym (get-put_ne t sid j _ ne')) ∙ bj)
    ]
  ]

abbrev Good : Udp × Result ℕ → Type 0
Good x = Distinct x.0.socks

try_ports-Distinct :
    (tries : ℕ) (u : Udp) (sid : ℕ) → Distinct u.socks → Distinct (try_ports tries u sid).0.socks
unfolding try_ports
try_ports-Distinct zero u sid d = d
try_ports-Distinct (suc tries) u sid d =
    if_cases Good (not (port_in_use u.socks u.ephemeral_next sid))
      (λ h. bind_to-Distinct u.socks u.ephemeral_next sid (ground arith) d)
      (λ _.
        try_ports-Distinct tries (record u { ephemeral_next = next_ephemeral u.ephemeral_next }) sid
          d)

pub bind_ephemeral-Distinct :
    (u : Udp) (sid : ℕ) → Distinct u.socks → Distinct (bind_ephemeral u sid).0.socks
unfolding bind_ephemeral
bind_ephemeral-Distinct u sid d =
    if_cases Good (leb 8 sid) (λ _. d)
      (λ _.
        if_cases Good (not (get u.socks sid).used) (λ _. d)
          (λ _. try_ports-Distinct max_tries u sid d))

pub bind-Distinct : (u : Udp) (sid port : ℕ) → Distinct u.socks → Distinct (bind u sid port).0.socks
unfolding bind
bind-Distinct u sid port d =
    if_cases Good (leb 8 sid) (λ _. d)
      (λ _.
        if_cases Good (not (get u.socks sid).used) (λ _. d)
          (λ _.
            if_cases Good (port == 0) (λ _. bind_ephemeral-Distinct u sid d)
              (λ _.
                if_cases Good (port_in_use u.socks port sid) (λ _. d)
                  (λ h. bind_to-Distinct u.socks port sid h d))))
