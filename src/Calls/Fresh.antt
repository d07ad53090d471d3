-- ===== src/Calls/Fresh.antt =====
-- The steps of `sys_pipe2` before it looks for descriptors: a free pipe, two descriptions, its ends.
use mona_rpzero.Prelude.{
  ℕ, ◌<◌, ◌≡◌, refl, sym, ap, ◌∙◌, ◌≢◌, inl, inr, Bool, true, false, not, Option-cases, get, put,
  get-put_self, get-put_ne, arith, subst, Bool-cases, ℕ_discrete, Result, ok, err, first,
  first-none, IsFirst, first-IsFirst, lt→leb_false,
}
use mona_rpzero.Prelude.Errno
use mona_rpzero.Pipe
use mona_rpzero.Pipe.{Pipe, Pipes, reset, at_pipe, incref_end, decref_end}
use mona_rpzero.Fd.{Open, Desc, FdTable, Kind, put_desc, hook_incref}
use mona_rpzero.Fd.Counts.{
  Key, reader, writer, sock, conn, InRange, counter, in_use, leads, one_if, Joined,
  hook_incref-Joined,
}
use mona_rpzero.Fd.Shared.{
  IsShared, weight, step-IsShared, counter-put_desc, in_use-put_desc, users-le,
}
use mona_rpzero.Fd.Keep.{IsCounted, few}
use mona_rpzero.Calls.{open_end, with_abort}

-- Nothing refers to either end of the pipe.
pub record IsIdle (o : Open) (pid : ℕ) : Type 0 where
  pub reads : counter o (reader pid) ≡ 0
  pub writes : counter o (writer pid) ≡ 0

-- The table with pipe `pid` set up anew.
abbrev pub with_reset : Bool → Open → ℕ → Open
with_reset used o pid = record o { pipes = put o.pipes pid (reset used (get o.pipes pid)) }

module _ (used : Bool) (o : Open) (pid : ℕ) (idle : IsIdle o pid) where
  pub counter-with_reset : (key : Key) → counter (with_reset used o pid) key ≡ counter o key
  counter-with_reset (reader k) = elim (ℕ_discrete k pid) [
    | yes e ↦
        subst (λ i. counter (with_reset used o pid) (reader i) ≡ counter o (reader i)) (sym e)
          (ap Pipe.read_refs (get-put_self o.pipes pid (reset used (get o.pipes pid)))
            ∙ sym idle.reads)
    | no ne ↦ ap Pipe.read_refs (get-put_ne o.pipes pid k (reset used (get o.pipes pid)) ne)
  ]
  counter-with_reset (writer k) = elim (ℕ_discrete k pid) [
    | yes e ↦
        subst (λ i. counter (with_reset used o pid) (writer i) ≡ counter o (writer i)) (sym e)
          (ap Pipe.write_refs (get-put_self o.pipes pid (reset used (get o.pipes pid)))
            ∙ sym idle.writes)
    | no ne ↦ ap Pipe.write_refs (get-put_ne o.pipes pid k (reset used (get o.pipes pid)) ne)
  ]
  counter-with_reset (sock k) = refl
  counter-with_reset (conn k) = refl

  alive-with_reset :
      (key : Key)
      → 0 < counter o key
      → in_use o key ≡ true
      → in_use (with_reset used o pid) key ≡ true
  alive-with_reset (reader k) pos u = elim (ℕ_discrete k pid) [
    | yes e ↦ absurd (omega (arith, idle.reads, ap (λ i. counter o (reader i)) e))
    | no ne ↦ ap Pipe.used (get-put_ne o.pipes pid k (reset used (get o.pipes pid)) ne) ∙ u
  ]
  alive-with_reset (writer k) pos u = elim (ℕ_discrete k pid) [
    | yes e ↦ absurd (omega (arith, idle.writes, ap (λ i. counter o (writer i)) e))
    | no ne ↦ ap Pipe.used (get-put_ne o.pipes pid k (reset used (get o.pipes pid)) ne) ∙ u
  ]
  alive-with_reset (sock k) pos u = u
  alive-with_reset (conn k) pos u = u

  -- A pipe that nothing refers to may be set up or freed.
  pub with_reset-IsCounted :
      (t : FdTable) (extra : ℕ → ℕ)
      → IsCounted o t extra
      → IsCounted (with_reset used o pid) t extra
  with_reset-IsCounted t extra c = record {
    shared = record {
      counted = λ key near. counter-with_reset key ∙ c.shared.counted key near;
      alive = λ key near pos.
          let pos' : 0 < counter o key = omega (arith, counter-with_reset key) in
          alive-with_reset key pos' (c.shared.alive key near pos');
    };
    refs = c.refs;
    targets = c.targets;
    bounded = c.bounded;
  }

pub with_reset-IsIdle :
    (used : Bool) (o : Open) (pid : ℕ) → IsIdle o pid → IsIdle (with_reset used o pid) pid
with_reset-IsIdle used o pid idle = record {
  reads = counter-with_reset used o pid idle (reader pid) ∙ idle.reads;
  writes = counter-with_reset used o pid idle (writer pid) ∙ idle.writes;
}

pub with_abort-eq : (o : Open) (pid : ℕ) → pid < 16 → with_abort o pid ≡ with_reset false o pid
unfolding Pipe.abort
with_abort-eq o pid lt = rw (lt→leb_false 16 pid lt) refl

-- A free pipe is idle.
pub free-IsIdle :
    (o : Open) (pid : ℕ) → pid < 16 → IsShared o → (get o.pipes pid).used ≡ false → IsIdle o pid
free-IsIdle o pid lt shared free = record {
  reads = zero_of (counter o (reader pid)) (shared.alive (reader pid) lt);
  writes = zero_of (counter o (writer pid)) (shared.alive (writer pid) lt);
}
  where
    zero_of : (n : ℕ) → (0 < n → (get o.pipes pid).used ≡ true) → n ≡ 0
    zero_of n h = ground arith

-- The two ends of a pipe lead to it alone.
end_alive :
    (o : Open) (pid end : ℕ) (key : Key)
    → (get o.pipes pid).used ≡ true
    → leads (Kind.pipe pid end) key ≡ true
    → in_use o key ≡ true
end_alive o pid end (reader k) u led = subst (λ i. (get o.pipes i).used ≡ true) (ground arith) u
end_alive o pid end (writer k) u led = subst (λ i. (get o.pipes i).used ≡ true) (ground arith) u
end_alive o pid end (sock k) u led = absurd cc
end_alive o pid end (conn k) u led = absurd cc

weight-one :
    (kind : Kind) (key : Key)
    → weight (record { kind = kind; refs = 1 }) key ≡ one_if (leads kind key)
weight-one kind key = refl

module _ (o : Open) (t : FdTable) (extra : ℕ → ℕ) (counted : IsCounted o t extra) (i pid end : ℕ)
    (lt : i < 64) (used : (get o.pipes pid).used ≡ true)
    (nowhere : (key : Key) → weight (get o.descs i) key ≡ 0)
    (single : (get o.descs i).refs ≡ 1) where
  abbrev d : Desc
  d = record { kind = Kind.pipe pid end; refs = 1 }

  abbrev o1 : Open
  o1 = put_desc o i d

  joins :
      (key : Key)
      → InRange key
      → Joined o1 (Kind.pipe pid end) (hook_incref o1 (Kind.pipe pid end)) key
  joins key near =
      hook_incref-Joined o1 (Kind.pipe pid end) key near (end_alive o1 pid end key used) (
        omega (
          arith,
          counter-put_desc o i d key,
          counted.shared.counted key near,
          users-le o key (few o t extra counted),
        ))

  was_alive :
      (key : Key)
      → InRange key
      → 0 < counter (hook_incref o1 (Kind.pipe pid end)) key
      → in_use o key ≡ true
  was_alive key near pos = elim (Bool-cases (leads (Kind.pipe pid end) key)) [
    | inl led ↦ end_alive o pid end key used led
    | inr no_lead ↦
        counted.shared.alive key near
          (omega (arith, (joins key near).count, counter-put_desc o i d key, ap one_if no_lead))
  ]

  refs_same : (j : ℕ) → (get (put o.descs i d) j).refs ≡ (get o.descs j).refs
  refs_same j = elim (ℕ_discrete j i) [
    | yes e ↦
        subst (λ k. (get (put o.descs i d) k).refs ≡ (get o.descs k).refs) (sym e)
          (ap Desc.refs (get-put_self o.descs i d) ∙ sym single)
    | no ne ↦ ap Desc.refs (get-put_ne o.descs i j d ne)
  ]

  -- A blank description becomes one end of the pipe, which counts it.
  pub open_end-IsCounted : IsCounted (open_end o i pid end) t extra
  unfolding open_end
  open_end-IsCounted = record {
    shared =
        step-IsShared o (hook_incref o1 (Kind.pipe pid end)) i d lt refl counted.shared
          (λ key near. omega (
            arith,
            (joins key near).count,
            counter-put_desc o i d key,
            nowhere key,
            weight-one (Kind.pipe pid end) key,
          ))
          (λ key near pos.
            (joins key near).used ∙ in_use-put_desc o i d key ∙ was_alive key near pos);
    refs = λ j near. refs_same j ∙ counted.refs j near;
    targets = counted.targets;
    bounded = counted.bounded;
  }

  -- The pipe stays in use, and no other description changes.
  pub open_end_used : (key : Key) → InRange key → in_use (open_end o i pid end) key ≡ in_use o key
  unfolding open_end
  open_end_used key near = (joins key near).used ∙ in_use-put_desc o i d key

-- What `pipe_create` leaves, by the flag of the slot.
pub data CreateOutcome (o : Open) : Pipes × Result ℕ → Type 0 where
  no_pipe :
      ((p : ℕ) → p < 16 → (get o.pipes p).used ≡ true) → CreateOutcome o (o.pipes, err Errno.enomem)
  new_pipe :
      (pid : ℕ)
      → pid < 16
      → (get o.pipes pid).used ≡ false
      → CreateOutcome o (put o.pipes pid (reset true (get o.pipes pid)), ok pid)

pub create-CreateOutcome : (o : Open) → CreateOutcome o (Pipe.create o.pipes)
unfolding Pipe.create
create-CreateOutcome o = elim (Option-cases (first (λ i. not (get o.pipes i).used) 0 16)) [
  | inl e ↦
      rw (e, Pipe.create)
        (no_pipe (λ p lt.
          is_used (get o.pipes p).used
            (first-none (λ i. not (get o.pipes i).used) 0 16 e p (omega arith) (omega arith))))
  | inr (pid, e) ↦
      let f : IsFirst (λ i. not (get o.pipes i).used) 0 16 pid = first-IsFirst _ 0 16 e in
      rw (e, Pipe.create)
        (new_pipe pid (omega (arith, f.below)) (is_free (get o.pipes pid).used f.passes))
]
  where
    is_free : (b : Bool) → not b ≡ true → b ≡ false
    is_free b h = ground arith

    is_used : (b : Bool) → not b ≡ false → b ≡ true
    is_used b h = ground arith

pub open_end_self :
    (o : Open) (i pid end : ℕ)
    → get (open_end o i pid end).descs i ≡ record { kind = Kind.pipe pid end; refs = 1 }
unfolding open_end
open_end_self o i pid end = get-put_self o.descs i (record { kind = Kind.pipe pid end; refs = 1 })

pub open_end_ne :
    (o : Open) (i pid end j : ℕ) → j ≢ i → get (open_end o i pid end).descs j ≡ get o.descs j
unfolding open_end
open_end_ne o i pid end j ne =
    get-put_ne o.descs i j (record { kind = Kind.pipe pid end; refs = 1 }) ne
