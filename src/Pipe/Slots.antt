-- ===== src/Pipe/Slots.antt =====
-- The C functions on the whole table: each changes the slot that it names as its channel says, keeps
-- every ring well formed, and leaves the other slots alone.
use mona_rpzero.Prelude.{
  ℕ, ◌-◌, ◌^◌, ◌<◌, ◌≡◌, refl, sym, ap, subst, ◌∙◌, ◌≢◌, inl, inr, Bool, true, false, not, List,
  Option, none, some, Table, get, put, get-put_self, get-put_ne, get-for_below, if◌then◌else◌,
  lt→ltb, leb, Bool-cases, Result, ok, err, arith, first, first-IsFirst, first-none, ℕ_discrete,
}
use mona_rpzero.Prelude.Errno
use mona_rpzero.Pipe.{
  Pipe, Pipes, max_pipes, read_pipe, write_pipe, incref_end, decref_end, init, create, abort, read,
  write, incref, decref, at_pipe_or, at_pipe, reset, end_read, end_write,
}
use mona_rpzero.Pipe.Channel
use mona_rpzero.Pipe.Channel.{Channel, on_slot, fresh}
use mona_rpzero.Pipe.Ring.{IsValid}
use mona_rpzero.Pipe.Refine.{channel, read_pipe_refines, write_pipe_refines}

abbrev pub view : Pipe → Option Channel
view p = if p.used then some (channel p) else none

-- What the table holds under an identifier.
unfoldable pub slot : Pipes → ℕ → Option Channel
slot ps id = if leb max_pipes id then none else view (get ps id)

abbrev pub AllValid : Pipes → Type 0
AllValid ps = (i : ℕ) → IsValid (get ps i)

-- What a call leaves: well-formed rings, and every other slot as it was.
pub record Keeps (ps ps' : Pipes) (id : ℕ) : Type 0 where
  pub valid : AllValid ps'
  pub others : (j : ℕ) → j ≢ id → slot ps' j ≡ slot ps j

put-AllValid : (ps : Pipes) (id : ℕ) (p : Pipe) → AllValid ps → IsValid p → AllValid (put ps id p)
put-AllValid ps id p all v i = elim (ℕ_discrete i id) [
  | yes e ↦ rw (e, get-put_self ps id p) v
  | no ne ↦ rw (get-put_ne ps id i p ne) (all i)
]

put-Keeps : (ps : Pipes) (id : ℕ) (p : Pipe) → AllValid ps → IsValid p → Keeps ps (put ps id p) id
unfolding slot
put-Keeps ps id p all v = record {
  valid = put-AllValid ps id p all v;
  others = λ j ne. ap (λ q. if leb max_pipes j then none else view q) (get-put_ne ps id j p ne);
}

refl-Keeps : (ps : Pipes) (id : ℕ) → AllValid ps → Keeps ps ps id
refl-Keeps ps id all = record { valid = all; others = λ j ne. refl }

slot_in : (ps : Pipes) (id : ℕ) → leb max_pipes id ≡ false → slot ps id ≡ view (get ps id)
unfolding slot
slot_in ps id h = rw h

slot-put :
    (ps : Pipes) (id : ℕ) (p : Pipe) → leb max_pipes id ≡ false → slot (put ps id p) id ≡ view p
slot-put ps id p h = slot_in (put ps id p) id h ∙ ap view (get-put_self ps id p)

slot_out : (ps : Pipes) (id : ℕ) → leb max_pipes id ≡ true → slot ps id ≡ none
unfolding slot
slot_out ps id h = rw h

-- A function on one pipe does on its channel what `f` does; a free slot fails and stays.
record Refines {ℓ} {A : Type ℓ} (op : Pipe → Pipe × Result A) (f : Channel → Channel × Result A)
    (p : Pipe) : Type ℓ where
  result : ◌≡◌ {A = Option Channel × Result A} (view (op p).0, (op p).1) (on_slot (view p) f)
  valid : IsValid (op p).0

at_pipe_or-Refines {ℓ} :
    {A : Type ℓ} (op : Pipe → Pipe × Result A) (f : Channel → Channel × Result A)
    → ((p : Pipe) → IsValid p → Refines op f p)
    → (ps : Pipes) (id : ℕ) → AllValid ps
    → let (ps', r) = at_pipe_or ps id op in
      (◌≡◌ {A = Option Channel × Result A} (slot ps' id, r) (on_slot (slot ps id) f))
      × Keeps ps ps' id
at_pipe_or-Refines op f one ps id all = elim (Bool-cases (leb max_pipes id)) [
  | inl far ↦ rw (far, slot_out ps id far) (refl, refl-Keeps ps id all)
  | inr near ↦
      rw (near, slot_in ps id near, slot-put ps id (op (get ps id)).0 near)
        ((one (get ps id) (all id)).result, put-Keeps ps id _ all (one (get ps id) (all id)).valid)
]

view_used : (p : Pipe) → p.used ≡ true → view p ≡ some (channel p)
view_used p u = simp u refl

view_free : (p : Pipe) → p.used ≡ false → view p ≡ none
view_free p u = simp u refl

module _ {ℓ} {A : Type ℓ} (op : Pipe → Pipe × Result A) (f : Channel → Channel × Result A)
    (p : Pipe) where
  Refines-live :
      p.used ≡ true
      → ◌≡◌ {A = Channel × Result A} (channel (op p).0, (op p).1) (f (channel p))
      → IsValid (op p).0
      → (op p).0.used ≡ true
      → Refines op f p
  Refines-live u e v u' = record {
    result =
        ap (λ s. (s, (op p).1)) (view_used (op p).0 u')
        ∙ ap (λ t. (some t.0, t.1)) e
        ∙ sym (ap (λ s. on_slot s f) (view_used p u));
    valid = v;
  }

  Refines-free : p.used ≡ false → op p ≡ (p, err Errno.ebadf) → IsValid p → Refines op f p
  Refines-free u e v = record {
    result =
        ap (λ t. (view t.0, t.1)) e
        ∙ ap (λ s. (s, err Errno.ebadf)) (view_free p u)
        ∙ sym (ap (λ s. on_slot s f) (view_free p u));
    valid = subst (λ t. IsValid t.0) (sym e) v;
  }

read_pipe_free :
    (dst : Bool) (len : ℕ) (p : Pipe) → p.used ≡ false → read_pipe dst len p ≡ (p, err Errno.ebadf)
unfolding read_pipe
read_pipe_free dst len p u = simp u refl

write_pipe_free :
    (src : Option (Table ℕ)) (len : ℕ) (p : Pipe)
    → p.used ≡ false
    → write_pipe src len p ≡ (p, err Errno.ebadf)
unfolding write_pipe
write_pipe_free none len p u = simp u refl
write_pipe_free (some src) len p u = simp u refl

read_pipe-Refines :
    (dst : Bool) (len : ℕ) (p : Pipe)
    → IsValid p
    → Refines (read_pipe dst len) (λ c. Channel.read c dst len) p
read_pipe-Refines dst len p v = elim (Bool-cases p.used) [
  | inl u ↦
      let r = read_pipe_refines p len dst u v in
      Refines-live (read_pipe dst len) (λ c. Channel.read c dst len) p u r.0 r.1 r.2
  | inr u ↦
      Refines-free (read_pipe dst len) (λ c. Channel.read c dst len) p u
        (read_pipe_free dst len p u) v
]

write_pipe-Refines :
    (src : Option (Table ℕ)) (len : ℕ) (p : Pipe)
    → IsValid p
    → Refines (write_pipe src len) (λ c. Channel.write c src len) p
write_pipe-Refines src len p v = elim (Bool-cases p.used) [
  | inl u ↦
      let r = write_pipe_refines p len src u v in
      Refines-live (write_pipe src len) (λ c. Channel.write c src len) p u r.0 r.1 r.2
  | inr u ↦
      Refines-free (write_pipe src len) (λ c. Channel.write c src len) p u
        (write_pipe_free src len p u) v
]

-- `pipe_read` on any table of well-formed rings: a bad identifier and a free slot give EBADF;
-- otherwise the call returns what the channel returns (the oldest bytes, the end, or an error) and
-- leaves the rest of its queue. Every ring stays well formed and every other slot is as before.
pub read_refines :
    (ps : Pipes) (id len : ℕ) (dst : Bool)
    → AllValid ps
    → let (ps', r) = read ps id dst len in
      (◌≡◌ {A = Option Channel × Result (List ℕ)}
        (slot ps' id, r)
        (on_slot (slot ps id) (λ c. Channel.read c dst len)))
      × Keeps ps ps' id
unfolding read
read_refines ps id len dst all =
    at_pipe_or-Refines (read_pipe dst len) (λ c. Channel.read c dst len) (read_pipe-Refines dst len)
      ps id all

-- `pipe_write` likewise: it appends as many bytes as fit, or fails as the channel does.
pub write_refines :
    (ps : Pipes) (id len : ℕ) (src : Option (Table ℕ))
    → AllValid ps
    → let (ps', r) = write ps id src len in
      (◌≡◌ {A = Option Channel × Result ℕ}
        (slot ps' id, r)
        (on_slot (slot ps id) (λ c. Channel.write c src len)))
      × Keeps ps ps' id
unfolding write
write_refines ps id len src all =
    at_pipe_or-Refines (write_pipe src len) (λ c. Channel.write c src len)
      (write_pipe-Refines src len) ps id all

-- Reference counts

unfoldable pub bind_slot : Option Channel → (Channel → Option Channel) → Option Channel
bind_slot none f = none
bind_slot (some c) f = f c

at_pipe_refines :
    (op : Pipe → Pipe) (f : Channel → Option Channel) (ps : Pipes) (id : ℕ)
    → view (op (get ps id)) ≡ bind_slot (view (get ps id)) f
    → IsValid (op (get ps id))
    → AllValid ps
    → let ps' = at_pipe ps id op in (slot ps' id ≡ bind_slot (slot ps id) f) × Keeps ps ps' id
unfolding bind_slot
at_pipe_refines op f ps id e v all = elim (Bool-cases (leb max_pipes id)) [
  | inl far ↦ rw (far, slot_out ps id far) (refl, refl-Keeps ps id all)
  | inr near ↦
      rw (near, slot_in ps id near, slot-put ps id (op (get ps id)) near)
        (e, put-Keeps ps id _ all v)
]

incref_end_lem :
    (reads : Bool) (p : Pipe)
    → IsValid p
    → p.read_refs < 2 ^ 32 - 1
    → p.write_refs < 2 ^ 32 - 1
    → let p' = incref_end (if reads then end_read else end_write) p in
      (view p' ≡ bind_slot (view p) (λ c. some (Channel.join reads c))) × IsValid p'
unfolding incref_end bind_slot Channel.join
incref_end_lem true p v hr hw = ground arith
incref_end_lem false p v hr hw = ground arith

decref_end_lem :
    (reads : Bool) (p : Pipe)
    → IsValid p
    → p.read_refs < 2 ^ 32
    → p.write_refs < 2 ^ 32
    → let p' = decref_end (if reads then end_read else end_write) p in
      (view p' ≡ bind_slot (view p) (Channel.leave reads)) × IsValid p'
unfolding decref_end bind_slot Channel.leave
decref_end_lem true p v hr hw = ground arith
decref_end_lem false p v hr hw = ground arith

-- `pipe_on_desc_incref`: a slot in use gains a reader or a writer; a free slot, a bad identifier and
-- all other slots stay. The counter must not be at its 32-bit limit.
pub incref_refines :
    (ps : Pipes) (id : ℕ) (reads : Bool)
    → AllValid ps
    → (get ps id).read_refs < 2 ^ 32 - 1
    → (get ps id).write_refs < 2 ^ 32 - 1
    → let ps' = incref ps id (if reads then end_read else end_write) in
      (slot ps' id ≡ bind_slot (slot ps id) (λ c. some (Channel.join reads c))) × Keeps ps ps' id
unfolding incref
incref_refines ps id reads all hr hw =
    let one = incref_end_lem reads (get ps id) (all id) hr hw in
    at_pipe_refines (incref_end (if reads then end_read else end_write))
      (λ c. some (Channel.join reads c)) ps id one.0 one.1 all

-- `pipe_on_desc_decref`: a slot in use loses a reader or a writer, and is freed exactly when none of
-- either is left; all other slots stay.
pub decref_refines :
    (ps : Pipes) (id : ℕ) (reads : Bool)
    → AllValid ps
    → (get ps id).read_refs < 2 ^ 32
    → (get ps id).write_refs < 2 ^ 32
    → let ps' = decref ps id (if reads then end_read else end_write) in
      (slot ps' id ≡ bind_slot (slot ps id) (Channel.leave reads)) × Keeps ps ps' id
unfolding decref
decref_refines ps id reads all hr hw =
    let one = decref_end_lem reads (get ps id) (all id) hr hw in
    at_pipe_refines (decref_end (if reads then end_read else end_write)) (Channel.leave reads) ps id
      one.0 one.1 all

reset-IsValid : (used : Bool) (p : Pipe) → IsValid (reset used p)
reset-IsValid used p = omega arith

in_table : (j : ℕ) → j < max_pipes → leb max_pipes j ≡ false
in_table j h = ground arith

slot_used : (ps : Pipes) (j : ℕ) → j < max_pipes → not (get ps j).used ≡ false → slot ps j ≢ none
slot_used ps j h u e = clash (get ps j) u (sym (slot_in ps j (in_table j h)) ∙ e)
  where
    clash : (p : Pipe) → not p.used ≡ false → view p ≡ none → ⊥
    clash p u e = ground arith

-- What `pipe_create` leaves: the lowest free slot now holds an empty channel that nobody refers to,
-- or the table is full and unchanged.
abbrev pub Created : Pipes → Pipes × Result ℕ → Type 0
Created ps (ps', ok pid) =
    (pid < max_pipes)
    × (slot ps pid ≡ none)
    × ((j : ℕ) → j < pid → slot ps j ≢ none)
    × (slot ps' pid ≡ some fresh)
    × Keeps ps ps' pid
Created ps (ps', err e) =
    (e ≡ Errno.enomem) × (ps' ≡ ps) × ((j : ℕ) → j < max_pipes → slot ps j ≢ none)

created :
    (ps : Pipes) (o : Option ℕ)
    → first (λ i. not (get ps i).used) 0 max_pipes ≡ o
    → AllValid ps
    → Created ps (elim o [
      | none ↦ (ps, err Errno.enomem)
      | some pid ↦ (put ps pid (reset true (get ps pid)), ok pid)
    ])
created ps none e all =
    (refl, refl, λ j h. slot_used ps j h (first-none _ 0 max_pipes e j (omega arith) (omega arith)))
created ps (some pid) e all =
    let f = first-IsFirst (λ i. not (get ps i).used) 0 max_pipes e in
    let lt : pid < max_pipes = omega (arith, f.below) in
    (
      lt,
      slot_in ps pid (in_table pid lt) ∙ view_free (get ps pid) (ground (arith, f.passes)),
      λ j h. slot_used ps j (omega arith) (f.skipped j (omega arith) h),
      slot-put ps pid _ (in_table pid lt),
      put-Keeps ps pid _ all (reset-IsValid true (get ps pid)),
    )

-- `pipe_create` takes the lowest free slot and puts an empty channel there, all else unchanged; if
-- it fails, no slot was free, the error is ENOMEM and the table is as before.
pub create-Created : (ps : Pipes) → AllValid ps → Created ps (create ps)
unfolding create
create-Created ps all = created ps _ refl all

-- `pipe_abort` frees the slot, whatever it held, and touches no other slot.
pub abort_lem :
    (ps : Pipes) (id : ℕ) → AllValid ps → (slot (abort ps id) id ≡ none) × Keeps ps (abort ps id) id
unfolding abort
abort_lem ps id all = elim (Bool-cases (leb max_pipes id)) [
  | inl far ↦ rw far (slot_out ps id far, refl-Keeps ps id all)
  | inr near ↦
      rw near (slot-put ps id _ near, put-Keeps ps id _ all (reset-IsValid false (get ps id)))
]

-- After `pipe_init` every slot is free and every ring well formed, whatever the memory held.
pub init_lem :
    (ps : Pipes) (i : ℕ) → i < max_pipes → (slot (init ps) i ≡ none) × IsValid (get (init ps) i)
unfolding init
init_lem ps i h =
    let e : get (init ps) i ≡ reset false (get ps i) =
      get-for_below max_pipes (reset false) ps i ∙ simp (lt→ltb i max_pipes h) refl in
    (
      slot_in (init ps) i (in_table i h) ∙ ap view e,
      subst IsValid (sym e) (reset-IsValid false (get ps i)),
    )
