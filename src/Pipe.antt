-- ===== src/Pipe.antt =====
-- kernel-aarch64/pipe.c: the table of pipes, each a ring of 1024 bytes with a count of the
-- descriptors on either end.
pub mod Channel
pub mod Ring
pub mod Refine
pub mod Slots
pub mod History
mod Tests
use mona_rpzero.Prelude.{
  ℕ, zero, suc, ◌+◌, ◌%◌, ◌^◌, Bool, true, false, not, ◌&&◌, Option, none, some, List, [], ◌∷◌, ltb,
  leb, ◌==◌, if◌then◌else◌, Table, get, put, for_below, first, Result, ok, err, add32, sub32,
}
use mona_rpzero.Prelude.Errno

abbrev pub max_pipes : ℕ
max_pipes = 16

abbrev pub pipe_buf : ℕ
pipe_buf = 1024

-- `pipe_t`
pub record Pipe : Type 0 where
  pub used : Bool
  pub buf : Table ℕ
  pub rpos : ℕ
  pub wpos : ℕ
  pub count : ℕ
  pub read_refs : ℕ
  pub write_refs : ℕ

-- `g_pipes`, of which the code touches the first `max_pipes`.
abbrev pub Pipes : Type 0
Pipes = Table Pipe

-- PIPE_END_READ and PIPE_END_WRITE
abbrev pub end_read : ℕ
end_read = 0

abbrev pub end_write : ℕ
end_write = 1

-- The assignments that `pipe_init`, `pipe_create` and `pipe_abort` share; the bytes stay.
abbrev pub reset : Bool → Pipe → Pipe
reset used p = record p {
  used = used;
  rpos = 0;
  wpos = 0;
  count = 0;
  read_refs = 0;
  write_refs = 0;
}

unfoldable pub init : Pipes → Pipes
init = for_below max_pipes (reset false)

-- The identifier is what goes through `out_pipe_id`; the callers pass a pointer to a local.
unfoldable pub create : Pipes → Pipes × Result ℕ
create ps = elim (first (λ i. not (get ps i).used) 0 max_pipes) [
  | none ↦ (ps, err Errno.enomem)
  | some pid ↦ (put ps pid (reset true (get ps pid)), ok pid)
]

unfoldable pub abort : Pipes → ℕ → Pipes
abort ps id = if leb max_pipes id then ps else put ps id (reset false (get ps id))

-- `pipe_maybe_free` on the pipe itself: its callers have checked the index.
maybe_free : Pipe → Pipe
maybe_free p =
    if not p.used
    then p
    else if p.read_refs == 0 && p.write_refs == 0
    then record p { used = false; rpos = 0; wpos = 0; count = 0 }
    else p

-- The two kinds of functions below: one on the pipe behind `pp`, and the C function, which checks
-- the index and finds the pipe. Where the C function leaves the table alone, the same pipe is put
-- back.
abbrev pub at_pipe : Pipes → ℕ → (Pipe → Pipe) → Pipes
at_pipe ps id f = if leb max_pipes id then ps else put ps id (f (get ps id))

abbrev pub at_pipe_or {ℓ} : {A : Type ℓ} → Pipes → ℕ → (Pipe → Pipe × Result A) → Pipes × Result A
at_pipe_or ps id f =
    if leb max_pipes id
    then (ps, err Errno.ebadf)
    else let (p, r) = f (get ps id) in (put ps id p, r)

unfoldable pub incref_end : ℕ → Pipe → Pipe
incref_end end p =
    if not p.used
    then p
    else if end == end_read
    then record p { read_refs = add32 p.read_refs 1 }
    else if end == end_write
    then record p { write_refs = add32 p.write_refs 1 }
    else p

unfoldable pub incref : Pipes → ℕ → ℕ → Pipes
unfolding incref_end
incref ps id end = at_pipe ps id (incref_end end)

-- The counter of one end, after the guards.
abbrev drop_ref : Pipe → ℕ → Pipe
drop_ref p end =
    if end == end_read
    then (if ltb 0 p.read_refs then record p { read_refs = sub32 p.read_refs 1 } else p)
    else if end == end_write
    then (if ltb 0 p.write_refs then record p { write_refs = sub32 p.write_refs 1 } else p)
    else p

unfoldable pub decref_end : ℕ → Pipe → Pipe
unfolding maybe_free
decref_end end p = if not p.used then p else maybe_free (drop_ref p end)

unfoldable pub decref : Pipes → ℕ → ℕ → Pipes
unfolding decref_end
decref ps id end = at_pipe ps id (decref_end end)

abbrev pub next_pos : ℕ → ℕ
next_pos i = add32 i 1 % pipe_buf

-- The loop of `pipe_read`: the bytes that go to `dst`, and the read position after them.
pub copy_out : ℕ → Table ℕ → ℕ → List ℕ × ℕ
copy_out zero buf rpos = ([], rpos)
copy_out (suc n) buf rpos =
    let (rest, r) = copy_out n buf (next_pos rpos) in (get buf rpos ∷ rest, r)

-- The end of `pipe_read`: `n` bytes leave the ring.
pub take_bytes : ℕ → Pipe → Pipe × List ℕ
take_bytes n p =
    let (bytes, r) = copy_out n p.buf p.rpos in
    (record p { rpos = r; count = sub32 p.count n }, bytes)

-- `dst` tells whether the pointer is not null. The bytes of an `ok` are those stored at `dst`, and
-- their number is what the C function returns.
pub read_pipe : Bool → ℕ → Pipe → Pipe × Result (List ℕ)
read_pipe dst len p =
    let (p', bytes) = take_bytes (if ltb len p.count then len else p.count) p in
    if not p.used
    then (p, err Errno.ebadf)
    else if len == 0
    then (p, ok [])
    else if not dst
    then (p, err Errno.ebadf)
    else if p.count == 0
    then (p, if p.write_refs == 0 then ok [] else err Errno.eagain)
    else (p', ok bytes)

unfoldable pub read : Pipes → ℕ → Bool → ℕ → Pipes × Result (List ℕ)
unfolding read_pipe take_bytes copy_out
read ps id dst len = at_pipe_or ps id (read_pipe dst len)

-- The loop of `pipe_write`, from byte `i` of `src` on.
pub copy_in : ℕ → Table ℕ → ℕ → Table ℕ → ℕ → Table ℕ × ℕ
copy_in zero src i buf wpos = (buf, wpos)
copy_in (suc n) src i buf wpos = copy_in n src (i + 1) (put buf wpos (get src i)) (next_pos wpos)

-- The end of `pipe_write`: `n` bytes of the source join the ring.
pub add_bytes : ℕ → Table ℕ → Pipe → Pipe
add_bytes n src p =
    let (buf', w) = copy_in n src 0 p.buf p.wpos in
    record p { buf = buf'; wpos = w; count = add32 p.count n }

-- `src` is the memory behind the pointer, `none` for null. An `ok` holds the number returned.
pub write_pipe : Option (Table ℕ) → ℕ → Pipe → Pipe × Result ℕ
write_pipe none len p =
    if not p.used
    then (p, err Errno.ebadf)
    else if len == 0
    then (p, ok 0)
    else (p, err Errno.ebadf)
write_pipe (some src) len p =
    let space = sub32 pipe_buf p.count in
    let n = if ltb len space then len else space in
    if not p.used
    then (p, err Errno.ebadf)
    else if len == 0
    then (p, ok 0)
    else if p.read_refs == 0
    then (p, err Errno.epipe)
    else if p.count == pipe_buf
    then (p, err Errno.eagain)
    else (add_bytes n src p, ok n)

unfoldable pub write : Pipes → ℕ → Option (Table ℕ) → ℕ → Pipes × Result ℕ
unfolding write_pipe add_bytes copy_in
write ps id src len = at_pipe_or ps id (write_pipe src len)
