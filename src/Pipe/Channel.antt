-- ===== src/Pipe/Channel.antt =====
-- What a pipe promises, without the ring: a queue of at most 1024 bytes between readers and
-- writers. A slot of the table holds such a channel, or is free (`none`).
use mona_rpzero.Prelude.{
  ℕ, ◌+◌, ◌-◌, Bool, true, false, not, ◌&&◌, Option, none, some, List, [], ◌++◌, ◌==◌,
  if◌then◌else◌, ◌&&◌, length, take, drop, slice, Table, min, Result, ok, err,
}
use mona_rpzero.Prelude.Errno

pub record Channel : Type 0 where
  pub queue : List ℕ
  pub readers : ℕ
  pub writers : ℕ

abbrev pub capacity : ℕ
capacity = 1024

abbrev pub fresh : Channel
fresh = record { queue = []; readers = 0; writers = 0 }

-- An empty channel with no writer is at its end; with a writer the reader has to wait.
unfoldable pub read : Channel → Bool → ℕ → Channel × Result (List ℕ)
read c dst len =
    if len == 0
    then (c, ok [])
    else if not dst
    then (c, err Errno.ebadf)
    else if length c.queue == 0
    then (c, if c.writers == 0 then ok [] else err Errno.eagain)
    else (record c { queue = drop len c.queue }, ok (take len c.queue))

unfoldable pub write : Channel → Option (Table ℕ) → ℕ → Channel × Result ℕ
write c none len = if len == 0 then (c, ok 0) else (c, err Errno.ebadf)
write c (some src) len =
    let n = min len (capacity - length c.queue) in
    if len == 0
    then (c, ok 0)
    else if c.readers == 0
    then (c, err Errno.epipe)
    else if length c.queue == capacity
    then (c, err Errno.eagain)
    else (record c { queue = c.queue ++ slice src 0 n }, ok n)

-- A call on a slot with no channel fails with EBADF.
abbrev pub on_slot {ℓ} :
    {A : Type ℓ} → Option Channel → (Channel → Channel × Result A) → Option Channel × Result A
on_slot none f = (none, err Errno.ebadf)
on_slot (some c) f = let (c', r) = f c in (some c', r)

-- A descriptor more, and one fewer: the last one frees the slot.
unfoldable pub join : Bool → Channel → Channel
join true c = record c { readers = c.readers + 1 }
join false c = record c { writers = c.writers + 1 }

unfoldable pub leave : Bool → Channel → Option Channel
leave reads c =
    let readers = if reads then c.readers - 1 else c.readers in
    let writers = if reads then c.writers else c.writers - 1 in
    if readers == 0 && writers == 0
    then none
    else some (record c { readers = readers; writers = writers })
