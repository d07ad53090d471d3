-- ===== src/Pipe/Refine.antt =====
-- A valid pipe behaves as the channel that it holds, on every branch of every operation.
use mona_rpzero.Prelude.{
  ℕ, zero, suc, ◌+◌, ◌-◌, ◌≤◌, ◌≡◌, refl, ap, Bool, true, List, [], ◌∷◌, ◌++◌, Option, none, some,
  length, take, drop, Table, slice, arith, sub32, add32,
}
use mona_rpzero.Pipe.{Pipe, take_bytes, add_bytes, read_pipe, write_pipe, copy_out, copy_in}
use mona_rpzero.Pipe.Channel
use mona_rpzero.Pipe.Channel.{Channel}
use mona_rpzero.Pipe.Ring.{IsValid, contents, window, length-window, copy_out_lem, copy_in_lem}

-- The channel of a slot; a slot that is not in use has none.
abbrev pub channel : Pipe → Channel
channel p = record { queue = contents p; readers = p.read_refs; writers = p.write_refs }

take_all : {A : Type 0} (n : ℕ) (xs : List A) → length xs ≤ n → take n xs ≡ xs
take_all zero [] h = refl
take_all zero (x ∷ xs) h = absurd (omega arith)
take_all (suc n) [] h = refl
take_all (suc n) (x ∷ xs) h = ap (◌∷◌ x) (take_all n xs (omega arith))

drop_all : {A : Type 0} (n : ℕ) (xs : List A) → length xs ≤ n → drop n xs ≡ []
drop_all zero [] h = refl
drop_all zero (x ∷ xs) h = absurd (omega arith)
drop_all (suc n) [] h = refl
drop_all (suc n) (x ∷ xs) h = drop_all n xs (omega arith)

take_bytes_lem :
    (n : ℕ) (p : Pipe)
    → IsValid p
    → n ≤ p.count
    → let (p', bytes) = take_bytes n p in
      (bytes ≡ take n (contents p))
      × (channel p' ≡ record (channel p) { queue = drop n (contents p) })
      × IsValid p'
      × (p'.used ≡ p.used)
unfolding take_bytes
take_bytes_lem n p v le =
    let out = copy_out_lem n p.count p.buf p.rpos v.read_in le in
    ground (arith, out, ap (window p.buf (copy_out n p.buf p.rpos).1) count_lem)
  where
    count_lem : sub32 p.count n ≡ p.count - n
    count_lem = omega (arith, v.full)

pub read_pipe_refines :
    (p : Pipe) (len : ℕ) (dst : Bool)
    → p.used ≡ true
    → IsValid p
    → let (p', r) = read_pipe dst len p in
      ((channel p', r) ≡ Channel.read (channel p) dst len) × IsValid p' × (p'.used ≡ true)
unfolding read_pipe Channel.read
read_pipe_refines p len dst u v = ground (
  arith,
  length-window p.buf p.rpos p.count,
  take_bytes_lem len p,
  take_bytes_lem p.count p,
  take_all p.count (contents p),
  drop_all p.count (contents p),
  take_all len (contents p),
  drop_all len (contents p),
)

add_bytes_lem :
    (n : ℕ) (src : Table ℕ) (p : Pipe)
    → IsValid p
    → p.count + n ≤ 1024
    → let p' = add_bytes n src p in
      (channel p' ≡ record (channel p) { queue = contents p ++ slice src 0 n })
      × IsValid p'
      × (p'.used ≡ p.used)
unfolding add_bytes
add_bytes_lem n src p v le =
    let out = copy_in_lem n src 0 p.buf p.rpos p.count p.wpos v.read_in le v.write_at in
    ground (arith, out, ap (window (copy_in n src 0 p.buf p.wpos).0 p.rpos) count_lem)
  where
    count_lem : add32 p.count n ≡ p.count + n
    count_lem = omega arith

pub write_pipe_refines :
    (p : Pipe) (len : ℕ) (src : Option (Table ℕ))
    → p.used ≡ true
    → IsValid p
    → let (p', r) = write_pipe src len p in
      ((channel p', r) ≡ Channel.write (channel p) src len) × IsValid p' × (p'.used ≡ true)
unfolding write_pipe Channel.write
write_pipe_refines p len none u v = ground arith
write_pipe_refines p len (some src) u v = ground (
  arith,
  length-window p.buf p.rpos p.count,
  add_bytes_lem len src p,
  add_bytes_lem (1024 - p.count) src p,
  ap (λ k. slice src 0 k) space,
  space,
)
  where
    space : sub32 1024 p.count ≡ 1024 - p.count
    space = omega (arith, v.full)
