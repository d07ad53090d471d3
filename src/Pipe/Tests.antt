-- ===== src/Pipe/Tests.antt =====
-- Runs of the pipe's functions, and the theorems at concrete tables.
use mona_rpzero.Prelude.{
  ℕ, ◌+◌, ◌≡◌, refl, true, false, List, [], ◌∷◌, ◌++◌, none, some, Table, table, get, put, ok, err,
  arith, ◌==◌, if◌then◌else◌, first,
}
use mona_rpzero.Prelude.Errno
use mona_rpzero.Pipe.{Pipe, Pipes, read, write, create, incref, decref, init, abort}
use mona_rpzero.Pipe.Channel
use mona_rpzero.Pipe.Channel.{Channel, on_slot, fresh}
use mona_rpzero.Pipe.History.{Call, reads, writes, run, held, run_conserves}
use mona_rpzero.Pipe.Ring.{IsValid}
use mona_rpzero.Pipe.Slots.{
  slot, bind_slot, AllValid, Keeps, Created, read_refines, write_refines, incref_refines,
  decref_refines, create-Created, abort_lem, init_lem,
}

-- Memory that holds 10, 11, 12, …
abbrev source : Table ℕ
source = table (λ i. i + 10)

-- Three bytes round the end of the ring, one reader and one writer.
abbrev wrapped : Pipe
wrapped = record {
  used = true;
  buf = source;
  rpos = 1022;
  wpos = 1;
  count = 3;
  read_refs = 1;
  write_refs = 1;
}

abbrev pipes : Pipes
pipes = table (λ i. if i == 0 then wrapped else record wrapped { used = false })

pipes-AllValid : AllValid pipes
unfolding get
pipes-AllValid i = ground arith

read_wrapped : (read pipes 0 true 2).1 ≡ ok (1032 ∷ 1033 ∷ [])
unfolding read get put
read_wrapped = refl

read_all_wrapped : (read pipes 0 true 9).1 ≡ ok (1032 ∷ 1033 ∷ 10 ∷ [])
unfolding read get put
read_all_wrapped = refl

read_free : (read pipes 3 true 9).1 ≡ err Errno.ebadf
unfolding read get put
read_free = refl

write_then_read :
    (read (write pipes 0 (some source) 2).0 0 true 5).1 ≡ ok (1032 ∷ 1033 ∷ 10 ∷ 10 ∷ 11 ∷ [])
unfolding read write get put
write_then_read = refl

create_second : (create pipes).1 ≡ ok 1
unfolding create get put first
create_second = refl

read_refines_example :
    let (ps', r) = read pipes 0 true 2 in
    (◌≡◌ (slot ps' 0, r) (on_slot (slot pipes 0) (λ c. Channel.read c true 2))) × Keeps pipes ps' 0
read_refines_example = read_refines pipes 0 2 true pipes-AllValid

write_refines_example :
    let (ps', r) = write pipes 0 (some source) 2 in
    (◌≡◌ (slot ps' 0, r) (on_slot (slot pipes 0) (λ c. Channel.write c (some source) 2)))
    × Keeps pipes ps' 0
write_refines_example = write_refines pipes 0 2 (some source) pipes-AllValid

incref_refines_example :
    (slot (incref pipes 0 0) 0 ≡ bind_slot (slot pipes 0) (λ c. some (Channel.join true c)))
    × Keeps pipes (incref pipes 0 0) 0
unfolding get
incref_refines_example = incref_refines pipes 0 true pipes-AllValid (omega arith) (omega arith)

decref_refines_example :
    (slot (decref pipes 0 0) 0 ≡ bind_slot (slot pipes 0) (Channel.leave true))
    × Keeps pipes (decref pipes 0 0) 0
unfolding get
decref_refines_example = decref_refines pipes 0 true pipes-AllValid (omega arith) (omega arith)

create-Created_example : Created pipes (create pipes)
create-Created_example = create-Created pipes pipes-AllValid

abort_lem_example : (slot (abort pipes 0) 0 ≡ none) × Keeps pipes (abort pipes 0) 0
abort_lem_example = abort_lem pipes 0 pipes-AllValid

init_lem_example : (slot (init pipes) 4 ≡ none) × IsValid (get (init pipes) 4)
init_lem_example = init_lem pipes 4 (omega arith)

abbrev calls : List Call
calls = reads true 2 ∷ writes (some source) 4 ∷ reads true 3 ∷ []

run-calls : (run 0 pipes calls).received ≡ 1032 ∷ 1033 ∷ 10 ∷ 10 ∷ 11 ∷ []
unfolding run read write get put
run-calls = refl

run_conserves_example :
    held (slot pipes 0) ++ (run 0 pipes calls).sent
    ≡ (run 0 pipes calls).received ++ held (slot (run 0 pipes calls).pipes 0)
run_conserves_example = run_conserves calls 0 pipes pipes-AllValid
