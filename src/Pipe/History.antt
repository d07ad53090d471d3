-- ===== src/Pipe/History.antt =====
-- A pipe as a byte stream: any sequence of reads and writes by callers that hold both ends.
use mathlib.Core.List.{append-nil, append_assoc}
use mona_rpzero.Prelude.{
  ℕ, zero, suc, ◌≡◌, refl, sym, ap, ◌∙◌, Bool, List, [], ◌∷◌, ◌++◌, Option, none, some, take, drop,
  slice, Table, Result, ok, err, arith,
}
use mona_rpzero.Pipe.{Pipes, read, write}
use mona_rpzero.Pipe.Channel
use mona_rpzero.Pipe.Channel.{Channel, on_slot}
use mona_rpzero.Pipe.Slots.{slot, AllValid, read_refines, write_refines}

pub data Call : Type 0 where
  reads : Bool → ℕ → Call
  writes : Option (Table ℕ) → ℕ → Call

-- What a call hands over: the bytes that a reader gets, and those that a writer gets rid of.
abbrev got : Result (List ℕ) → List ℕ
got (ok bytes) = bytes
got (err e) = []

abbrev gave : Option (Table ℕ) → Result ℕ → List ℕ
gave none r = []
gave (some src) (ok n) = slice src 0 n
gave (some src) (err e) = []

pub record Trace : Type 0 where
  pub pipes : Pipes
  pub sent : List ℕ
  pub received : List ℕ

unfoldable pub run : ℕ → Pipes → List Call → Trace
run id ps [] = record { pipes = ps; sent = []; received = [] }
run id ps (reads dst len ∷ cs) =
    let (ps', r) = read ps id dst len in
    let t = run id ps' cs in record t { received = got r ++ t.received }
run id ps (writes src len ∷ cs) =
    let (ps', r) = write ps id src len in
    let t = run id ps' cs in record t { sent = gave src r ++ t.sent }

-- The bytes of a slot, none if it is free.
abbrev pub held : Option Channel → List ℕ
held none = []
held (some c) = c.queue

take-append-drop : (n : ℕ) (xs : List ℕ) → take n xs ++ drop n xs ≡ xs
take-append-drop zero xs = refl
take-append-drop (suc n) [] = refl
take-append-drop (suc n) (x ∷ xs) = ap (◌∷◌ x) (take-append-drop n xs)

read_step :
    (s : Option Channel) (dst : Bool) (len : ℕ)
    → let (s', r) = on_slot s (λ c. Channel.read c dst len) in got r ++ held s' ≡ held s
unfolding Channel.read
read_step none dst len = refl
read_step (some c) dst len = ground (arith, take-append-drop len c.queue)

write_step :
    (s : Option Channel) (src : Option (Table ℕ)) (len : ℕ)
    → let (s', r) = on_slot s (λ c. Channel.write c src len) in held s' ≡ held s ++ gave src r
unfolding Channel.write slice
write_step none none len = refl
write_step none (some src) len = refl
write_step (some c) none len = ground (arith, append-nil c.queue)
write_step (some c) (some src) len = ground (arith, append-nil c.queue)

-- On a table of well-formed rings, the bytes that a pipe held at first and those that were accepted
-- by `pipe_write` since are, in order, exactly those that `pipe_read` handed out followed by those
-- that it still holds: none is lost, doubled, changed or reordered, whatever the sequence of calls.
pub run_conserves :
    (cs : List Call) (id : ℕ) (ps : Pipes)
    → AllValid ps
    → let t = run id ps cs in held (slot ps id) ++ t.sent ≡ t.received ++ held (slot t.pipes id)
unfolding run
run_conserves [] id ps all = append-nil (held (slot ps id))
run_conserves (reads dst len ∷ cs) id ps all =
    let step = read_refines ps id len dst all in
    let ps' = (read ps id dst len).0 in
    let r = (read ps id dst len).1 in
    let moved : got r ++ held (slot ps' id) ≡ held (slot ps id) =
      ap (λ t. got t.1 ++ held t.0) step.0 ∙ read_step (slot ps id) dst len in
    ap (λ l. l ++ (run id ps' cs).sent) (sym moved)
    ∙ append_assoc (got r) (held (slot ps' id)) (run id ps' cs).sent
    ∙ ap (◌++◌ (got r)) (run_conserves cs id ps' step.1.valid)
    ∙ sym (append_assoc (got r) (run id ps' cs).received (held (slot (run id ps' cs).pipes id)))
run_conserves (writes src len ∷ cs) id ps all =
    let step = write_refines ps id len src all in
    let ps' = (write ps id src len).0 in
    let r = (write ps id src len).1 in
    let moved : held (slot ps' id) ≡ held (slot ps id) ++ gave src r =
      ap held (ap (λ t. t.0) step.0)
      ∙ write_step (slot ps id) src len
      ∙ ap (λ t. held (slot ps id) ++ gave src t.1) (sym step.0) in
    sym (append_assoc (held (slot ps id)) (gave src r) (run id ps' cs).sent)
    ∙ ap (λ l. l ++ (run id ps' cs).sent) (sym moved)
    ∙ run_conserves cs id ps' step.1.valid
