-- ===== src/Calls/Frame.antt =====
-- Which pipes the steps of `sys_pipe2` leave alone.
use mona_rpzero.Prelude.{
  ℕ, ◌≡◌, refl, sym, ◌≢◌, Bool, get, get-put_ne, subst, if_cases, leb, ◌==◌, add32,
}
use mona_rpzero.Pipe
use mona_rpzero.Pipe.{Pipe, Pipes, reset, at_pipe, incref_end, decref_end}
use mona_rpzero.Fd.{
  Open, Kind, put_desc, hook_incref, hook_decref, desc_incref, desc_decref, with_refs,
}
use mona_rpzero.Calls.{open_end}
use mona_rpzero.Calls.Fresh.{with_reset}

-- No pipe but `pid` has changed.
abbrev pub Else : Open → Open → ℕ → Type 0
Else o o' pid = (j : ℕ) → j ≢ pid → get o'.pipes j ≡ get o.pipes j

pub with_reset-Else : (used : Bool) (o : Open) (pid : ℕ) → Else o (with_reset used o pid) pid
with_reset-Else used o pid j ne = get-put_ne o.pipes pid j (reset used (get o.pipes pid)) ne

at_pipe_ne :
    (ps : Pipes) (id : ℕ) (f : Pipe → Pipe) (j : ℕ) → j ≢ id → get (at_pipe ps id f) j ≡ get ps j
at_pipe_ne ps id f j ne =
    if_cases (λ (qs : Pipes). get qs j ≡ get ps j) (leb 16 id) (λ _. refl)
      (λ _. get-put_ne ps id j (f (get ps id)) ne)

hook_incref-Else :
    (o : Open) (kind : Kind) (pid end : ℕ)
    → kind ≡ Kind.pipe pid end
    → Else o (hook_incref o kind) pid
unfolding Pipe.incref
hook_incref-Else o kind pid end e =
    subst (λ k. Else o (hook_incref o k) pid) (sym e)
      (λ j ne. at_pipe_ne o.pipes pid (incref_end end) j ne)

hook_decref-Else :
    (o : Open) (kind : Kind) (pid end : ℕ)
    → kind ≡ Kind.pipe pid end
    → Else o (hook_decref o kind) pid
unfolding Pipe.decref
hook_decref-Else o kind pid end e =
    subst (λ k. Else o (hook_decref o k) pid) (sym e)
      (λ j ne. at_pipe_ne o.pipes pid (decref_end end) j ne)

pub open_end-Else : (o : Open) (i pid end : ℕ) → Else o (open_end o i pid end) pid
unfolding open_end
open_end-Else o i pid end =
    hook_incref-Else (put_desc o i (record { kind = Kind.pipe pid end; refs = 1 }))
      (Kind.pipe pid end) pid end refl

pub desc_incref-Else :
    (o : Open) (i pid end : ℕ)
    → (get o.descs i).kind ≡ Kind.pipe pid end
    → Else o (desc_incref o i) pid
unfolding desc_incref
desc_incref-Else o i pid end e j ne =
    if_cases (λ (o' : Open). get o'.pipes j ≡ get o.pipes j) (leb 64 i) (λ _. refl)
      (λ _.
        if_cases (λ (o' : Open). get o'.pipes j ≡ get o.pipes j) ((get o.descs i).refs == 0)
          (λ _. refl)
          (λ _.
            hook_incref-Else
              (put_desc o i (with_refs (add32 (get o.descs i).refs 1) (get o.descs i)))
              (get o.descs i).kind pid end e j ne))

pub desc_decref-Else :
    (o : Open) (i pid end : ℕ)
    → (get o.descs i).kind ≡ Kind.pipe pid end
    → Else o (desc_decref o i) pid
unfolding desc_decref
desc_decref-Else o i pid end e j ne =
    if_cases (λ (o' : Open). get o'.pipes j ≡ get o.pipes j) (leb 64 i) (λ _. refl)
      (λ _.
        if_cases (λ (o' : Open). get o'.pipes j ≡ get o.pipes j) ((get o.descs i).refs == 0)
          (λ _. refl) (λ _. hook_decref-Else o (get o.descs i).kind pid end e j ne))
