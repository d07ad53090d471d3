-- ===== src/Calls/NewPipe.antt =====
-- `sys_pipe2` on every branch.
use mona_rpzero.Prelude.{
  refl, ℕ, ◌+◌, ◌≤◌, ◌<◌, ◌≡◌, sym, ap, ◌∙◌, ◌≢◌, true, false, not, Option, none, some, Table, get,
  get-put_self, get-put_ne, if_cases, ◌==◌, arith, Result, ok, err,
}
use mona_rpzero.Prelude.Errno
use mona_rpzero.Path.{user_range_ok}
use mona_rpzero.Pipe
use mona_rpzero.Pipe.{Pipe, Pipes, reset, end_read, end_write}
use mona_rpzero.Fd.{Open, Desc, FdTable, put_desc, unused, desc_clear, desc_alloc}
use mona_rpzero.Fd.Counts.{Key, reader}
use mona_rpzero.Fd.Shared.{weight}
use mona_rpzero.Fd.Keep.{
  IsCounted, one_at, weight_unused, AllocOutcome, full, allocated, desc_alloc-AllocOutcome,
  one_at-le,
}
use mona_rpzero.Calls.{open_end, described, describe, sys_pipe2}
use mona_rpzero.Calls.Fresh.{
  IsIdle, with_reset, with_reset-IsCounted, free-IsIdle, open_end-IsCounted, open_end_used,
  CreateOutcome, no_pipe, new_pipe, create-CreateOutcome, with_reset-IsIdle, open_end_self,
  open_end_ne,
}
use mona_rpzero.Calls.Frame.{Else, open_end-Else, with_reset-Else}
use mona_rpzero.Calls.Install.{gives_up, installs}
use mona_rpzero.Calls.Undo.{
  Shortage, PipeOutcome, bad_flags, bad_address, failed, Rest, clear_blank, put_desc-IsIdle,
}

module _ (o0 : Open) (t : FdTable) (extra : ℕ → ℕ) (mem : Table ℕ) (pipefd_user flags pid : ℕ)
    (c0 : IsCounted o0 t extra) (lt : pid < 16) (unused_pipe : (get o0.pipes pid).used ≡ false)
    (in_user : user_range_ok pipefd_user 8 ≡ true) where
  module _ (o : Open) (c : IsCounted o t extra) (room : (j : ℕ) → extra j ≤ 528)
      (idle : IsIdle o pid) (used : (get o.pipes pid).used ≡ true) (else_o : Else o0 o pid)
      (same_descs : (d : ℕ) → get o.descs d ≡ get o0.descs d) where
    abbrev blank : Desc
    blank = record { kind = unused; refs = 1 }

    no_desc : ((d : ℕ) → d < 64 → 0 < (get o.descs d).refs) → Shortage o0 t
    no_desc h = Shortage.descs 0 (λ d d_lt ne. omega (arith, h d d_lt, ap Desc.refs (same_descs d)))

    -- Neither description, or the second alone.
    without_read :
        ((d : ℕ) → d < 64 → 0 < (get o.descs d).refs)
        → (y : Open × Option ℕ) → AllocOutcome o t extra y
        → PipeOutcome o0 t extra mem pipefd_user flags
            (described y.0 t mem pipefd_user pid none y.1)
    unfolding described
    without_read none_left y (full h) =
        gives_up o0 t extra mem pipefd_user flags pid c0 lt unused_pipe in_user o idle c
          (no_desc none_left) else_o
    without_read none_left y (allocated d d_lt zero_refs low c1) =
        gives_up o0 t extra mem pipefd_user flags pid c0 lt unused_pipe in_user
          (put_desc (put_desc o d blank) d desc_clear)
          (put_desc-IsIdle (put_desc o d blank) pid d desc_clear
            (put_desc-IsIdle o pid d blank idle))
          (clear_blank o t extra d d_lt c1) (no_desc none_left) else_o

    module _ (r : ℕ) (r_lt : r < 64) (r_free : (get o.descs r).refs ≡ 0)
        (c1 : IsCounted (put_desc o r blank) t (λ j. extra j + one_at r j)) where
      abbrev o1 : Open
      o1 = put_desc o r blank

      -- The first alone.
      without_write :
          ((d : ℕ) → d < 64 → 0 < (get o1.descs d).refs)
          → PipeOutcome o0 t extra mem pipefd_user flags
              (described o1 t mem pipefd_user pid (some r) none)
      unfolding described
      without_write full_now =
          gives_up o0 t extra mem pipefd_user flags pid c0 lt unused_pipe in_user
            (put_desc o1 r desc_clear)
            (put_desc-IsIdle o1 pid r desc_clear (put_desc-IsIdle o pid r blank idle))
            (clear_blank o t extra r r_lt c1)
            (Shortage.descs r (λ d d_lt ne. omega (
              arith,
              full_now d d_lt,
              ap Desc.refs (get-put_ne o.descs r d blank ne ∙ same_descs d),
            )))
            else_o

      module _ (w : ℕ) (w_lt : w < 64) (w_free : (get o1.descs w).refs ≡ 0)
          (c2 : IsCounted (put_desc o1 w blank) t (λ j. extra j + one_at r j + one_at w j)) where
        abbrev o2 : Open
        o2 = put_desc o1 w blank

        two_descs : w ≢ r
        two_descs e = absurd (
            omega (
              arith,
              ap (λ i. (get o1.descs i).refs) e,
              ap Desc.refs (get-put_self o.descs r blank),
            ))

        abbrev o3 : Open
        o3 = open_end o2 r pid end_read

        abbrev o4 : Open
        o4 = open_end o3 w pid end_write

        abbrev both_refs : ℕ → ℕ
        both_refs j = extra j + one_at r j + one_at w j

        at_r : get o2.descs r ≡ blank
        at_r = get-put_ne o1.descs w r blank (λ e. two_descs (sym e)) ∙ get-put_self o.descs r blank

        no_weight : (d : Desc) → d ≡ blank → (key : Key) → weight d key ≡ 0
        no_weight d e key = ap (λ x. weight x key) e ∙ weight_unused 1 key

        c3 : IsCounted o3 t both_refs
        c3 =
            open_end-IsCounted o2 t both_refs c2 r pid end_read r_lt used
              (no_weight (get o2.descs r) at_r) (ap Desc.refs at_r)

        at_w : get o3.descs w ≡ blank
        at_w = open_end_ne o2 r pid end_read w two_descs ∙ get-put_self o1.descs w blank

        c4 : IsCounted o4 t both_refs
        c4 =
            open_end-IsCounted o3 t both_refs c3 w pid end_write w_lt
              (open_end_used o2 t both_refs c2 r pid end_read r_lt used
                  (no_weight (get o2.descs r) at_r) (ap Desc.refs at_r) (reader pid) lt
                ∙ used)
              (no_weight (get o3.descs w) at_w) (ap Desc.refs at_w)

        rest4 : Rest o o4 r w
        rest4 j nr nw =
            open_end_ne o3 w pid end_write j nw
            ∙ open_end_ne o2 r pid end_read j nr
            ∙ get-put_ne o1.descs w j blank nw
            ∙ get-put_ne o.descs r j blank nr

        with_both_descs :
            PipeOutcome o0 t extra mem pipefd_user flags
              (described o2 t mem pipefd_user pid (some r) (some w))
        unfolding described
        with_both_descs =
            installs o0 t extra mem pipefd_user flags pid c0 lt unused_pipe in_user o o4 r w c idle
              c4 r_lt w_lt two_descs r_free
              (ap Desc.refs (sym (get-put_ne o.descs r w blank two_descs)) ∙ w_free)
              (ap Desc.kind (open_end_ne o3 w pid end_write r (λ e. two_descs (sym e)))
                ∙ ap Desc.kind (open_end_self o2 r pid end_read))
              (ap Desc.kind (open_end_self o3 w pid end_write)) rest4
              (λ j ne.
                open_end-Else o3 w pid end_write j ne
                ∙ open_end-Else o2 r pid end_read j ne
                ∙ else_o j ne)

      with_read :
          (y : Open × Option ℕ)
          → AllocOutcome o1 t (λ j. extra j + one_at r j) y
          → PipeOutcome o0 t extra mem pipefd_user flags
              (described y.0 t mem pipefd_user pid (some r) y.1)
      with_read y (full h) = without_write h
      with_read y (allocated w w_lt w_free low c2) = with_both_descs w w_lt w_free c2

    describes_from :
        (x : Open × Option ℕ)
        → AllocOutcome o t extra x
        → let (o2, wdesc) = desc_alloc x.0 in
          PipeOutcome o0 t extra mem pipefd_user flags
            (described o2 t mem pipefd_user pid x.1 wdesc)
    describes_from x (full h) =
        without_read h (desc_alloc o)
          (desc_alloc-AllocOutcome o t extra c (λ j. omega (arith, room j)))
    describes_from x (allocated r r_lt r_free low c1) =
        with_read r r_lt r_free c1 (desc_alloc (put_desc o r blank)) (
          desc_alloc-AllocOutcome (put_desc o r blank) t (λ j. extra j + one_at r j) c1
            (λ j. omega (arith, room j, one_at-le r j)))

    describes : PipeOutcome o0 t extra mem pipefd_user flags (describe o t mem pipefd_user pid)
    unfolding describe
    describes =
        describes_from (desc_alloc o)
          (desc_alloc-AllocOutcome o t extra c (λ j. omega (arith, room j)))

creates :
    (o : Open) (t : FdTable) (extra : ℕ → ℕ) (mem : Table ℕ) (pipefd_user flags : ℕ)
    → IsCounted o t extra
    → ((j : ℕ) → extra j ≤ 528)
    → user_range_ok pipefd_user 8 ≡ true
    → (x : Pipes × Result ℕ) → CreateOutcome o x
    → PipeOutcome o t extra mem pipefd_user flags (elim x.1 [
      | err e ↦ ((record o { pipes = x.0 }, t), (mem, err Errno.emfile))
      | ok pid ↦ describe (record o { pipes = x.0 }) t mem pipefd_user pid
    ])
creates o t extra mem pipefd_user flags c room in_user x (no_pipe h) =
    failed o (Shortage.pipes h)
      (record { same_use = λ p. refl; kept = λ p used. refl; refs = λ d lt. refl }) c
creates o t extra mem pipefd_user flags c room in_user x (new_pipe pid lt is_free) =
    let idle : IsIdle o pid = free-IsIdle o pid lt c.shared is_free in
    describes o t extra mem pipefd_user flags pid c lt is_free in_user (with_reset true o pid)
      (with_reset-IsCounted true o pid idle t extra c) room (with_reset-IsIdle true o pid idle)
      (ap Pipe.used (get-put_self o.pipes pid (reset true (get o.pipes pid))))
      (with_reset-Else true o pid) (λ d. refl)

pub sys_pipe2-PipeOutcome :
    (o : Open) (t : FdTable) (extra : ℕ → ℕ) (mem : Table ℕ) (pipefd_user flags : ℕ)
    → IsCounted o t extra
    → ((j : ℕ) → extra j ≤ 528)
    → PipeOutcome o t extra mem pipefd_user flags (sys_pipe2 o t mem pipefd_user flags)
unfolding sys_pipe2
sys_pipe2-PipeOutcome o t extra mem pipefd_user flags c room =
    if_cases (PipeOutcome o t extra mem pipefd_user flags) (not (flags == 0))
      (λ h. bad_flags (ground arith))
      (λ _.
        if_cases (PipeOutcome o t extra mem pipefd_user flags) (not (user_range_ok pipefd_user 8))
          (λ h. bad_address (ground arith))
          (λ h.
            creates o t extra mem pipefd_user flags c room (ground arith) (Pipe.create o.pipes)
              (create-CreateOutcome o)))
