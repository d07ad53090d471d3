-- ===== src/Sched/Books.antt =====
-- The books of the descriptors when processes end.
use mona_rpzero.Prelude.{
  ap, ◌≡◌, ◌∙◌, refl, get-put_self, get-for_below, lt→ltb, ℕ, ◌+◌, ◌<◌, sym, inl, inr, Bool, not,
  ◌&&◌, ◌||◌, Option, none, some, Option-cases, get, first, first-IsFirst, IsFirst, arith, subst,
  if_cases, ◌==◌,
}
use Prim.Native.Nat.{bit_and}
use mona_rpzero.Path.{user_range_ok}
use mona_rpzero.Calls.Processes.{
  IsBalanced, Step, Step-IsBalanced, others, balanced-IsCounted, counted-IsBalanced,
}
use mona_rpzero.Calls.Close.{close_all_lem}
use mona_rpzero.Fd.{Open, FdTable, proc_close_all_fds}
use mona_rpzero.Fd.Keep.{IsCounted, fds_to-none}
use mona_rpzero.Sched.{
  Kernel, reap, resume, clear_fds, accepts, close_fds, wake_parent, end_process, reapable, is_child,
  sys_wait4, Waited, noted, is_some, waits_as, store_status, clear_tid, sys_kill, Killed, has_pid,
  is_zombie, proc_find_idx_by_pid,
}
use mona_rpzero.Sched.Ends.{SameTables, clear_tid-SameTables, store_status-SameTables}

-- The descriptors of all processes and what they lead to.
abbrev pub Balanced : Kernel → Type 0
Balanced k = IsBalanced k.files k.fdts

-- No descriptor of process `i` leads anywhere.
abbrev pub HasNoFds : Kernel → ℕ → Type 0
HasNoFds k i = (fd : ℕ) → fd < 32 → get (get k.fdts i) fd ≡ none

-- The books of a process without descriptors, whichever table stands for that.
empty-IsCounted :
    (o : Open) (t t' : FdTable) (extra : ℕ → ℕ)
    → ((fd : ℕ) → fd < 32 → get t fd ≡ none)
    → ((fd : ℕ) → fd < 32 → get t' fd ≡ none)
    → IsCounted o t extra
    → IsCounted o t' extra
empty-IsCounted o t t' extra e e' c = record {
  shared = c.shared;
  refs = λ d lt. omega (arith, c.refs d lt, fds_to-none t d e, fds_to-none t' d e');
  targets = λ fd d lt h. absurd (none_some d (sym (e' fd lt) ∙ h));
  bounded = c.bounded;
}
  where
    none_some : (d : ℕ) → none ≡ some d → ⊥
    none_some d h = cc

close_fds-Balanced :
    (k : Kernel) (i : ℕ)
    → i < 16
    → Balanced k
    → Balanced (close_fds k i) × HasNoFds (close_fds k i) i
close_fds-Balanced k i lt b =
    let c : IsCounted k.files (get k.fdts i) (others k.fdts i) =
      balanced-IsCounted k.files k.fdts b i lt in
    (
      Step-IsBalanced b (Step.exit k.files k.fdts i lt),
      λ fd fd_lt.
          ap (λ t. get t fd) (get-put_self k.fdts i (proc_close_all_fds k.files (get k.fdts i)).1)
          ∙ (close_all_lem k.files (get k.fdts i) (others k.fdts i) c).1 fd fd_lt,
    )

cleared : (t : FdTable) (fd : ℕ) → fd < 32 → get (clear_fds t) fd ≡ none
cleared t fd lt = rw (get-for_below 32 (λ d. none) t fd, lt→ltb fd 32 lt) refl

-- A process without descriptors may be reaped.
reap-Balanced :
    (k : Kernel) (i : ℕ)
    → i < 16
    → Balanced k
    → HasNoFds k i
    → Balanced (reap k i) × HasNoFds (reap k i) i
reap-Balanced k i lt b empty = (
  counted-IsBalanced k.files k.fdts b i lt k.files (clear_fds (get k.fdts i)) (
      empty-IsCounted k.files (get k.fdts i) (clear_fds (get k.fdts i)) (others k.fdts i) empty
        (cleared (get k.fdts i)) (balanced-IsCounted k.files k.fdts b i lt)),
  λ fd fd_lt.
      ap (λ t. get t fd) (get-put_self k.fdts i (clear_fds (get k.fdts i)))
      ∙ cleared (get k.fdts i) fd fd_lt,
)

-- The books, and the descriptors of process `i` gone.
abbrev Ended : ℕ → Kernel → Type 0
Ended i k = Balanced k × HasNoFds k i

same-Ended : (i : ℕ) (k k' : Kernel) → SameTables k k' → Ended i k → Ended i k'
same-Ended i k k' same (b, empty) = (
  subst (λ o. IsBalanced o k'.fdts) (sym same.files)
      (subst (λ t. IsBalanced k.files t) (sym same.fdts) b),
  λ fd lt. ap (λ t. get (get t i) fd) same.fdts ∙ empty fd lt,
)

wake_parent-Ended :
    (k : Kernel) (idx code : ℕ) → idx < 16 → Ended idx k → Ended idx (wake_parent k idx code)
unfolding wake_parent
wake_parent-Ended k idx code lt b =
    elim (Option-cases (first (waits_as k.procs (get k.procs idx).ppid) 0 16)) [
      | inl e ↦ rw (e, wake_parent) b
      | inr (i, e) ↦
          let (balanced, empty) =
            same-Ended idx k (store_status k i code) (store_status-SameTables k i code) b in
          rw (e, wake_parent)
            (if_cases (Ended idx) (accepts (get k.procs i).wait_target_pid (get k.procs idx).pid)
              (λ _.
                reap-Balanced (resume (store_status k i code) i (get k.procs idx).pid) idx lt
                  balanced empty)
              (λ _. b))
    ]

-- The end of a process, by exit or kill, keeps the books of the descriptors.
pub end_process-Ended :
    (k : Kernel) (idx code : ℕ) → idx < 16 → Balanced k → Ended idx (end_process k idx code)
unfolding end_process
end_process-Ended k idx code lt b = wake_parent-Ended _ idx code lt (
    same-Ended idx (close_fds k idx) (clear_tid (close_fds k idx) idx)
      (clear_tid-SameTables (close_fds k idx) idx) (close_fds-Balanced k idx lt b))

sys_kill-Balanced :
    (k : Kernel) (cur : ℕ) (pid : Option ℕ) (sig : ℕ)
    → Balanced k
    → Balanced (sys_kill k cur pid sig).0
unfolding sys_kill proc_find_idx_by_pid
sys_kill-Balanced k cur none sig b = b
sys_kill-Balanced k cur (some pid) sig b =
    if_cases (λ (x : Kernel × Killed). Balanced x.0)
      (not (sig == 0) && (not (sig == 9) && not (sig == 15))) (λ _. b)
      (λ _. elim (Option-cases (first (has_pid k.procs pid) 0 16)) [
        | inl e ↦ rw e b
        | inr (idx, e) ↦
            let f : IsFirst (has_pid k.procs pid) 0 16 idx = first-IsFirst _ 0 16 e in
            rw e (
              if_cases (λ (x : Kernel × Killed). Balanced x.0)
                (sig == 0 || is_zombie (get k.procs idx).state) (λ _. b)
                (λ _.
                  if_cases (λ (x : Kernel × Killed). Balanced x.0) (idx == cur) (λ _. b)
                    (λ _.
                      (end_process-Ended k idx (128 + bit_and sig 0xff) (omega (arith, f.below))
                        b).0)))
      ])

reaps : (i : ℕ) (k : Kernel) → i < 16 → Balanced k → Balanced (reap (close_fds k i) i)
reaps i k lt b =
    let (balanced, empty) = close_fds-Balanced k i lt b in
    (reap-Balanced (close_fds k i) i lt balanced empty).0

sys_wait4-Balanced :
    (k : Kernel) (cur : ℕ) (pid_req : Option ℕ) (wstatus_user : ℕ) (nohang : Bool)
    → Balanced k
    → Balanced (sys_wait4 k cur pid_req wstatus_user nohang).0
unfolding sys_wait4
sys_wait4-Balanced k cur pid_req wstatus_user nohang b =
    elim (Option-cases (first (reapable k.procs (get k.procs cur).pid pid_req) 0 16)) [
      | inl e ↦
          rw (e, sys_wait4)
            (if_cases (λ (x : Kernel × Waited). Balanced x.0)
              (not (is_some (first (is_child k.procs (get k.procs cur).pid) 0 16))) (λ _. b)
              (λ _. if_cases (λ (x : Kernel × Waited). Balanced x.0) nohang (λ _. b) (λ _. b)))
      | inr (found, e) ↦
          let f : IsFirst (reapable k.procs (get k.procs cur).pid pid_req) 0 16 found =
            first-IsFirst _ 0 16 e in
          rw (e, sys_wait4)
            (if_cases (λ (x : Kernel × Waited). Balanced x.0)
              (not (wstatus_user == 0) && not (user_range_ok wstatus_user 4)) (λ _. b)
              (λ _.
                reaps found (noted k cur wstatus_user found) (omega (arith, f.below))
                  (if_cases Balanced (wstatus_user == 0) (λ _. b) (λ _. b))))
    ]

-- Exit, kill and wait4 keep the books of the descriptors, where a reaped entry loses its descriptors
-- without a look at what they lead to: every reference of a description is still a descriptor of some
-- process, and the counters of pipes and sockets are still sums of references. A process that has ended
-- has no descriptor left.
pub ends-Balanced :
    (k : Kernel)
    → Balanced k
    → ((idx code : ℕ)
        → idx < 16
        → Balanced (end_process k idx code) × HasNoFds (end_process k idx code) idx)
      × ((cur : ℕ) (pid : Option ℕ) (sig : ℕ) → Balanced (sys_kill k cur pid sig).0)
      × ((cur : ℕ) (pid_req : Option ℕ) (wstatus_user : ℕ) (nohang : Bool)
          → Balanced (sys_wait4 k cur pid_req wstatus_user nohang).0)
ends-Balanced k b = (
  λ idx code lt. end_process-Ended k idx code lt b,
  λ cur pid sig. sys_kill-Balanced k cur pid sig b,
  λ cur pid_req wstatus_user nohang. sys_wait4-Balanced k cur pid_req wstatus_user nohang b,
)
