-- ===== src/Sched/Waits.antt =====
-- `sys_wait4` on every branch, up to the choice of another process.
use mona_rpzero.Prelude.{
  ◌*◌, Bool-cases, ℕ, ◌<◌, ◌≡◌, refl, ap, ◌∙◌, ◌≢◌, inl, inr, Bool, true, false, not, ◌&&◌, ◌||◌,
  Option, Option-cases, Table, get, put, get-put_self, get-put_ne, first, first-IsFirst, first-none,
  IsFirst, arith, if_cases, if◌then◌else◌, ◌==◌, ok, err, ap₂,
}
use mona_rpzero.Prelude.Errno
use Prim.Native.Nat.{bit_and}
use mona_rpzero.Path.{user_range_ok}
use mona_rpzero.Sched.Children.{
  IsDeadChild, reapable-IsDeadChild, not-IsDeadChild, IsChild, is_child-IsChild, not-IsChild,
}
use mona_rpzero.Path.Memory.{put_word}
use mona_rpzero.Sched.{
  Proc, Kernel, waiting, reap, close_fds, proc_clear, reapable, is_child, wait_reap, sys_wait4,
  Waited, blocks, start_waiting, noted, is_some,
}
use mona_rpzero.Sched.Ends.{given_back, SameTables, refl-SameTables}

-- What `sys_wait4` gives.
pub data WaitOutcome (k : Kernel) (cur : ℕ) (pid_req : Option ℕ) (wstatus_user : ℕ) (nohang : Bool)
    : Kernel × Waited → Type 0 where
  reaped :
      (k' : Kernel) (found : ℕ)
      → found < 16
      → IsDeadChild k.procs (get k.procs cur).pid pid_req found
      → ((j : ℕ) → j < found → ¬ IsDeadChild k.procs (get k.procs cur).pid pid_req j)
      → (wstatus_user == 0 || user_range_ok wstatus_user 4) ≡ true
      → k'.mems ≡ (
          if wstatus_user == 0
          then k.mems
          else put k.mems cur (
              put_word 4
                (bit_and (get k.procs found).exit_code 0xff * 256)
                (get k.mems cur)
                wstatus_user))
      → get k'.procs found ≡ proc_clear
      → ((j : ℕ) → j ≢ found → get k'.procs j ≡ get k.procs j)
      → k'.pmm ≡ given_back k.pmm (get k.procs found).user_pa_base
      → WaitOutcome k cur pid_req wstatus_user nohang
          (k', Waited.returns (ok (get k.procs found).pid))
  bad_address :
      (found : ℕ)
      → IsDeadChild k.procs (get k.procs cur).pid pid_req found
      → (wstatus_user == 0 || user_range_ok wstatus_user 4) ≡ false
      → WaitOutcome k cur pid_req wstatus_user nohang (k, Waited.returns (err Errno.efault))
  no_child :
      ((i : ℕ) → i < 16 → ¬ IsChild k.procs (get k.procs cur).pid i)
      → WaitOutcome k cur pid_req wstatus_user nohang (k, Waited.returns (err Errno.echild))
  none_yet :
      (child : ℕ)
      → IsChild k.procs (get k.procs cur).pid child
      → ((i : ℕ) → i < 16 → ¬ IsDeadChild k.procs (get k.procs cur).pid pid_req i)
      → nohang ≡ true
      → WaitOutcome k cur pid_req wstatus_user nohang (k, Waited.returns (ok 0))
  waits :
      (child : ℕ)
      → IsChild k.procs (get k.procs cur).pid child
      → ((i : ℕ) → i < 16 → ¬ IsDeadChild k.procs (get k.procs cur).pid pid_req i)
      → nohang ≡ false
      → WaitOutcome k cur pid_req wstatus_user nohang (
        record k {
          procs = put k.procs cur (record (get k.procs cur) {
            state = waiting;
            wait_target_pid = pid_req;
            wait_status_user = wstatus_user;
          });
        },
        blocks,
      )

noted_mems :
    (k : Kernel) (cur wstatus_user found : ℕ)
    → (noted k cur wstatus_user found).mems ≡ (
        if wstatus_user == 0
        then k.mems
        else put k.mems cur (
            put_word 4
              (bit_and (get k.procs found).exit_code 0xff * 256)
              (get k.mems cur)
              wstatus_user))
noted_mems k cur wstatus_user found = elim (Bool-cases (wstatus_user == 0)) [
  | inl e ↦ rw e refl
  | inr e ↦ rw e refl
]

module _ (k : Kernel) (cur : ℕ) (pid_req : Option ℕ) (wstatus_user : ℕ) (nohang : Bool) where
  abbrev Good : Kernel × Waited → Type 0
  Good = WaitOutcome k cur pid_req wstatus_user nohang

  reaps :
      (found : ℕ) (k1 : Kernel)
      → found < 16
      → IsFirst (reapable k.procs (get k.procs cur).pid pid_req) 0 16 found
      → (wstatus_user == 0 || user_range_ok wstatus_user 4) ≡ true
      → k1.mems ≡ (noted k cur wstatus_user found).mems
      → SameTables k k1
      → Good (reap (close_fds k1 found) found, Waited.returns (ok (get k.procs found).pid))
  reaps found k1 lt f good mems same =
      reaped (reap (close_fds k1 found) found) found lt
        (reapable-IsDeadChild k.procs (get k.procs cur).pid pid_req found f.passes)
        (λ j j_lt.
          not-IsDeadChild k.procs (get k.procs cur).pid pid_req j (f.skipped j (omega arith) j_lt))
        good (mems ∙ noted_mems k cur wstatus_user found) (get-put_self k1.procs found proc_clear)
        (λ j ne. get-put_ne k1.procs found j proc_clear ne ∙ ap (λ t. get t j) same.procs)
        (ap₂ (λ m (t : Table Proc). given_back m (get t found).user_pa_base) same.pmm same.procs)

  finds :
      (found : ℕ)
      → found < 16
      → IsFirst (reapable k.procs (get k.procs cur).pid pid_req) 0 16 found
      → Good (wait_reap k cur wstatus_user found)
  finds found lt f =
      if_cases Good (not (wstatus_user == 0) && not (user_range_ok wstatus_user 4))
        (λ h.
          bad_address found
            (reapable-IsDeadChild k.procs (get k.procs cur).pid pid_req found f.passes)
            (ground arith))
        (λ h. reaps found (noted k cur wstatus_user found) lt f (ground arith) refl (
          if_cases (SameTables k) (wstatus_user == 0) (λ _. refl-SameTables k)
            (λ _. record { procs = refl; files = refl; fdts = refl; pmm = refl })))

  -- `sys_wait4`, up to its choice of another process: the lowest zombie child that was asked for is
  -- reaped, its number is returned, its status stored if an address is given and its memory given
  -- back, unless that address is bad, which gives EFAULT and changes nothing; with no such zombie,
  -- ECHILD if the caller has no child at all, else 0 if it does not want to wait, else it waits. No
  -- other entry of the table changes.
  pub sys_wait4-WaitOutcome : Good (sys_wait4 k cur pid_req wstatus_user nohang)
  unfolding sys_wait4
  sys_wait4-WaitOutcome =
      elim (Option-cases (first (reapable k.procs (get k.procs cur).pid pid_req) 0 16)) [
        | inr (found, e) ↦
            let f : IsFirst (reapable k.procs (get k.procs cur).pid pid_req) 0 16 found =
              first-IsFirst _ 0 16 e in
            rw (e, sys_wait4) (finds found (omega (arith, f.below)) f)
        | inl e ↦
            rw (e, sys_wait4)
              (without (λ i lt.
                not-IsDeadChild k.procs (get k.procs cur).pid pid_req i
                  (first-none _ 0 16 e i (omega arith) (omega arith))))
      ]
    where
      without :
          ((i : ℕ) → i < 16 → ¬ IsDeadChild k.procs (get k.procs cur).pid pid_req i)
          → Good (
              if not (is_some (first (is_child k.procs (get k.procs cur).pid) 0 16))
              then (k, Waited.returns (err Errno.echild))
              else if nohang
              then (k, Waited.returns (ok 0))
              else (
                record k {
                  procs = put k.procs cur (start_waiting pid_req wstatus_user (get k.procs cur));
                },
                blocks,
              ))
      without none_dead =
          elim (Option-cases (first (is_child k.procs (get k.procs cur).pid) 0 16)) [
            | inl e ↦ rw e (
                no_child (λ i lt.
                  not-IsChild k.procs (get k.procs cur).pid i
                    (first-none _ 0 16 e i (omega arith) (omega arith))))
            | inr (child, e) ↦
                let f : IsFirst (is_child k.procs (get k.procs cur).pid) 0 16 child =
                  first-IsFirst _ 0 16 e in
                rw e (
                  if_cases Good nohang
                    (λ h.
                      none_yet child (is_child-IsChild k.procs (get k.procs cur).pid child f.passes)
                        none_dead h)
                    (λ h.
                      waits child (is_child-IsChild k.procs (get k.procs cur).pid child f.passes)
                        none_dead h))
          ]
