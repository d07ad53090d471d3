-- ===== src/Sched/Ends.antt =====
-- How a process ends and is reaped: `end_process`, which exit and kill share, and `sys_wait4`.
use mona_rpzero.Prelude.{
  none, Table, ◌*◌, Bool-cases, ℕ, ◌<◌, ◌≡◌, refl, sym, ap, ap₂, ◌∙◌, ◌≢◌, inl, inr, true, false,
  not, ◌&&◌, Option-cases, get, put, get-put_self, get-put_ne, first, first-IsFirst, first-none,
  IsFirst, arith, if_cases, if◌then◌else◌, ◌==◌,
}
use Prim.Native.Nat.{bit_and}
use mona_rpzero.Path.Memory.{put_word}
use mona_rpzero.Fd.{proc_close_all_fds}
use mona_rpzero.Path.{user_range_ok, user_region_base}
use mona_rpzero.Pmm
use mona_rpzero.Pmm.{Pmm}
use mona_rpzero.Sched.Children.{
  Targets, accepts-Targets, not-Targets, IsWaiter, waits_as-IsWaiter, not-IsWaiter,
}
use mona_rpzero.Sched.{
  zombie, runnable, Proc, Kernel, is_waiting, waits_as, accepts, become_zombie, resume_with, resume,
  reap, store_status, clear_tid, close_fds, wake_parent, end_process, proc_clear,
}

-- Only the memories of processes may differ.
pub record SameTables (k k' : Kernel) : Type 0 where
  pub procs : k'.procs ≡ k.procs
  pub files : k'.files ≡ k.files
  pub fdts : k'.fdts ≡ k.fdts
  pub pmm : k'.pmm ≡ k.pmm

pub refl-SameTables : (k : Kernel) → SameTables k k
refl-SameTables k = record { procs = refl; files = refl; fdts = refl; pmm = refl }

pub clear_tid-SameTables : (k : Kernel) (i : ℕ) → SameTables k (clear_tid k i)
clear_tid-SameTables k i =
    if_cases (SameTables k)
      (not ((get k.procs i).clear_child_tid_user == 0)
        && user_range_ok (get k.procs i).clear_child_tid_user 4)
      (λ _. record { procs = refl; files = refl; fdts = refl; pmm = refl }) (λ _. refl-SameTables k)

pub store_status-SameTables : (k : Kernel) (i code : ℕ) → SameTables k (store_status k i code)
store_status-SameTables k i code =
    if_cases (SameTables k)
      (not ((get k.procs i).wait_status_user == 0)
        && user_range_ok (get k.procs i).wait_status_user 4)
      (λ _. record { procs = refl; files = refl; fdts = refl; pmm = refl }) (λ _. refl-SameTables k)

-- The memories once `*clear_child_tid` of process `idx` is 0 in its own memory, where that address is
-- given and good.
abbrev pub tid_cleared : Kernel → ℕ → Table (Table ℕ)
tid_cleared k idx =
    if not ((get k.procs idx).clear_child_tid_user == 0)
      && user_range_ok (get k.procs idx).clear_child_tid_user 4
    then put k.mems idx (put_word 4 0 (get k.mems idx) (get k.procs idx).clear_child_tid_user)
    else k.mems

-- And once process `parent` has the status in its own memory, where it gave a good address.
abbrev status_in : Table (Table ℕ) → ℕ → ℕ → ℕ → Table (Table ℕ)
status_in m parent code p =
    if not (p == 0) && user_range_ok p 4
    then put m parent (put_word 4 (bit_and code 0xff * 256) (get m parent) p)
    else m

-- The process is a zombie with its code, its descriptors are closed, and no other process has changed,
-- in the table, the descriptors or the memory.
pub record IsZombie (k : Kernel) (idx code : ℕ) (k' : Kernel) : Type 0 where
  pub ended : get k'.procs idx ≡ record (get k.procs idx) { state = zombie; exit_code = code }
  pub others : (j : ℕ) → j ≢ idx → get k'.procs j ≡ get k.procs j
  pub pages : k'.pmm ≡ k.pmm
  pub memory : k'.mems ≡ tid_cleared k idx
  pub closed : k'.files ≡ (proc_close_all_fds k.files (get k.fdts idx)).0
  pub other_fds : (j : ℕ) → j ≢ idx → get k'.fdts j ≡ get k.fdts j

-- The process is gone, its descriptors closed and its memory given back, and the parent runs on with its
-- number and has its status.
pub record IsReaped (k : Kernel) (idx code parent : ℕ) (k' : Kernel) : Type 0 where
  pub gone : get k'.procs idx ≡ proc_clear
  pub resumed : get k'.procs parent ≡ record (get k.procs parent) {
    state = runnable;
    wait_target_pid = none;
    wait_status_user = 0;
    x0 = (get k.procs idx).pid;
  }
  pub others : (j : ℕ) → j ≢ idx → j ≢ parent → get k'.procs j ≡ get k.procs j
  pub pages : k'.pmm ≡ (
      if not ((get k.procs idx).user_pa_base == 0)
        && not ((get k.procs idx).user_pa_base == user_region_base)
      then Pmm.free_2mib_aligned k.pmm (get k.procs idx).user_pa_base
      else k.pmm)
  pub memory :
      k'.mems ≡ status_in (tid_cleared k idx) parent code (get k.procs parent).wait_status_user
  pub closed : k'.files ≡ (proc_close_all_fds k.files (get k.fdts idx)).0
  pub other_fds : (j : ℕ) → j ≢ idx → get k'.fdts j ≡ get k.fdts j

clear_tid_mems : (k : Kernel) (i : ℕ) → (clear_tid k i).mems ≡ tid_cleared k i
clear_tid_mems k i =
    elim (Bool-cases (
      not ((get k.procs i).clear_child_tid_user == 0)
      && user_range_ok (get k.procs i).clear_child_tid_user 4)) [
        | inl e ↦ rw e refl
        | inr e ↦ rw e refl
      ]

store_status_mems :
    (k : Kernel) (i code : ℕ)
    → (store_status k i code).mems ≡ status_in k.mems i code (get k.procs i).wait_status_user
store_status_mems k i code =
    elim (Bool-cases (
      not ((get k.procs i).wait_status_user == 0)
      && user_range_ok (get k.procs i).wait_status_user 4)) [
        | inl e ↦ rw e refl
        | inr e ↦ rw e refl
      ]

-- What `end_process` leaves, by the parent that waits.
pub data EndOutcome (k : Kernel) (idx code : ℕ) : Kernel → Type 0 where
  no_parent :
      (k' : Kernel)
      → ((i : ℕ) → i < 16 → i ≢ idx → ¬ IsWaiter k.procs (get k.procs idx).ppid i)
      → IsZombie k idx code k'
      → EndOutcome k idx code k'
  other_target :
      (k' : Kernel) (i : ℕ)
      → i < 16
      → i ≢ idx
      → IsWaiter k.procs (get k.procs idx).ppid i
      → ¬ Targets (get k.procs i).wait_target_pid (get k.procs idx).pid
      → IsZombie k idx code k'
      → EndOutcome k idx code k'
  reaped :
      (k' : Kernel) (i : ℕ)
      → i < 16
      → i ≢ idx
      → IsWaiter k.procs (get k.procs idx).ppid i
      → Targets (get k.procs i).wait_target_pid (get k.procs idx).pid
      → IsReaped k idx code i k'
      → EndOutcome k idx code k'

-- The pages once the memory at `pa` has been given back.
abbrev pub given_back : Pmm → ℕ → Pmm
given_back m pa =
    if not (pa == 0) && not (pa == user_region_base) then Pmm.free_2mib_aligned m pa else m

module _ (k : Kernel) (idx code : ℕ) (d : Kernel) (z : IsZombie k idx code d) where
  abbrev p : Proc
  p = get k.procs idx

  waits_same :
      (i : ℕ) → i ≢ idx → waits_as d.procs (get d.procs idx).ppid i ≡ waits_as k.procs p.ppid i
  waits_same i ne =
      ap₂ (λ (a b : Proc). is_waiting a.state && a.pid == b.ppid) (z.others i ne) z.ended

  self_waits : (n : ℕ) → waits_as d.procs n idx ≡ false
  self_waits n = ap (λ (q : Proc). is_waiting q.state && q.pid == n) z.ended

  not_self : (i n : ℕ) → waits_as d.procs n i ≡ true → i ≢ idx
  not_self i n w e = clash (sym w ∙ ap (waits_as d.procs n) e ∙ self_waits n)
    where
      clash : true ≡ false → ⊥
      clash x = cc

  module _ (i : ℕ) (ne : i ≢ idx) where
    abbrev stored : Kernel
    stored = store_status d i code

    abbrev cpid : ℕ
    cpid = (get d.procs idx).pid

    abbrev resumed_k : Kernel
    resumed_k = resume stored i cpid

    sames : SameTables d stored
    sames = store_status-SameTables d i code

    entry : (j : ℕ) → get stored.procs j ≡ get d.procs j
    entry j = ap (λ t. get t j) sames.procs

    reaps : IsReaped k idx code i (reap resumed_k idx)
    reaps = record {
      gone = get-put_self resumed_k.procs idx proc_clear;
      resumed =
          get-put_ne resumed_k.procs idx i proc_clear ne
          ∙ get-put_self stored.procs i (resume_with cpid (get stored.procs i))
          ∙ ap₂ (λ (a b : Proc). resume_with a.pid b) z.ended (entry i ∙ z.others i ne);
      others = λ j j_idx j_i.
          get-put_ne resumed_k.procs idx j proc_clear j_idx
          ∙ get-put_ne stored.procs i j (resume_with cpid (get stored.procs i)) j_i
          ∙ entry j
          ∙ z.others j j_idx;
      pages =
          ap₂ (λ m (a : Proc). given_back m a.user_pa_base) (sames.pmm ∙ z.pages)
            (get-put_ne stored.procs i idx (resume_with cpid (get stored.procs i)) (λ e. ne (sym e))
              ∙ entry idx
              ∙ z.ended);
      memory =
          store_status_mems d i code
          ∙ ap₂ (λ m (a : Proc). status_in m i code a.wait_status_user) z.memory (z.others i ne);
      closed = sames.files ∙ z.closed;
      other_fds = λ j j_idx.
          get-put_ne stored.fdts idx j _ j_idx ∙ ap (λ t. get t j) sames.fdts ∙ z.other_fds j j_idx;
    }

  wakes : EndOutcome k idx code (wake_parent d idx code)
  unfolding wake_parent
  wakes = elim (Option-cases (first (waits_as d.procs (get d.procs idx).ppid) 0 16)) [
    | inl e ↦
        rw (e, wake_parent)
          (no_parent d
            (λ i lt ne. not-IsWaiter k.procs p.ppid i (
              sym (waits_same i ne)
              ∙ first-none (waits_as d.procs (get d.procs idx).ppid) 0 16 e i (omega arith)
                  (omega arith)))
            z)
    | inr (i, e) ↦
        let f : IsFirst (waits_as d.procs (get d.procs idx).ppid) 0 16 i = first-IsFirst _ 0 16 e in
        let ne : i ≢ idx = not_self i (get d.procs idx).ppid f.passes in
        let lt : i < 16 = omega (arith, f.below) in
        let was : IsWaiter k.procs p.ppid i =
          waits_as-IsWaiter k.procs p.ppid i (sym (waits_same i ne) ∙ f.passes) in
        let test : accepts (get k.procs i).wait_target_pid p.pid
            ≡ accepts (get d.procs i).wait_target_pid (get d.procs idx).pid =
          sym (ap₂ (λ (a b : Proc). accepts a.wait_target_pid b.pid) (z.others i ne) z.ended) in
        rw (e, wake_parent)
          (if_cases (EndOutcome k idx code)
            (accepts (get d.procs i).wait_target_pid (get d.procs idx).pid)
            (λ h. reaped _ i lt ne was (accepts-Targets _ _ (test ∙ h)) (reaps i ne))
            (λ h. other_target d i lt ne was (not-Targets _ _ (test ∙ h)) z))
  ]

-- The process as a zombie, its descriptors closed.
abbrev stopped : Kernel → ℕ → Kernel
stopped k idx = clear_tid (close_fds k idx) idx

dead-IsZombie :
    (k : Kernel) (idx code : ℕ)
    → IsZombie k idx code (record (stopped k idx) {
      procs = put (stopped k idx).procs idx (become_zombie code (get (stopped k idx).procs idx));
    })
dead-IsZombie k idx code =
    let same : SameTables (close_fds k idx) (stopped k idx) =
      clear_tid-SameTables (close_fds k idx) idx in
    let at : put (stopped k idx).procs idx (become_zombie code (get (stopped k idx).procs idx))
        ≡ put k.procs idx (become_zombie code (get k.procs idx)) =
      ap (λ t. put t idx (become_zombie code (get t idx))) same.procs in
    record {
      ended =
          ap (λ t. get t idx) at ∙ get-put_self k.procs idx (become_zombie code (get k.procs idx));
      others = λ j ne.
          ap (λ t. get t j) at ∙ get-put_ne k.procs idx j (become_zombie code (get k.procs idx)) ne;
      pages = same.pmm;
      memory = clear_tid_mems (close_fds k idx) idx;
      closed = same.files;
      other_fds = λ j ne.
          ap (λ t. get t j) same.fdts
          ∙ get-put_ne k.fdts idx j (proc_close_all_fds k.files (get k.fdts idx)).1 ne;
    }

-- The end of a process, by exit or kill: its descriptors are closed and 0 is stored at its
-- clear_child_tid, if that is good. With a parent that waits for it, or for any child, the process is
-- reaped at once, its memory given back, and the parent runs on with its number and has the status
-- word, if it gave a good address; with no waiting parent, or one that waits for another child, it
-- stays as a zombie with its code. No process but the one that ends,
-- and the parent where it runs on, changes in the table, the descriptors or the memory.
pub end_process-EndOutcome :
    (k : Kernel) (idx code : ℕ) → EndOutcome k idx code (end_process k idx code)
unfolding end_process
end_process-EndOutcome k idx code = wakes k idx code _ (dead-IsZombie k idx code)
