-- ===== src/Sched/Children.antt =====
-- What the tests of the process table mean: which process waits for which, and which may be reaped.
use mona_rpzero.Prelude.{
  ℕ, ◌≡◌, ◌≢◌, refl, sym, ap, ◌∙◌, true, false, Option, none, some, Table, get, arith,
}
use mona_rpzero.Sched.{
  Proc, State, unused, runnable, waiting, zombie, sleeping, blocked_io, is_zombie, is_waiting,
  is_unused, accepts, reapable, is_child, waits_as,
}

pub clash : true ≡ false → ⊥
clash e = cc

-- A wait for `target`, or for any child, is a wait for the process with this number.
abbrev pub Targets : Option ℕ → ℕ → Type 0
Targets target pid = (n : ℕ) → target ≡ some n → n ≡ pid

pub accepts-Targets : (target : Option ℕ) (pid : ℕ) → accepts target pid ≡ true → Targets target pid
accepts-Targets none pid h n e = absurd (none_some n e)
  where
    none_some : (n : ℕ) → none ≡ some n → ⊥
    none_some n e = cc
accepts-Targets (some want) pid h n e = ground arith

pub Targets-accepts : (target : Option ℕ) (pid : ℕ) → Targets target pid → accepts target pid ≡ true
Targets-accepts none pid h = refl
Targets-accepts (some want) pid h = let e : want ≡ pid = h want refl in ground arith

pub not-Targets : (target : Option ℕ) (pid : ℕ) → accepts target pid ≡ false → ¬ Targets target pid
not-Targets target pid h t = clash (sym (Targets-accepts target pid t) ∙ h)

zombie_lem : (s : State) → is_zombie s ≡ true → s ≡ zombie
zombie_lem zombie h = refl
zombie_lem unused h = absurd (clash (sym h))
zombie_lem runnable h = absurd (clash (sym h))
zombie_lem waiting h = absurd (clash (sym h))
zombie_lem sleeping h = absurd (clash (sym h))
zombie_lem blocked_io h = absurd (clash (sym h))

waiting_lem : (s : State) → is_waiting s ≡ true → s ≡ waiting
waiting_lem waiting h = refl
waiting_lem unused h = absurd (clash (sym h))
waiting_lem runnable h = absurd (clash (sym h))
waiting_lem zombie h = absurd (clash (sym h))
waiting_lem sleeping h = absurd (clash (sym h))
waiting_lem blocked_io h = absurd (clash (sym h))

used_lem : (s : State) → s ≢ unused → is_unused s ≡ false
used_lem unused h = absurd (h refl)
used_lem zombie h = refl
used_lem runnable h = refl
used_lem waiting h = refl
used_lem sleeping h = refl
used_lem blocked_io h = refl

-- A zombie child of `parent`, of those that are asked for.
pub record IsDeadChild (t : Table Proc) (parent : ℕ) (asked : Option ℕ) (i : ℕ) : Type 0 where
  pub ended : (get t i).state ≡ zombie
  pub child : (get t i).ppid ≡ parent
  pub target : Targets asked (get t i).pid

module _ (t : Table Proc) (parent : ℕ) (asked : Option ℕ) (i : ℕ) where
  pub reapable-IsDeadChild : reapable t parent asked i ≡ true → IsDeadChild t parent asked i
  reapable-IsDeadChild h = record {
    ended = zombie_lem (get t i).state (ground arith);
    child = ground arith;
    target = accepts-Targets asked (get t i).pid (ground arith);
  }

  pub not-IsDeadChild : reapable t parent asked i ≡ false → ¬ IsDeadChild t parent asked i
  not-IsDeadChild h d =
      let dead : is_zombie (get t i).state ≡ true = ap is_zombie d.ended in
      let wanted : accepts asked (get t i).pid ≡ true =
        Targets-accepts asked (get t i).pid d.target in
      let same : (get t i).ppid ≡ parent = d.child in ground arith

-- A child of `parent`, dead or alive.
abbrev pub IsChild : Table Proc → ℕ → ℕ → Type 0
IsChild t parent i = ((get t i).state ≢ unused) × ((get t i).ppid ≡ parent)

pub is_child-IsChild :
    (t : Table Proc) (parent i : ℕ) → is_child t parent i ≡ true → IsChild t parent i
is_child-IsChild t parent i h = (λ e. clash (sym (ap is_unused e) ∙ off), ground arith)
  where
    off : is_unused (get t i).state ≡ false
    off = ground arith

pub not-IsChild :
    (t : Table Proc) (parent i : ℕ) → is_child t parent i ≡ false → ¬ IsChild t parent i
not-IsChild t parent i h c =
    let on : is_unused (get t i).state ≡ false = used_lem (get t i).state c.0 in
    let same : (get t i).ppid ≡ parent = c.1 in ground arith

-- Process `i` waits, and its number is `parent`.
abbrev pub IsWaiter : Table Proc → ℕ → ℕ → Type 0
IsWaiter t parent i = ((get t i).state ≡ waiting) × ((get t i).pid ≡ parent)

pub waits_as-IsWaiter :
    (t : Table Proc) (parent i : ℕ) → waits_as t parent i ≡ true → IsWaiter t parent i
waits_as-IsWaiter t parent i h = (waiting_lem (get t i).state (ground arith), ground arith)

pub not-IsWaiter :
    (t : Table Proc) (parent i : ℕ) → waits_as t parent i ≡ false → ¬ IsWaiter t parent i
not-IsWaiter t parent i h w =
    let on : is_waiting (get t i).state ≡ true = ap is_waiting w.0 in
    let same : (get t i).pid ≡ parent = w.1 in ground arith
