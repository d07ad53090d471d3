-- ===== src/Sched/Fair.antt =====
-- The choice of the next process: no process that can run waits for more than fifteen others.
use mona_rpzero.Prelude.{
  ◌&&◌, leb, if_cases, ℕ, zero, suc, ◌+◌, ◌-◌, ◌%◌, ◌≤◌, ◌<◌, ◌≡◌, refl, sym, ap, ◌∙◌, ◌⊎◌, inl,
  inr, Bool, true, false, Option, none, some, Option-cases, Table, get, first, first-IsFirst,
  first-none, IsFirst, arith, ℕ_discrete, get-for_below, leb, ltb, lt→ltb, ltb→lt, ltb_false→le,
  Bool-cases,
}
use mona_rpzero.Sched.{
  is_sleeping, runnable, sleeping, Proc, is_runnable, next_passing, place_behind, pass, Pick,
  picked, rest_of_pass, sched_wake_sleepers, wake_sleeper, sched_wake_one_console_reader_if_ready,
}

-- How many places process `i` is behind the one that ran last: from 1, the next, to 16, itself.
abbrev pub places : ℕ → ℕ → ℕ
places last i = (i + 15 - last) % 16 + 1

-- The places from `last` on reach every process.
place_behind-places : (last i : ℕ) → last < 16 → i < 16 → place_behind last (places last i) ≡ i
place_behind-places last i last_lt i_lt = omega arith

places-place_behind :
    (last step : ℕ) → last < 16 → 1 ≤ step → step < 17 → places last (place_behind last step) ≡ step
places-place_behind last step lt lo hi = omega arith

-- What the rotation finds: the nearest process that passes, if any does.
pub data Nearest (p : ℕ → Bool) (last : ℕ) : Option ℕ → Type 0 where
  nearest :
      (i : ℕ)
      → i < 16
      → p i ≡ true
      → ((j : ℕ) → j < 16 → places last j < places last i → p j ≡ false)
      → Nearest p last (some i)
  no_one : ((i : ℕ) → i < 16 → p i ≡ false) → Nearest p last none

pub next_passing-Nearest :
    (p : ℕ → Bool) (last : ℕ) → last < 16 → Nearest p last (next_passing p last)
unfolding next_passing
next_passing-Nearest p last lt =
    elim (Option-cases (first (λ step. p (place_behind last step)) 1 16)) [
      | inl e ↦
          rw (e, next_passing)
            (no_one (λ i i_lt.
              ap p (sym (place_behind-places last i lt i_lt))
              ∙ first-none (λ step. p (place_behind last step)) 1 16 e (places last i) (omega arith)
                  (omega arith)))
      | inr (step, e) ↦
          let f : IsFirst (λ k. p (place_behind last k)) 1 16 step = first-IsFirst _ 1 16 e in
          let at : places last (place_behind last step) ≡ step =
            places-place_behind last step lt f.from (omega (arith, f.below)) in
          rw (e, next_passing)
            (nearest (place_behind last step) (omega arith) f.passes (λ j j_lt nearer.
              ap p (sym (place_behind-places last j lt j_lt))
              ∙ f.skipped (places last j) (omega arith) (omega (arith, at))))
    ]

clash : true ≡ false → ⊥
clash e = cc

-- Process `i` can run at time `now`: it is runnable, or sleeps no longer than until then.
abbrev pub CanRun : ℕ → Table Proc → ℕ → Type 0
CanRun now t i = is_runnable (wake_sleeper now (get t i)).state ≡ true

-- What one pass without input comes to.
pub data PassOutcome (now : ℕ) (t : Table Proc) (last : ℕ) : Pick → Type 0 where
  runs :
      (i : ℕ)
      → i < 16
      → CanRun now t i
      → ((j : ℕ) → j < 16 → CanRun now t j → places last i ≤ places last j)
      → PassOutcome now t last (picked i)
  waits : (r : Pick) → ((i : ℕ) → i < 16 → CanRun now t i → ⊥) → PassOutcome now t last r

awake :
    (now : ℕ) (t : Table Proc) (i : ℕ)
    → i < 16
    → get (sched_wake_sleepers now t) i ≡ wake_sleeper now (get t i)
unfolding sched_wake_sleepers
awake now t i lt = rw (get-for_below 16 (wake_sleeper now) t i, lt→ltb i 16 lt) refl

module _ (now : ℕ) (t : Table Proc) (last : ℕ) (lt : last < 16) where
  woken : Table Proc
  woken = sched_wake_sleepers now t

  rests :
      (o : Option ℕ) (r : Pick)
      → Nearest (λ i. is_runnable (get woken i).state) last o
      → PassOutcome now t last (elim o [ some idx ↦ picked idx | none ↦ r ])
  unfolding woken
  rests o r (nearest i i_lt hit nearer) =
      runs i i_lt (ap (λ (p : Proc). is_runnable p.state) (sym (awake now t i i_lt)) ∙ hit)
        (λ j j_lt can. elim (Bool-cases (ltb (places last j) (places last i))) [
          | inl h ↦ absurd (
              clash (
                sym can
                ∙ ap (λ (p : Proc). is_runnable p.state) (sym (awake now t j j_lt))
                ∙ nearer j j_lt (ltb→lt (places last j) (places last i) h)))
          | inr h ↦ ltb_false→le (places last j) (places last i) h
        ])
  rests o r (no_one none_runs) = waits r (λ i i_lt can. clash (
      sym can
      ∙ ap (λ (p : Proc). is_runnable p.state) (sym (awake now t i i_lt))
      ∙ none_runs i i_lt))

  pub pass-PassOutcome : PassOutcome now t last (pass now false t last).1
  unfolding pass sched_wake_one_console_reader_if_ready rest_of_pass woken
  pass-PassOutcome =
      rests (next_passing (λ i. is_runnable (get (sched_wake_sleepers now t) i).state) last) _
        (next_passing-Nearest (λ i. is_runnable (get (sched_wake_sleepers now t) i).state) last lt)

-- The process that runs after the pass, if it picks one.
abbrev pub after : ℕ → Pick → ℕ
after last (picked i) = i
after last r = last

-- The process that ran last, before pass `m`: whatever table and time each pass sees.
unfoldable pub last_at : (ℕ → Table Proc) → (ℕ → ℕ) → ℕ → ℕ → ℕ
last_at ts now last zero = last
last_at ts now last (suc m) =
    let l = last_at ts now last m in after l (pass (now m) false (ts m) l).1

-- What pass `m` comes to.
abbrev pub pick_at : (ℕ → Table Proc) → (ℕ → ℕ) → ℕ → ℕ → Pick
pick_at ts now last m = (pass (now m) false (ts m) (last_at ts now last m)).1

-- One pass brings a process that can run nearer, if it does not run it.
step_nearer :
    (now : ℕ) (t : Table Proc) (last i : ℕ) (r : Pick)
    → last < 16
    → i < 16
    → CanRun now t i
    → PassOutcome now t last r
    → (after last r < 16) × ((r ≡ picked i) ⊎ (places (after last r) i < places last i))
step_nearer now t last i r last_lt i_lt can (runs j j_lt can_j least) =
    let near : places last j ≤ places last i = least i i_lt can in
    (j_lt, elim (ℕ_discrete j i) [ yes e ↦ inl (ap picked e) | no ne ↦ inr (omega arith) ])
step_nearer now t last i r last_lt i_lt can (waits s none_can) = absurd (none_can i i_lt can)

-- The process is runnable, or sleeps no longer than until `now`.
abbrev pub Ready : ℕ → Proc → Type 0
Ready now p = (p.state ≡ runnable) ⊎ ((p.state ≡ sleeping) × (p.sleep_deadline_ns ≤ now))

Ready-runnable : (now : ℕ) (p : Proc) → Ready now p → is_runnable (wake_sleeper now p).state ≡ true
Ready-runnable now p (inl e) =
    if_cases (λ (q : Proc). is_runnable q.state ≡ true)
      (is_sleeping p.state && leb p.sleep_deadline_ns now) (λ _. refl) (λ _. ap is_runnable e)
Ready-runnable now p (inr (e, due)) =
    let sleeps : is_sleeping p.state ≡ true = ap is_sleeping e in
    if_cases (λ (q : Proc). is_runnable q.state ≡ true)
      (is_sleeping p.state && leb p.sleep_deadline_ns now) (λ _. refl) (λ h. absurd (ground arith))

module _ (ts : ℕ → Table Proc) (now : ℕ → ℕ) (last i : ℕ) (last_lt : last < 16) (i_lt : i < 16)
    (ready : (m : ℕ) → Ready (now m) (get (ts m) i)) where
  at_pass : ℕ → ℕ
  at_pass m = last_at ts now last m

  moves :
      (m : ℕ)
      → at_pass m < 16
      → (at_pass (suc m) < 16)
        × ((pick_at ts now last m ≡ picked i) ⊎ (places (at_pass (suc m)) i < places (at_pass m) i))
  unfolding at_pass last_at
  moves m lt =
      step_nearer (now m) (ts m) (last_at ts now last m) i _ lt i_lt
        (Ready-runnable (now m) (get (ts m) i) (ready m))
        (pass-PassOutcome (now m) (ts m) (last_at ts now last m) lt)

  arrives :
      (d m : ℕ)
      → at_pass m < 16
      → places (at_pass m) i ≤ d
      → (k : ℕ) × (k < m + d) × (pick_at ts now last k ≡ picked i)
  arrives zero m lt near = absurd (omega arith)
  arrives (suc d) m lt near = elim (moves m lt).1 [
    | inl here ↦ (m, omega arith, here)
    | inr nearer ↦
        let (k, k_lt, e) = arrives d (suc m) (moves m lt).0 (omega arith) in (k, omega arith, e)
  ]

  -- The rotation is fair: while there is no console input, a process that is runnable, or whose sleep
  -- is over, at every pass, whatever the other processes do between the passes, is picked by one of the
  -- next sixteen.
  pub picked_in_sixteen : (k : ℕ) × (k < 16) × (pick_at ts now last k ≡ picked i)
  unfolding at_pass last_at
  picked_in_sixteen = let (k, lt, e) = arrives 16 0 last_lt (omega arith) in (k, omega arith, e)
