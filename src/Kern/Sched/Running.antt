-- ===== src/Kern/Sched/Running.antt =====
-- `sched_yield` as a whole: it always ends, it runs a runnable environment if there is one, and at
-- most the current environment is ever marked as running.
use oscourse.Base.{
  ℕ, zero, suc, ◌+◌, ◌%◌, ◌^◌, ◌<◌, ◌≡◌, refl, ap, sym, ◌∙◌, Bool, true, false, not, ◌&&◌, ◌||◌,
  inl, inr, Bool-cases, Option, none, some, arith, ◌==◌, ==_iff, ltb, leb, update,
}
use oscourse.Kern.Env.{Kernel, Status, nenv, running, is_runnable, is_running, points_to}
use oscourse.Kern.Sched.{
  Dispatch, run, halt, monitor, demote, promote, env_run, sched_halt, any_alive, keeps_alive,
  dispatch, dispatch_found, start_at, sched_yield,
}
use oscourse.Kern.Sched.Choice.{after, Chosen, next_env-Chosen, Chosen-is_runnable}

-- No environment but `curenv` is marked ENV_RUNNING.
pub record OneRunning (s : Kernel) : Type 0 where
  pub only : (i : ℕ) → (is_running (s.envs i).env_status && not (points_to s.curenv i)) ≡ false

-- what `env_run` leaves
pub record IsRunning (s s' : Kernel) (e : ℕ) : Type 0 where
  pub current : s'.curenv ≡ some e
  pub status : (s'.envs e).env_status ≡ running
  pub runs : (s'.envs e).env_runs ≡ ((s.envs e).env_runs + 1) % 2 ^ 32

demote-only :
    (e : ℕ) (s : Kernel) (c : Option ℕ)
    → ((i : ℕ) → (is_running (s.envs i).env_status && not (points_to c i)) ≡ false)
    → (i : ℕ) → (is_running ((demote e c s).envs i).env_status && not (i == e)) ≡ false
unfolding demote update
demote-only e s none h i = ground (arith, h i)
demote-only e s (some c) h i = ground (arith, h i, ==_iff i e, ==_iff c e, ==_iff c i)

demote-env_runs :
    (e : ℕ) (s : Kernel) (c : Option ℕ) → ((demote e c s).envs e).env_runs ≡ (s.envs e).env_runs
unfolding demote update
demote-env_runs e s none = refl
demote-env_runs e s (some c) = ground arith

promote-IsRunning : (e : ℕ) (t : Kernel) → IsRunning t (promote e t) e
unfolding promote update
promote-IsRunning e t = ground arith

promote-only :
    (e : ℕ) (t : Kernel)
    → ((i : ℕ) → (is_running (t.envs i).env_status && not (i == e)) ≡ false)
    → OneRunning (promote e t)
unfolding promote update
promote-only e t h = record { only = λ i. ground (arith, h i, ==_iff i e, ==_iff e i) }

env_run-IsRunning : (e : ℕ) (s : Kernel) → IsRunning s (env_run e s).1 e
unfolding env_run
env_run-IsRunning e s =
    let r = promote-IsRunning e (demote e s.curenv s) in
    record {
      current = r.current;
      status = r.status;
      runs = r.runs ∙ ap (λ n. (n + 1) % 2 ^ 32) (demote-env_runs e s s.curenv);
    }

env_run-OneRunning : (e : ℕ) (s : Kernel) → OneRunning s → OneRunning (env_run e s).1
unfolding env_run
env_run-OneRunning e s one =
    promote-only e (demote e s.curenv s) (demote-only e s s.curenv one.only)

-- No slot of the table passes a test.
abbrev pub NoneIs : (Status → Bool) → Kernel → Type 0
NoneIs test s = (i : ℕ) → (ltb i nenv && test (s.envs i).env_status) ≡ false

any_alive-NoneIs :
    (n i j : ℕ) (s : Kernel)
    → any_alive n i s ≡ false
    → (leb i j && (ltb j (i + n) && keeps_alive (s.envs j).env_status)) ≡ false
unfolding any_alive
any_alive-NoneIs zero i j s h = ground arith
any_alive-NoneIs (suc n) i j s h = elim (Bool-cases (i == j)) [
  | inl same ↦ rw (← (==_iff i j).0 same) (ground arith)
  | inr other ↦ ground (arith, any_alive-NoneIs n (i + 1) j s)
]

-- What `sched_yield` has done when it ends in a dispatch: it runs an environment that was runnable
-- or running; it halts with no current environment, none being runnable; or nothing is alive.
abbrev pub Outcome : Dispatch → Kernel → Kernel → Type 0
Outcome (run e) s s' =
    IsRunning s s' e
    × ((is_runnable (s.envs e).env_status || is_running (s.envs e).env_status) ≡ true)
Outcome halt s s' = (s'.curenv ≡ none) × NoneIs is_runnable s
Outcome monitor s s' = NoneIs keeps_alive s

-- `curenv` as the loop sees it
abbrev started : Kernel → Kernel
started s = record s { curenv = some (start_at s.curenv) }

started-only :
    (s : Kernel) (i : ℕ) (c : Option ℕ)
    → (is_running (s.envs i).env_status && not (points_to c i)) ≡ false
    → (is_running (s.envs i).env_status && not (points_to (some (start_at c)) i)) ≡ false
started-only s i none h = ground arith
started-only s i (some c) h = h

started-OneRunning : (s : Kernel) → OneRunning s → OneRunning (started s)
started-OneRunning s one = record { only = λ i. started-only s i s.curenv (one.only i) }

-- The slot at which the loop stops, once it holds no runnable environment, is the current one.
idle_stop :
    (s : Kernel) (cur stop : ℕ)
    → Chosen s cur 0 stop
    → is_runnable (s.envs (after cur stop)).env_status ≡ false
    → after cur stop ≡ cur
idle_stop s cur stop c idle = ground (arith, c.ends)

none_runnable :
    (s : Kernel) (cur stop : ℕ)
    → cur < nenv
    → Chosen s cur 0 stop
    → is_runnable (s.envs (after cur stop)).env_status ≡ false
    → NoneIs is_runnable s
none_runnable s cur stop inside c idle i =
    elim (Bool-cases (ltb i nenv && is_runnable (s.envs i).env_status)) [
      | inl ready ↦
          let h = Chosen-is_runnable s cur stop i inside (ground arith) (ground arith) c in cc
      | inr other ↦ other
    ]

none_running :
    (s : Kernel) (e : ℕ)
    → OneRunning s
    → s.curenv ≡ some e
    → is_running (s.envs e).env_status ≡ false
    → (i : ℕ) → (is_running (s.envs i).env_status && true) ≡ false
none_running s e one cur stopped i = elim (Bool-cases (e == i)) [
  | inl same ↦ rw (← (==_iff e i).0 same) (ground arith)
  | inr other ↦
      let h : (is_running (s.envs i).env_status && not (points_to (some e) i)) ≡ false =
        ap (λ c. is_running (s.envs i).env_status && not (points_to c i)) (sym cur) ∙ one.only i in
      ground arith
]

sched_halt-OneRunning :
    (s : Kernel) (e : ℕ)
    → OneRunning s
    → s.curenv ≡ some e
    → is_running (s.envs e).env_status ≡ false
    → OneRunning (sched_halt s).1
unfolding sched_halt
sched_halt-OneRunning s e one cur stopped = elim (Bool-cases (any_alive nenv 0 s)) [
  | inl alive ↦ rw alive (record { only = none_running s e one cur stopped })
  | inr dead ↦ rw dead one
]

-- what `sched_yield` promises
pub record Yielded (s : Kernel) (d : Dispatch) (s' : Kernel) : Type 0 where
  pub outcome : Outcome d s s'
  pub one : OneRunning s'

halted-Outcome :
    (s : Kernel)
    → NoneIs is_runnable s
    → Outcome (sched_halt (started s)).0 s (sched_halt (started s)).1
unfolding sched_halt
halted-Outcome s idle = elim (Bool-cases (any_alive nenv 0 (started s))) [
  | inl alive ↦ rw alive (refl, idle)
  | inr dead ↦ rw dead (λ i. ground (arith, any_alive-NoneIs nenv 0 i (started s) dead))
]

dispatch-Yielded :
    (s : Kernel) (stop : ℕ)
    → start_at s.curenv < nenv
    → OneRunning s
    → Chosen s (start_at s.curenv) 0 stop
    → let r = dispatch (started s) (after (start_at s.curenv) stop) in Yielded s r.0 r.1
unfolding dispatch
dispatch-Yielded s stop inside one c =
    let e = after (start_at s.curenv) stop in
    let one' = started-OneRunning s one in
    elim (Bool-cases (is_runnable (s.envs e).env_status || is_running (s.envs e).env_status)) [
      | inl go ↦
          let r = env_run-IsRunning e (started s) in
          rw go (record {
            outcome = (record { current = r.current; status = r.status; runs = r.runs }, go);
            one = env_run-OneRunning e (started s) one';
          })
      | inr stay ↦
          let idle : is_runnable (s.envs e).env_status ≡ false = ground (arith, stay) in
          let at = idle_stop s (start_at s.curenv) stop c idle in
          let none_ready = none_runnable s (start_at s.curenv) stop inside c idle in
          rw stay (record {
            outcome = halted-Outcome s none_ready;
            one =
                sched_halt-OneRunning (started s) e one' (ap some (sym at)) (ground (arith, stay));
          })
    ]

-- Let the search start inside the table, and no environment but the current one be marked running.
-- Then `sched_yield` ends. It runs an environment that was runnable (or the current one, still
-- marked running), unless none is runnable: then it halts, or nothing at all is alive. Afterwards
-- again no environment but the current one is marked running.
pub sched_yield-Yielded :
    (s : Kernel)
    → start_at s.curenv < nenv
    → OneRunning s
    → (d : Dispatch) × (s' : Kernel) × (sched_yield s ≡ some (d, s')) × Yielded s d s'
unfolding sched_yield
sched_yield-Yielded s inside one =
    let c = next_env-Chosen s inside in
    let r = dispatch (started s) (after (start_at s.curenv) c.0) in
    (r.0, r.1, ap (dispatch_found s) c.1, dispatch-Yielded s c.0 inside one c.2)
