-- ===== src/Kern/Sched/Frame.antt =====
-- What `sched_yield` leaves as it is: the message fields of every environment.
use oscourse.Base.{
  ℕ, ◌≡◌, refl, sym, ap, ◌∙◌, inl, inr, ◌||◌, Option, none, some, arith, Bool-cases, update, ==_iff,
}
use oscourse.Kern.Env.{Kernel, is_runnable, is_running, nenv}
use oscourse.Kern.Sched.{
  Dispatch, sched_yield, next_env, dispatch_found, dispatch, env_run, demote, promote, sched_halt,
  start_at, any_alive,
}

-- The message fields of `j` are the same in both states.
abbrev pub SameMessages : Kernel → Kernel → ℕ → Type 0
SameMessages s t j =
    ((t.envs j).env_ipc_recving ≡ (s.envs j).env_ipc_recving)
    × ((t.envs j).env_ipc_dstva ≡ (s.envs j).env_ipc_dstva)

demote-ipc : (e : ℕ) (c : Option ℕ) (s : Kernel) (j : ℕ) → SameMessages s (demote e c s) j
unfolding demote update
demote-ipc e none s j = (refl, refl)
demote-ipc e (some c) s j = (ground (arith, ==_iff j c), ground (arith, ==_iff j c))

promote-ipc : (e : ℕ) (s : Kernel) (j : ℕ) → SameMessages s (promote e s) j
unfolding promote update
promote-ipc e s j = (ground (arith, ==_iff j e), ground (arith, ==_iff j e))

env_run-ipc : (e : ℕ) (s : Kernel) (j : ℕ) → SameMessages s (env_run e s).1 j
unfolding env_run
env_run-ipc e s j =
    let d = demote-ipc e s.curenv s j in
    let p = promote-ipc e (demote e s.curenv s) j in (p.0 ∙ d.0, p.1 ∙ d.1)

sched_halt-ipc : (s : Kernel) (j : ℕ) → SameMessages s (sched_halt s).1 j
unfolding sched_halt
sched_halt-ipc s j = elim (Bool-cases (any_alive nenv 0 s)) [
  | inl alive ↦ rw alive (refl, refl)
  | inr dead ↦ rw dead (refl, refl)
]

dispatch-ipc : (s : Kernel) (e j : ℕ) → SameMessages s (dispatch s e).1 j
unfolding dispatch
dispatch-ipc s e j =
    elim (Bool-cases (is_runnable (s.envs e).env_status || is_running (s.envs e).env_status)) [
      | inl go ↦ rw go (env_run-ipc e s j)
      | inr stay ↦ rw stay (sched_halt-ipc s j)
    ]

dispatch_found-ipc :
    (s t : Kernel) (j : ℕ) (o : Option ℕ) (d : Dispatch)
    → dispatch_found s o ≡ some (d, t)
    → SameMessages s t j
dispatch_found-ipc s t j none d h = absurd (ground arith)
dispatch_found-ipc s t j (some e) d h =
    let r = dispatch (record s { curenv = some (start_at s.curenv) }) e in
    let k = dispatch-ipc (record s { curenv = some (start_at s.curenv) }) e j in
    let same : r.1 ≡ t = ground arith in
    (
      ap (λ (t : Kernel). (t.envs j).env_ipc_recving) (sym same) ∙ k.0,
      ap (λ (t : Kernel). (t.envs j).env_ipc_dstva) (sym same) ∙ k.1,
    )

pub sched_yield-ipc :
    (s t : Kernel) (j : ℕ) (d : Dispatch) → sched_yield s ≡ some (d, t) → SameMessages s t j
unfolding sched_yield
sched_yield-ipc s t j d h = dispatch_found-ipc s t j (next_env s) d h
