-- ===== src/Kern/Ipc/Receive.antt =====
-- `sys_ipc_recv`: the caller waits, and is not chosen to run.
use oscourse.Base.{
  ℕ, ◌<◌, ◌≡◌, refl, ap, ◌∙◌, inl, inr, ◌⊎◌, Bool, true, false, not, ◌&&◌, ◌||◌, some, arith,
  Bool-cases, ltb, update, ==_iff, ◌==◌, if◌then◌else◌,
}
use oscourse.Kern.Paging.{pgoff}
use oscourse.Kern.Env.{Kernel, err, inval, nenv, is_runnable, is_running}
use oscourse.Kern.Sched.{Dispatch, run, halt, monitor, start_at}
use oscourse.Kern.Sched.Frame.{sched_yield-ipc}
use oscourse.Kern.Sched.Running.{OneRunning, Yielded, sched_yield-Yielded}
use oscourse.Kern.Syscall.{utop}
use oscourse.Kern.Ipc.{start_waiting, recv_in, sys_ipc_recv, yielded, returned, switched}

-- whether a dispatch runs `c`
abbrev pub runs_env : Dispatch → ℕ → Bool
runs_env (run e) c = e == c
runs_env halt c = false
runs_env monitor c = false

started-not_ready :
    (s : Kernel) (c dstva : ℕ)
    → (is_runnable ((start_waiting c dstva s).envs c).env_status
        || is_running ((start_waiting c dstva s).envs c).env_status)
      ≡ false
unfolding start_waiting update
started-not_ready s c dstva = ground arith

started-OneRunning :
    (s : Kernel) (c dstva : ℕ) → OneRunning s → OneRunning (start_waiting c dstva s)
unfolding start_waiting update
started-OneRunning s c dstva one = record { only = λ i. ground (arith, one.only i) }

started-ipc :
    (s : Kernel) (c dstva : ℕ)
    → let e = (start_waiting c dstva s).envs c in
      (e.env_ipc_recving ≡ true) × (e.env_ipc_dstva ≡ (if ltb dstva utop then dstva else utop))
unfolding start_waiting update
started-ipc s c dstva = (ground arith, ground arith)

started-curenv :
    (s : Kernel) (c dstva : ℕ) → s.curenv ≡ some c → (start_waiting c dstva s).curenv ≡ some c
unfolding start_waiting
started-curenv s c dstva h = h

not_chosen :
    (s s' : Kernel) (c dstva : ℕ) (d : Dispatch)
    → Yielded (start_waiting c dstva s) d s'
    → runs_env d c ≡ false
not_chosen s s' c dstva (run e) y = elim (Bool-cases (e == c)) [
  | inl same ↦
      let e' = (==_iff e c).0 same in
      let ready = y.outcome.1 in ground (arith, ready, e', started-not_ready s c dstva)
  | inr other ↦ other
]
not_chosen s s' c dstva halt y = refl
not_chosen s s' c dstva monitor y = refl

-- an address of a page that `sys_ipc_recv` does not accept
abbrev pub is_bad_dstva : ℕ → Bool
is_bad_dstva dstva = ltb dstva utop && (not (dstva == 0) && not (pgoff dstva == 0))

-- The call gives up the processor to another environment or to none, and leaves `c` waiting for a
-- message, for a page at `dstva` if that is below UTOP.
abbrev pub Waits : (s : Kernel) (c dstva : ℕ) → Type 0
Waits s c dstva =
    (d : Dispatch) × (s' : Kernel) × (sys_ipc_recv dstva s ≡ some (switched d, s'))
    × (runs_env d c ≡ false)
    × ((s'.envs c).env_ipc_recving ≡ true)
    × ((s'.envs c).env_ipc_dstva ≡ (if ltb dstva utop then dstva else utop))
    × OneRunning s'

recv-Waits :
    (s : Kernel) (c dstva : ℕ)
    → s.curenv ≡ some c
    → c < nenv
    → OneRunning s
    → is_bad_dstva dstva ≡ false
    → Waits s c dstva
unfolding sys_ipc_recv
recv-Waits s c dstva cur small one fits =
    let t = start_waiting c dstva s in
    let at : t.curenv ≡ some c = started-curenv s c dstva cur in
    let inside : start_at t.curenv < nenv = rw at small in
    let y = sched_yield-Yielded t inside (started-OneRunning s c dstva one) in
    let k = sched_yield-ipc t y.1 c y.0 y.2 in
    let w = started-ipc s c dstva in
    (
      y.0,
      y.1,
      ap (λ o. recv_in dstva o s) cur ∙ rw fits (ap yielded y.2),
      not_chosen s y.1 c dstva y.0 y.3,
      k.0 ∙ w.0,
      k.1 ∙ w.1,
      y.3.one,
    )

-- Let `curenv` be `c`, in the table, and no other environment be marked running. If `dstva` is below
-- UTOP, not 0 and not page-aligned, `sys_ipc_recv` returns -E_INVAL and changes nothing. Otherwise it
-- gives up the processor to another environment or to none, and leaves `c` waiting for a message, for
-- a page at `dstva` if that is below UTOP; and still no other than the current environment is marked
-- running.
pub sys_ipc_recv-Waits :
    (s : Kernel) (c dstva : ℕ)
    → s.curenv ≡ some c
    → c < nenv
    → OneRunning s
    → ((is_bad_dstva dstva ≡ true) × (sys_ipc_recv dstva s ≡ some (returned (err inval), s)))
      ⊎ ((is_bad_dstva dstva ≡ false) × Waits s c dstva)
unfolding sys_ipc_recv
sys_ipc_recv-Waits s c dstva cur small one = elim (Bool-cases (is_bad_dstva dstva)) [
  | inl bad ↦ inl (bad, ap (λ o. recv_in dstva o s) cur ∙ rw bad refl)
  | inr fits ↦ inr (fits, recv-Waits s c dstva cur small one fits)
]
