-- ===== src/Kern/Sched.antt =====
-- kern/sched.c, and `env_run` of kern/env.c: choosing the next environment and switching to it.
pub mod Choice
pub mod Running
pub mod Frame
pub mod Again
mod Tests
use oscourse.Base.{
  ℕ, zero, suc, ◌+◌, ◌%◌, ◌^◌, Bool, true, false, not, ◌&&◌, ◌||◌, Option, none, some, ◌==◌,
  if◌then◌else◌, update,
}
use oscourse.Kern.Env.{
  Kernel, Env, Status, nenv, runnable, running, set_env, is_runnable, is_running, is_dying,
  points_to,
}

-- where `sched_yield` ends: in an environment, in `hlt`, or in the kernel monitor for good
pub data Dispatch : Type 0 where
  run : ℕ → Dispatch
  halt : Dispatch
  monitor : Dispatch

-- `if (curenv != e && curenv->env_status == ENV_RUNNING) curenv->env_status = ENV_RUNNABLE`
demote : (e : ℕ) → Option ℕ → Kernel → Kernel
demote e none s = s
demote e (some c) s =
    if not (c == e) && is_running (s.envs c).env_status
    then set_env s c (record (s.envs c) { env_status = runnable })
    else s

-- `curenv = e; e->env_status = ENV_RUNNING; e->env_runs++`
promote : ℕ → Kernel → Kernel
promote e s = record s {
  curenv = some e;
  envs =
      update s.envs e
        (record (s.envs e) { env_status = running; env_runs = ((s.envs e).env_runs + 1) % 2 ^ 32 });
}

-- `env_run`, up to the switch of address space and registers
unfoldable pub env_run : ℕ → Kernel → Dispatch × Kernel
unfolding demote promote
env_run e s = (run e, promote e (demote e s.curenv s))

-- the loop of `sched_yield` on fuel: the slot at which it stops
unfoldable pub scan : (fuel : ℕ) → Kernel → (cur e : ℕ) → Option ℕ
scan zero s cur e = none
scan (suc fuel) s cur e =
    let rest = scan fuel s cur ((e + 1) % nenv) in
    if (e == cur) || is_runnable (s.envs e).env_status then some e else rest

-- whether the loop of `sched_halt` breaks at a slot
abbrev pub keeps_alive : Status → Bool
keeps_alive st = is_runnable st || (is_running st || is_dying st)

-- the loop of `sched_halt` over the slots `i`, `i + 1`, ..., `n` of them
pub any_alive : (n i : ℕ) → Kernel → Bool
any_alive zero i s = false
any_alive (suc n) i s = keeps_alive (s.envs i).env_status || any_alive n (i + 1) s

-- `sched_halt`
unfoldable pub sched_halt : Kernel → Dispatch × Kernel
sched_halt s = if any_alive nenv 0 s then (halt, record s { curenv = none }) else (monitor, s)

-- a NULL `curenv` becomes the last slot
abbrev pub start_at : Option ℕ → ℕ
start_at none = 1023
start_at (some c) = c

-- what follows the loop
dispatch : Kernel → ℕ → Dispatch × Kernel
unfolding env_run
dispatch s e =
    if is_runnable (s.envs e).env_status || is_running (s.envs e).env_status
    then env_run e s
    else sched_halt s

-- the slot that the loop of `sched_yield` finds
unfoldable pub next_env : Kernel → Option ℕ
next_env s = scan nenv s (start_at s.curenv) ((start_at s.curenv + 1) % nenv)

-- what follows the loop, if it ended; `curenv` was set to the last slot if it was NULL
abbrev dispatch_found : Kernel → Option ℕ → Option (Dispatch × Kernel)
dispatch_found s none = none
dispatch_found s (some e) = some (dispatch (record s { curenv = some (start_at s.curenv) }) e)

-- `sched_yield`; `none` stands for a loop that runs on after NENV rounds.
unfoldable pub sched_yield : Kernel → Option (Dispatch × Kernel)
unfolding dispatch next_env
sched_yield s = dispatch_found s (next_env s)
