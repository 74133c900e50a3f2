-- ===== src/Kern/Sched/Again.antt =====
-- `env_run` of the environment that runs already.
use oscourse.Base.{ℕ, ◌≡◌, refl, ap, ◌∙◌, true, some, ◌==◌, if◌then◌else◌, arith, update}
use oscourse.Kern.Env.{Kernel, running}
use oscourse.Kern.Sched.{run, env_run, demote, promote}

-- the current environment is `c`, and it runs
pub record IsCurrent (s : Kernel) (c : ℕ) : Type 0 where
  pub at : s.curenv ≡ some c
  pub runs : (s.envs c).env_status ≡ running

-- `c` goes on from `s` with the frame that it has there, and nothing else changes for the others.
pub record GoesOn (c : ℕ) (s s' : Kernel) : Type 0 where
  pub current : IsCurrent s' c
  pub frame : (s'.envs c).env_tf ≡ (s.envs c).env_tf
  pub others : (j : ℕ) → (if j == c then s.envs j else s'.envs j) ≡ s.envs j
  pub memory : s'.phys ≡ s.phys

demote-same : (c : ℕ) (s : Kernel) → demote c (some c) s ≡ s
unfolding demote
demote-same c s = let e : (c == c) ≡ true = ground arith in rw e refl

env_run-promote : (c : ℕ) (s : Kernel) → s.curenv ≡ some c → (env_run c s).1 ≡ promote c s
unfolding env_run
env_run-promote c s h = ap (λ o. promote c (demote c o s)) h ∙ ap (promote c) (demote-same c s)

promote-GoesOn : (c : ℕ) (s : Kernel) → GoesOn c s (promote c s)
unfolding promote update
promote-GoesOn c s = record {
  current = record { at = refl; runs = ground arith };
  frame = ground arith;
  others = λ j. ground arith;
  memory = refl;
}

pub env_run-GoesOn : (c : ℕ) (s : Kernel) → IsCurrent s c → GoesOn c s (env_run c s).1
env_run-GoesOn c s h = rw (env_run-promote c s h.at) (promote-GoesOn c s)

pub env_run-run : (c : ℕ) (s : Kernel) → env_run c s ≡ (run c, (env_run c s).1)
unfolding env_run
env_run-run c s = refl
