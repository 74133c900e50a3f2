-- ===== src/Kern/Sched/Tests.antt =====
-- The scheduler at a table with two environments.
use oscourse.Base.{ℕ, ◌≡◌, refl, Bool, none, some, arith, ◌==◌, ==_iff, if◌then◌else◌}
use oscourse.Kern.Env.{Kernel, Env, Status, free, runnable, running, user, user_frame}
use oscourse.Kern.Sched.{Dispatch, scan, next_env, sched_yield}
use oscourse.Kern.Sched.Choice.{after, Chosen, next_env-Chosen}
use oscourse.Kern.Sched.Running.{OneRunning, Yielded, sched_yield-Yielded}

abbrev entry : Status → Env
entry st = record {
  env_tf = user_frame;
  env_link = none;
  env_id = 0x1000;
  env_parent_id = 0;
  env_type = user;
  env_status = st;
  env_runs = 0;
  env_pgdir = none;
  env_pgfault_upcall = 0;
  env_ipc_recving = Bool.false;
  env_ipc_dstva = 0;
  env_ipc_value = 0;
  env_ipc_from = 0;
  env_ipc_perm = 0;
}

-- environment 5 runs, and environment 2 is runnable
abbrev kernel : Kernel
kernel = record {
  phys = record {
    npages = 1;
    pages = λ i. record { pp_link = none; pp_ref = 1 };
    page_free_list = none;
    words = λ f i. 0;
  };
  envs = λ i. if i == 5 then entry running else if i == 2 then entry runnable else entry free;
  curenv = some 5;
  env_free_list = none;
  kern_pgdir = 0;
}

kernel-OneRunning : OneRunning kernel
kernel-OneRunning = record { only = λ i. ground (arith, ==_iff i 5, ==_iff 5 i) }

sched_yield-Yielded_example :
    (d : Dispatch) × (s' : Kernel) × (sched_yield kernel ≡ some (d, s')) × Yielded kernel d s'
sched_yield-Yielded_example = sched_yield-Yielded kernel (omega arith) kernel-OneRunning

next_env-Chosen_example :
    (stop : ℕ) × (next_env kernel ≡ some (after 5 stop)) × Chosen kernel 5 0 stop
next_env-Chosen_example = next_env-Chosen kernel (omega arith)

next_env_round : next_env kernel ≡ some 2
unfolding next_env scan
next_env_round = refl
