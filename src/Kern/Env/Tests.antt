-- ===== src/Kern/Env/Tests.antt =====
-- The theorems on environments at small tables.
use oscourse.Base.{
  ℕ, ◌≡◌, refl, ◌≢◌, true, false, Option, none, some, [], ◌∷◌, arith, ◌==◌, ltb, if◌then◌else◌,
}
use oscourse.Kern.Pmap.{Phys}
use oscourse.Kern.Pmap.FreeList.{IsFreeList}
use oscourse.Kern.Env.{
  Kernel, Env, Status, free, runnable, running, user, ok, err, no_free_env, user_frame, envid2env,
  env_init, env_alloc, next_id,
}
use oscourse.Kern.Env.Alloc.{Started, env_alloc-Started}
use oscourse.Kern.Env.Cycle.{env_init-env_id, start, more, env_alloc-never_full}

-- an environment with a status and identifiers, and nothing else of note
abbrev entry : Status → ℕ → ℕ → Env
entry st id parent = record {
  env_tf = user_frame;
  env_link = some 2;
  env_id = id;
  env_parent_id = parent;
  env_type = user;
  env_status = st;
  env_runs = 0;
  env_pgdir = none;
  env_pgfault_upcall = 0;
  env_ipc_recving = false;
  env_ipc_dstva = 0;
  env_ipc_value = 0;
  env_ipc_from = 0;
  env_ipc_perm = 0;
}

abbrev memory : Option ℕ → Phys
memory head = record {
  npages = 16;
  pages = λ i. record { pp_link = none; pp_ref = 0 };
  page_free_list = head;
  words = λ f i. 0;
}

-- environment 0 is running with identifier 0x1000, environment 1 is free after 0x1001
abbrev kernel : Option ℕ → Kernel
kernel head = record {
  phys = memory head;
  envs = λ i.
      if i == 0
      then entry running 0x1000 0
      else if i == 1
      then entry free 0x1001 0
      else entry free 0 0;
  curenv = some 0;
  env_free_list = some 1;
  kern_pgdir = 3;
}

memory-IsFreeList : IsFreeList (memory (some 9)) (9 ∷ [])
memory-IsFreeList = record { chain = (refl, refl, refl, refl); bounded = omega arith }

empty-IsFreeList : IsFreeList (memory none) []
empty-IsFreeList = record { chain = refl; bounded = tt }

own_id : envid2env 0x1000 true (kernel none) ≡ ok (some 0)
unfolding envid2env
own_id = refl

next_id_wraps : next_id 0x7fff_f001 1 ≡ 0x1001
unfolding next_id
next_id_wraps = refl

env_alloc-Started_example :
    (s' : Kernel) × (env_alloc 0x1000 (kernel (some 9)) ≡ some (ok 1, s'))
    × Started (kernel (some 9)) s' 1 0x1000 9 []
env_alloc-Started_example =
    env_alloc-Started (kernel (some 9)) 1 0x1000 9 [] refl memory-IsFreeList (omega arith)
      (omega arith) (omega arith) (omega arith)

-- the table after `env_init` and one allocation
one_alloc :
    (t : Kernel) × (env_alloc 0 (env_init (kernel (some 9))) ≡ some (ok 0, t))
    × Started (env_init (kernel (some 9))) t 0 0 9 []
unfolding env_init
one_alloc =
    env_alloc-Started (env_init (kernel (some 9))) 0 0 9 [] refl memory-init (omega arith)
      (omega (arith, env_init-env_id (kernel (some 9)) 0)) (omega arith) (omega arith)
  where
    memory-init : IsFreeList (env_init (kernel (some 9))).phys (9 ∷ [])
    memory-init = memory-IsFreeList

env_alloc-never_full_example :
    (one_alloc.0.env_free_list ≡ some 1)
    × (env_alloc 0 one_alloc.0 ≢ some (err no_free_env, one_alloc.0))
    × ((j : ℕ) → (if ltb j 1 then (one_alloc.0.envs j).env_status else runnable) ≡ runnable)
env_alloc-never_full_example =
    env_alloc-never_full (kernel (some 9)) 1 one_alloc.0 one_alloc.0 0 (omega arith)
      (more 0 0 start one_alloc.1)
