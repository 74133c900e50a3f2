-- ===== src/Kern/Destroy/Tests.antt =====
-- Freeing an environment on a small machine.
use oscourse.Base.{◌≡◌, refl, false, none, some, [], ◌∷◌, arith}
use oscourse.Base.Bits.{test_bit}
use oscourse.Kern.Pmap.{Phys}
use oscourse.Kern.Pmap.FreeList.{IsFreeList}
use oscourse.Kern.Env.{Kernel, Env, free, user, ok, user_frame, env_alloc}
use oscourse.Kern.Destroy.{env_free}
use oscourse.Kern.Destroy.Free.{Undone, env_free-env_alloc}

-- sixteen pages of zeros, page 9 free
abbrev memory : Phys
memory = record {
  npages = 16;
  pages = λ i. record { pp_link = none; pp_ref = 0 };
  page_free_list = some 9;
  words = λ f i. 0;
}

abbrev entry : Env
entry = record {
  env_tf = user_frame;
  env_link = some 2;
  env_id = 0x1001;
  env_parent_id = 0;
  env_type = user;
  env_status = free;
  env_runs = 0;
  env_pgdir = none;
  env_pgfault_upcall = 0;
  env_ipc_recving = false;
  env_ipc_dstva = 0;
  env_ipc_value = 0;
  env_ipc_from = 0;
  env_ipc_perm = 0;
}

abbrev kernel : Kernel
kernel = record {
  phys = memory;
  envs = λ i. entry;
  curenv = none;
  env_free_list = some 1;
  kern_pgdir = 3;
}

memory-IsFreeList : IsFreeList memory (9 ∷ [])
memory-IsFreeList = record { chain = (refl, refl, refl, refl); bounded = omega arith }

no_bit : test_bit 0 0 ≡ false
unfolding test_bit
no_bit = refl

env_free-env_alloc_example :
    (s1 s2 : Kernel) × (env_alloc 0 kernel ≡ some (ok 1, s1))
    × (env_free 1 s1 ≡ some s2)
    × Undone kernel s2 1 9 []
env_free-env_alloc_example =
    env_free-env_alloc kernel 1 0 9 [] refl memory-IsFreeList (omega arith) (omega arith)
      (omega arith) (omega arith) (λ j. ground (arith, no_bit))
