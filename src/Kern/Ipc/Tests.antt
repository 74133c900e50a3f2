-- ===== src/Kern/Ipc/Tests.antt =====
-- The theorems on system calls and messages at a kernel with two environments: 0 runs and maps page
-- 4 at 0x1000, and read-only at 0x2000; its child 1 waits for a page at 0x3000.
use oscourse.Base.{
  ℕ, ◌≡◌, refl, ◌≢◌, ◌⊎◌, Bool, true, false, not, ◌&&◌, Option, none, some, List, [], ◌∷◌, arith,
  ltb, ◌==◌, if◌then◌else◌,
}
use oscourse.Base.Bits.{test_bit}
use oscourse.Kern.Pmap.{PageInfo, Phys, page_alloc, page_free}
use oscourse.Kern.Pmap.FreeList.{IsFreeList}
use oscourse.Kern.Paging.{page_lookup, page_insert, pgdir_walk}
use oscourse.Kern.Paging.Insert.{CanRefer, Inserted}
use oscourse.Kern.Env.{
  Env, Kernel, Result, ok, err, inval, Status, free, running, not_runnable, idle, user_frame,
  no_mem, envid2env,
}
use oscourse.Kern.Syscall.{sys_page_alloc, sys_page_map, sys_exofork}
use oscourse.Kern.Syscall.Maps.{IsVacant, IsShown}
use oscourse.Kern.Syscall.Alloc.{sys_page_alloc-err}
use oscourse.Kern.Syscall.Share.{sys_page_map-Shared, sys_page_alloc-Mapped}
use oscourse.Kern.Syscall.Fork.{Forked, sys_exofork-Forked}
use oscourse.Kern.Ipc.{sys_ipc_recv, sys_ipc_try_send, returned}
use oscourse.Kern.Ipc.Send.{IsWaiting, Received, sys_ipc_try_send-Delivered}
use oscourse.Kern.Ipc.Receive.{is_bad_dstva, Waits, sys_ipc_recv-Waits}

abbrev pages : ℕ → PageInfo
pages i =
    if i == 9
    then record { pp_link = none; pp_ref = 0 }
    else record { pp_link = none; pp_ref = if i == 4 then 2 else 1 }

abbrev words : ℕ → ℕ → ℕ
words f i =
    if (f == 1) && (i == 0)
    then 0x2007
    else if (f == 5) && (i == 0)
    then 0x6007
    else if (f == 2) && (i == 1)
    then 0x4007
    else if (f == 2) && (i == 2)
    then 0x4005
    else 0

abbrev memory : Phys
memory = record { npages = 16; pages = pages; page_free_list = some 9; words = words }

abbrev env_of : (id : ℕ) → Status → Option ℕ → Bool → Env
env_of id st dir recving = record {
  env_tf = user_frame;
  env_link = none;
  env_id = id;
  env_parent_id = 0x1000;
  env_type = idle;
  env_status = st;
  env_runs = 0;
  env_pgdir = dir;
  env_pgfault_upcall = 0;
  env_ipc_recving = recving;
  env_ipc_dstva = 0x3000;
  env_ipc_value = 0;
  env_ipc_from = 0;
  env_ipc_perm = 0;
}

abbrev kernel : Kernel
kernel = record {
  phys = memory;
  envs = λ i.
      if i == 0
      then env_of 0x1000 running (some 1) false
      else if i == 1
      then env_of 0x1001 not_runnable (some 5) true
      else env_of 0 free none false;
  curenv = some 0;
  env_free_list = some 2;
  kern_pgdir = 3;
}

memory-IsFreeList : IsFreeList memory (9 ∷ [])
memory-IsFreeList = record { chain = (refl, refl, refl, refl); bounded = omega arith }

parent_found : envid2env 0x1000 true kernel ≡ ok (some 0)
unfolding envid2env
parent_found = refl

child_found : envid2env 0x1001 true kernel ≡ ok (some 1)
unfolding envid2env
child_found = refl

sender-IsShown : IsShown memory (some 1) 1 0x1000 2 4
unfolding test_bit
sender-IsShown = record {
  directory = refl;
  mapped = record {
    table = record { present = refl; frame = refl; inside = omega arith };
    present = refl;
    page = refl;
    inside = omega arith;
  };
}

read_only-IsShown : IsShown memory (some 1) 1 0x2000 2 4
unfolding test_bit
read_only-IsShown = record {
  directory = refl;
  mapped = record {
    table = record { present = refl; frame = refl; inside = omega arith };
    present = refl;
    page = refl;
    inside = omega arith;
  };
}

child-IsVacant : IsVacant memory (some 5) 5 0x3000 6
unfolding test_bit
child-IsVacant = record {
  directory = refl;
  table = record { present = refl; frame = refl; inside = omega arith };
  unmapped = refl;
  apart = omega arith;
  small = omega arith;
}

page4-CanRefer : CanRefer memory (9 ∷ []) 4
page4-CanRefer = record { inside = omega arith; out = refl; room = omega arith }

child-IsWaiting : IsWaiting kernel 0x1001 0 1
unfolding envid2env
child-IsWaiting = record { found = refl; from = refl; waits = refl }

-- The source 0x1002 is even, but not page-aligned.
sys_ipc_try_send-Delivered_example :
    (s' : Kernel) × (sys_ipc_try_send 0x1001 77 0x1002 7 kernel ≡ some (ok 0, s'))
    × Inserted memory s'.phys 5 4 0x3000 7 6 none
    × Received kernel s' 0 1 77 7
unfolding test_bit
sys_ipc_try_send-Delivered_example =
    sys_ipc_try_send-Delivered kernel 0x1001 77 0x1002 7 0 1 1 2 4 5 6 (9 ∷ []) child-IsWaiting
      (omega arith) refl refl
      (record {
        directory = refl;
        mapped = record {
          table = record { present = refl; frame = refl; inside = omega arith };
          present = refl;
          page = refl;
          inside = omega arith;
        };
      })
      refl (omega arith) child-IsVacant memory-IsFreeList page4-CanRefer

sys_page_map-Shared_example :
    (m : Phys) × (sys_page_map 0x1000 0x1000 0x1001 0x3000 7 kernel
      ≡ some (ok 0, record kernel { phys = m }))
    × Inserted memory m 5 4 0x3000 7 6 none
    × IsFreeList m (9 ∷ [])
unfolding test_bit
sys_page_map-Shared_example =
    sys_page_map-Shared kernel 0x1000 0x1000 0x1001 0x3000 7 0 1 1 2 4 5 6 (9 ∷ []) parent_found
      child_found refl sender-IsShown refl child-IsVacant memory-IsFreeList page4-CanRefer

sys_page_alloc-Mapped_example :
    (m : Phys) × (sys_page_alloc 0x1001 0x3000 7 kernel ≡ some (ok 0, record kernel { phys = m }))
    × (page_lookup 5 0x3000 m ≡ some (some (9, (6, 3)), m))
    × ((k : ℕ) → m.words 9 k ≡ 0)
    × ((m.pages 9).pp_ref ≡ 1)
    × IsFreeList m []
unfolding test_bit
sys_page_alloc-Mapped_example =
    sys_page_alloc-Mapped kernel 0x1001 0x3000 7 1 5 6 9 [] child_found (omega arith) refl
      child-IsVacant memory-IsFreeList (omega arith) (omega arith)

abbrev state_of : Option (Result ℕ × Kernel) → Kernel
state_of none = kernel
state_of (some (r, s)) = s

-- The directory of environment 1 has no table for 0x800000, and the only free page is taken.
abbrev out_of_memory : Kernel
out_of_memory = state_of (sys_page_alloc 0x1001 0x80_0000 7 kernel)

sys_page_alloc-err_example :
    IsFreeList out_of_memory.phys (9 ∷ []) × (out_of_memory.envs ≡ kernel.envs)
unfolding sys_page_alloc envid2env test_bit page_alloc page_insert pgdir_walk page_free
    oscourse.Base.update
sys_page_alloc-err_example =
    sys_page_alloc-err kernel out_of_memory 0x1001 0x80_0000 7 no_mem (9 ∷ []) memory-IsFreeList
      refl

sys_exofork-Forked_example :
    (id : ℕ) × (s' : Kernel) × (sys_exofork kernel ≡ some (ok id, s')) × Forked kernel s' 0 2 id
sys_exofork-Forked_example =
    sys_exofork-Forked kernel 0 2 9 [] refl (omega arith) refl memory-IsFreeList (omega arith)
      (omega arith) (omega arith) (omega arith)

sys_ipc_recv-Waits_example :
    ((is_bad_dstva 0x5000 ≡ true)
      × (sys_ipc_recv 0x5000 kernel ≡ some (returned (err inval), kernel)))
    ⊎ ((is_bad_dstva 0x5000 ≡ false) × Waits kernel 0 0x5000)
sys_ipc_recv-Waits_example =
    sys_ipc_recv-Waits kernel 0 0x5000 refl (omega arith) (record { only = λ i. ground arith })
