-- ===== src/Kern/Destroy.antt =====
-- kern/env.c and kern/syscall.c: freeing an environment with its address space, and the calls that do
-- so, `env_destroy`, `user_mem_assert` and `sys_env_destroy`.
pub mod Assert
pub mod Unresolved
pub mod Free
mod Tests
use oscourse.Base.{
  ℕ, zero, suc, ◌+◌, ◌*◌, ◌%◌, ◌^◌, bit_or, Bool, true, false, Option, none, some, ltb, ◌==◌,
  if◌then◌else◌, update,
}
use oscourse.Base.Bits.{test_bit, set_bit, clear_bit}
use oscourse.Kern.Pmap.{Phys, set_word, page_decref}
use oscourse.Kern.Paging.{pgnum, pte_p, page_remove}
use oscourse.Kern.UserMem.{user_mem_check}
use oscourse.Kern.Env.{
  Kernel, Env, Trapframe, Result, ok, err, bad_env, free, envid2env, points_to, set_env,
}
use oscourse.Kern.Sched.{Dispatch, sched_yield}
use oscourse.Kern.Ipc.{Outcome, returned, switched}

-- `PDX(UTOP)`
abbrev pub user_tables : ℕ
user_tables = 954

-- `PGADDR(pdeno, pteno, 0)`
abbrev pub pgaddr : (pdeno pteno : ℕ) → ℕ
pgaddr pdeno pteno = (pdeno * 2 ^ 22 + pteno * 2 ^ 12) % 2 ^ 32

-- what follows a step on the physical pages, if that does not panic
abbrev pub then_on : Option (Unit {0} × Phys) → (Phys → Option Phys) → Option Phys
then_on none k = none
then_on (some (u, s)) k = k s

-- the inner loop of `env_free` over the entries `pteno`, `pteno + 1`, ... of the table in frame `f`, `n`
-- of them
free_entries : (pd f pdeno n pteno : ℕ) → Phys → Option Phys
free_entries pd f pdeno zero pteno s = some s
free_entries pd f pdeno (suc n) pteno s =
    if test_bit (s.words f pteno) pte_p
    then then_on (page_remove pd (pgaddr pdeno pteno) s) (free_entries pd f pdeno n (pteno + 1))
    else free_entries pd f pdeno n (pteno + 1) s

abbrev then_phys : Option Phys → (Phys → Option Phys) → Option Phys
then_phys none k = none
then_phys (some s) k = k s

-- a round of the outer loop for the table in frame `f`, with the panics of KADDR and `pa2page`, and
-- the rounds after it
free_table : (pd f pdeno : ℕ) → (Phys → Option Phys) → Phys → Option Phys
unfolding free_entries
free_table pd f pdeno rest s =
    if ltb f s.npages
    then then_phys (free_entries pd f pdeno 1024 0 s)
        (λ t. then_on (page_decref f (set_word t pd pdeno 0)) rest)
    else none

-- the rounds `pdeno`, `pdeno + 1`, ... of that loop, `n` of them
pub free_tables : (pd n pdeno : ℕ) → Phys → Option Phys
unfolding free_table
free_tables pd zero pdeno s = some s
free_tables pd (suc n) pdeno s =
    if test_bit (s.words pd pdeno) pte_p
    then free_table pd (pgnum (s.words pd pdeno)) pdeno (free_tables pd n (pdeno + 1)) s
    else free_tables pd n (pdeno + 1) s

-- the end of `env_free`: the environment `i` on the free list, and no longer with a directory
pub put_back : ℕ → Kernel → Phys → Kernel
put_back i s m = record s {
  phys = m;
  envs =
      update s.envs i
        (record (s.envs i) { env_pgdir = none; env_status = free; env_link = s.env_free_list });
  env_free_list = some i;
}

pub put_back_with : ℕ → Kernel → Option (Unit {0} × Phys) → Option Kernel
unfolding put_back
put_back_with i s none = none
put_back_with i s (some (u, m)) = some (put_back i s m)

pub free_dir : ℕ → (pd : ℕ) → Kernel → Option Phys → Option Kernel
unfolding put_back_with
free_dir i pd s none = none
free_dir i pd s (some m) = put_back_with i s (page_decref pd m)

pub free_env_from : ℕ → Option ℕ → Kernel → Option Kernel
unfolding free_dir free_tables
free_env_from i none s = none
free_env_from i (some pd) s = free_dir i pd s (free_tables pd user_tables 0 s.phys)

-- `env_free`; without a directory it faults
unfoldable pub env_free : ℕ → Kernel → Option Kernel
unfolding free_env_from
env_free i s = free_env_from i (s.envs i).env_pgdir s

-- Where a call that may not return ends: nowhere, back at its caller, or in a dispatch.
abbrev pub Ends : Type 0
Ends = Option (Option Dispatch × Kernel)

unfoldable pub dispatched : Option (Dispatch × Kernel) → Ends
dispatched none = none
dispatched (some (d, s)) = some (some d, s)

after_free : ℕ → Option Kernel → Ends
unfolding dispatched
after_free i none = none
after_free i (some s) =
    if points_to s.curenv i
    then dispatched (sched_yield (record s { curenv = none }))
    else some (none, s)

-- `env_destroy`
unfoldable pub env_destroy : ℕ → Kernel → Ends
unfolding after_free
env_destroy i s = after_free i (env_free i s)

asserted : ℕ → Option (Option ℕ) → Kernel → Ends
asserted i none s = none
asserted i (some none) s = some (none, s)
asserted i (some (some a)) s = env_destroy i s

assert_in : (i : ℕ) → Option ℕ → (va len perm : ℕ) → Kernel → Ends
unfolding asserted
assert_in i none va len perm s = none
assert_in i (some pd) va len perm s = asserted i (user_mem_check pd va len (bit_or perm 4) s.phys) s

-- `user_mem_assert`
unfoldable pub user_mem_assert : (i va len perm : ℕ) → Kernel → Ends
unfolding assert_in
user_mem_assert i va len perm s = assert_in i (s.envs i).env_pgdir va len perm s

pub destroy_ends : Ends → Option (Outcome × Kernel)
destroy_ends none = none
destroy_ends (some (none, s)) = some (returned (ok 0), s)
destroy_ends (some (some d, s)) = some (switched d, s)

destroy_found : Result (Option ℕ) → Kernel → Option (Outcome × Kernel)
unfolding destroy_ends
destroy_found (err e) s = some (returned (err e), s)
destroy_found (ok none) s = none
destroy_found (ok (some i)) s = destroy_ends (env_destroy i s)

-- `sys_env_destroy`
unfoldable pub sys_env_destroy : (envid : ℕ) → Kernel → Option (Outcome × Kernel)
unfolding destroy_found
sys_env_destroy envid s = destroy_found (envid2env envid true s) s

-- the frame that `sys_env_set_trapframe` sets: selectors of the user's level, interrupts enabled, no
-- I/O privilege
abbrev pub user_level : Trapframe → Trapframe
user_level tf = record tf {
  tf_ds = bit_or tf.tf_ds 3;
  tf_es = bit_or tf.tf_es 3;
  tf_ss = bit_or tf.tf_ss 3;
  tf_cs = bit_or tf.tf_cs 3;
  tf_eflags = clear_bit (clear_bit (set_bit tf.tf_eflags 9) 12) 13;
}

set_frame : ℕ → Trapframe → Ends → Option (Outcome × Kernel)
set_frame i tf none = none
set_frame i tf (some (some d, s)) = some (switched d, s)
set_frame i tf (some (none, s)) =
    some (returned (ok 0), set_env s i (record (s.envs i) { env_tf = user_level tf }))

frame_found : (va : ℕ) → Trapframe → Result (Option ℕ) → Kernel → Option (Outcome × Kernel)
unfolding set_frame
frame_found va tf (err e) s = some (returned (err bad_env), s)
frame_found va tf (ok none) s = none
frame_found va tf (ok (some i)) s = set_frame i tf (user_mem_assert i va 68 0 s)

-- `sys_env_set_trapframe`, for the frame that stands at `va` in the caller's memory
unfoldable pub sys_env_set_trapframe :
    (envid va : ℕ) → Trapframe → Kernel → Option (Outcome × Kernel)
unfolding frame_found
sys_env_set_trapframe envid va tf s = frame_found va tf (envid2env envid true s) s
