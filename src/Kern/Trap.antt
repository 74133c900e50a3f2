-- ===== src/Kern/Trap.antt =====
-- kern/trap.c, and the dispatch of kern/syscall.c: what a trap of the current environment leads to.
-- What the console, the clock and the register CR2 deliver, and the trap frames that stand in user
-- memory, are arguments; the monitor that a breakpoint enters only prints.
pub mod Frame
pub mod Resume
pub mod Fault
pub mod Foreign
mod Tests
use oscourse.Base.{
  ℕ, ◌+◌, ◌-◌, ◌^◌, ◌%◌, Bool, true, false, ◌||◌, Option, none, some, List, ◌==◌, if◌then◌else◌,
}
use oscourse.Kern.Pmap.{Phys}
use oscourse.Kern.Env.{
  Kernel, Env, Trapframe, Result, ok, err, bad_env, inval, no_mem, no_free_env, ipc_not_recv, fault,
  Error, set_env, is_running, is_dying,
}
use oscourse.Kern.Sched.{Dispatch, env_run, sched_yield}
use oscourse.Kern.Syscall.{
  sys_exofork, sys_env_set_status, sys_env_set_pgfault_upcall, sys_page_alloc, sys_page_map,
  sys_page_unmap,
}
use oscourse.Kern.Ipc.{Outcome, returned, switched, yielded, sys_ipc_recv, sys_ipc_try_send}
use oscourse.Kern.Trap.Frame.{utf_size, utf_addr, utf_words, store_frame}
use oscourse.Kern.Destroy.{
  Ends, dispatched, env_free, env_destroy, user_mem_assert, destroy_ends, sys_env_destroy,
  sys_env_set_trapframe,
}

-- what a trap finds outside of the kernel's state: the results of `cons_getc`, `gettime` and `rcr2`,
-- and the trap frames in the caller's memory
pub record Inputs : Type 0 where
  pub char_waiting : ℕ
  pub now : ℕ
  pub cr2 : ℕ
  pub frame_at : ℕ → Trapframe

-- `sys_cputs`, whose characters are not kept
sys_cputs : Option ℕ → (s len : ℕ) → Kernel → Option (Outcome × Kernel)
sys_cputs none a len s = none
sys_cputs (some c) a len s = destroy_ends (user_mem_assert c a len 4 s)

sys_getenvid : Option ℕ → Kernel → Option (Outcome × Kernel)
sys_getenvid none s = none
sys_getenvid (some c) s = some (returned (ok (s.envs c).env_id), s)

-- a call that returns
abbrev pub returning : Option (Result ℕ × Kernel) → Option (Outcome × Kernel)
returning none = none
returning (some (r, s)) = some (returned r, s)

-- `syscall`; `none` is a panic
unfoldable pub syscall :
    Inputs → (syscallno a1 a2 a3 a4 a5 : ℕ) → Kernel → Option (Outcome × Kernel)
unfolding sys_cputs sys_getenvid
syscall io number a1 a2 a3 a4 a5 s =
    if number == 0
    then sys_cputs s.curenv a1 a2 s
    else if number == 1
    then some (returned (ok io.char_waiting), s)
    else if number == 2
    then sys_getenvid s.curenv s
    else if number == 3
    then sys_env_destroy a1 s
    else if number == 4
    then returning (sys_page_alloc a1 a2 a3 s)
    else if number == 5
    then returning (sys_page_map a1 a2 a3 a4 a5 s)
    else if number == 6
    then returning (sys_page_unmap a1 a2 s)
    else if number == 7
    then returning (sys_exofork s)
    else if number == 8
    then returning (sys_env_set_status a1 a2 s)
    else if number == 9
    then sys_env_set_trapframe a1 a2 (io.frame_at a2) s
    else if number == 10
    then returning (sys_env_set_pgfault_upcall a1 a2 s)
    else if number == 11
    then yielded (sched_yield s)
    else if number == 12
    then returning (sys_ipc_try_send a1 a2 a3 a4 s)
    else if number == 13
    then sys_ipc_recv a1 s
    else if number == 14
    then some (returned (ok io.now), s)
    else none

error_number : Error → ℕ
error_number bad_env = 2
error_number inval = 3
error_number no_mem = 4
error_number no_free_env = 5
error_number fault = 6
error_number ipc_not_recv = 7

-- the word that a result is
pub result_word : Result ℕ → ℕ
unfolding error_number
result_word (ok n) = n % 2 ^ 32
result_word (err e) = 2 ^ 32 - error_number e

-- `tf->tf_regs.reg_eax = ...`, where `tf` points into the environment `c`
pub set_eax : (c value : ℕ) → Kernel → Kernel
set_eax c value s =
    let tf = (s.envs c).env_tf in
    set_env s c
      (record (s.envs c) { env_tf = record tf { tf_regs = record tf.tf_regs { reg_eax = value } } })

-- the end of the case T_SYSCALL
pub answered : (c : ℕ) → Option (Outcome × Kernel) → Ends
unfolding set_eax result_word
answered c none = none
answered c (some (returned r, s)) = some (none, set_eax c (result_word r) s)
answered c (some (switched d, s)) = some (some d, s)

-- `env_run` in the upcall, once the `struct UTrapframe` is stored
run_upcall : (c addr : ℕ) → Kernel → Option Phys → Ends
run_upcall c addr s none = none
run_upcall c addr s (some m) =
    let e = s.envs c in
    let t =
      set_env (record s { phys = m }) c
        (record e { env_tf = record e.env_tf { tf_eip = e.env_pgfault_upcall; tf_esp = addr } }) in
    dispatched (some (env_run c t))

-- what follows `user_mem_assert`: the words of `utf` are stored at `addr`
pub enter_upcall : (c addr : ℕ) → List ℕ → Ends → Ends
unfolding run_upcall
enter_upcall c addr utf none = none
enter_upcall c addr utf (some (some d, s)) = some (some d, s)
enter_upcall c addr utf (some (none, s)) =
    run_upcall c addr s (store_frame (s.envs c).env_pgdir addr utf s.phys)

-- `page_fault_handler` for the environment `c`
pub page_fault_handler : (c fault_va : ℕ) → Trapframe → Kernel → Ends
unfolding enter_upcall
page_fault_handler c fault_va tf s =
    if tf.tf_cs == 8
    then none
    else if (s.envs c).env_pgfault_upcall == 0
    then env_destroy c s
    else enter_upcall c (utf_addr tf.tf_esp) (utf_words fault_va tf)
        (user_mem_assert c (utf_addr tf.tf_esp) utf_size 2 s)

-- `trap_dispatch` for the frame of the environment `c`
pub trap_dispatch : Inputs → (c : ℕ) → Trapframe → Kernel → Ends
unfolding page_fault_handler answered
trap_dispatch io c tf s =
    let r = tf.tf_regs in
    if tf.tf_trapno == 39
    then some (none, s)
    else if tf.tf_trapno == 40
    then dispatched (sched_yield s)
    else if tf.tf_trapno == 14
    then page_fault_handler c io.cr2 tf s
    else if tf.tf_trapno == 3
    then some (none, s)
    else if tf.tf_trapno == 48
    then answered c (syscall io r.reg_eax r.reg_edx r.reg_ecx r.reg_ebx r.reg_edi r.reg_esi s)
    else if (tf.tf_trapno == 33) || (tf.tf_trapno == 36)
    then some (none, s)
    else if tf.tf_cs == 8
    then none
    else env_destroy c s

-- back to the current environment, if it still runs
pub resume : Option ℕ → Kernel → Option (Dispatch × Kernel)
resume none s = sched_yield s
resume (some c) s = if is_running (s.envs c).env_status then some (env_run c s) else sched_yield s

pub after_dispatch : Ends → Option (Dispatch × Kernel)
unfolding resume
after_dispatch none = none
after_dispatch (some (some d, s)) = some (d, s)
after_dispatch (some (none, s)) = resume s.curenv s

-- the trap frame copied into the environment
abbrev pub saved : (c : ℕ) → Trapframe → Kernel → Kernel
saved c tf s = set_env s c (record (s.envs c) { env_tf = tf })

collected : Option Kernel → Option (Dispatch × Kernel)
collected none = none
collected (some s) = sched_yield (record s { curenv = none })

pub trap_in : Inputs → Option ℕ → Trapframe → Kernel → Option (Dispatch × Kernel)
unfolding collected trap_dispatch after_dispatch
trap_in io none tf s = none
trap_in io (some c) tf s =
    if is_dying (s.envs c).env_status
    then collected (env_free c s)
    else let t = saved c tf s in after_dispatch (trap_dispatch io c (t.envs c).env_tf t)

-- `trap`
unfoldable pub trap : Inputs → Trapframe → Kernel → Option (Dispatch × Kernel)
unfolding trap_in
trap io tf s = trap_in io s.curenv tf s
