-- ===== src/Kern/Ipc.antt =====
-- kern/syscall.c: sending and receiving messages, `sys_ipc_recv` and `sys_ipc_try_send`.
pub mod Send
mod Tests
pub mod Receive
pub mod Errors
use oscourse.Base.{
  ℕ, Bool, true, false, not, ◌&&◌, ◌||◌, Option, none, some, ltb, ◌==◌, if◌then◌else◌,
}
use oscourse.Base.Bits.{test_bit}
use oscourse.Kern.Pmap.{Phys}
use oscourse.Kern.Paging.{pgoff, Slot}
use oscourse.Kern.Env.{
  Kernel, Env, Result, ok, err, K, runnable, not_runnable, inval, ipc_not_recv, envid2env, set_env,
}
use oscourse.Kern.Sched.{Dispatch, sched_yield}
use oscourse.Kern.Syscall.{utop, good_perm, on_env, insert_in, lookup_in, exceeds, after_insert}

-- How a call ends that may give up the processor: it returns, or another environment runs.
pub data Outcome : Type 0 where
  returned : Result ℕ → Outcome
  switched : Dispatch → Outcome

-- the fields that `sys_ipc_recv` sets, for an address that is at most `UTOP`
waiting : (dstva : ℕ) → Env → Env
waiting dstva e = record e {
  env_ipc_dstva = dstva;
  env_ipc_recving = true;
  env_status = not_runnable;
  env_tf = record e.env_tf { tf_regs = record e.env_tf.tf_regs { reg_eax = 0 } };
}

pub yielded : Option (Dispatch × Kernel) → Option (Outcome × Kernel)
yielded none = none
yielded (some (d, s)) = some (switched d, s)

-- `curenv` at `c` waits for a message
unfoldable pub start_waiting : (c dstva : ℕ) → Kernel → Kernel
unfolding waiting
start_waiting c dstva s = set_env s c (waiting (if ltb dstva utop then dstva else utop) (s.envs c))

recv_in : (dstva : ℕ) → Option ℕ → Kernel → Option (Outcome × Kernel)
unfolding start_waiting yielded
recv_in dstva none s = none
recv_in dstva (some c) s =
    if ltb dstva utop && (not (dstva == 0) && not (pgoff dstva == 0))
    then some (returned (err inval), s)
    else yielded (sched_yield (start_waiting c dstva s))

-- `sys_ipc_recv`
unfoldable pub sys_ipc_recv : (dstva : ℕ) → Kernel → Option (Outcome × Kernel)
unfolding recv_in
sys_ipc_recv dstva s = recv_in dstva s.curenv s

-- The fields that a successful `sys_ipc_try_send` from `c` sets in the receiver `i`. The permission
-- is that of the page sent, or 0.
unfoldable pub deliver : (c i value perm : ℕ) → Kernel → Kernel
deliver c i value perm s = set_env s i (record (s.envs i) {
  env_ipc_perm = perm;
  env_ipc_recving = false;
  env_ipc_from = (s.envs c).env_id;
  env_ipc_value = value;
  env_status = runnable;
})

-- what follows `page_lookup` in the sender, which leaves memory as it is
send_found :
    (c i value perm : ℕ) → Kernel → Option (Option (ℕ × Slot) × Phys) → Option (Result ℕ × Kernel)
send_found c i value perm s none = none
send_found c i value perm s (some (none, m)) = some (err inval, s)
send_found c i value perm s (some (some (pg, slot), m)) =
    if exceeds s perm slot
    then some (err inval, s)
    else if ltb (s.envs i).env_ipc_dstva utop
    then after_insert s (deliver c i value perm)
        (insert_in (s.envs i).env_pgdir pg (s.envs i).env_ipc_dstva perm m)
    else some (ok 0, deliver c i value perm s)

-- `srcva & (PGOFF(srcva) != 0)`, as a truth value
abbrev pub rejects_srcva : ℕ → Bool
rejects_srcva srcva = test_bit srcva 0 && not (pgoff srcva == 0)

send_from : (i value srcva perm : ℕ) → Option ℕ → Kernel → Option (Result ℕ × Kernel)
unfolding send_found
send_from i value srcva perm none s = none
send_from i value srcva perm (some c) s =
    if not (s.envs i).env_ipc_recving
    then some (err ipc_not_recv, s)
    else if ltb srcva utop
    then if rejects_srcva srcva || not (good_perm perm)
      then some (err inval, s)
      else send_found c i value perm s (lookup_in (s.envs c).env_pgdir srcva s.phys)
    else some (ok 0, deliver c i value 0 s)

-- `sys_ipc_try_send`
unfoldable pub sys_ipc_try_send : (envid value srcva perm : ℕ) → K ℕ
unfolding send_from
sys_ipc_try_send envid value srcva perm s =
    on_env s (λ i. send_from i value srcva perm s.curenv s) (envid2env envid false s)
