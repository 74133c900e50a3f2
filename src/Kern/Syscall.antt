-- ===== src/Kern/Syscall.antt =====
-- kern/syscall.c: the system calls on environments, pages and messages. They run in `curenv`; a
-- NULL `curenv` or page directory would be dereferenced, which is the outcome `none`.
pub mod Maps
pub mod Fork
pub mod Share
pub mod Alloc
pub mod Errors
use oscourse.Base.{
  ℕ, ◌/◌, ◌%◌, Bool, true, false, not, ◌&&◌, ◌||◌, Option, none, some, ltb, ◌==◌, if◌then◌else◌,
}
use oscourse.Base.Bits.{test_bit}
use oscourse.Kern.Pmap.{Phys, page_alloc, page_free}
use oscourse.Kern.Paging.{pte_p, pte_w, pte_u, pgoff, Slot, page_lookup, page_insert, page_remove}
use oscourse.Kern.Env.{
  Kernel, Env, Status, Result, ok, err, K, free, runnable, not_runnable, bad_env, inval, no_mem,
  no_free_env, ipc_not_recv, envid2env, env_alloc, set_env,
}
use oscourse.Kern.Sched.{Dispatch, sched_yield}

-- `UTOP`
abbrev pub utop : ℕ
utop = 0xee80_0000

-- `perm & ~PTE_SYSCALL` is 0: no bits but `PTE_P`, `PTE_W`, `PTE_U` and the three of `PTE_AVAIL`
abbrev pub only_syscall_bits : ℕ → Bool
only_syscall_bits perm = ltb perm 4096 && (perm / 8 % 64 == 0)

-- the test of `perm` that the calls share
abbrev pub good_perm : ℕ → Bool
good_perm perm = test_bit perm pte_u && (test_bit perm pte_p && only_syscall_bits perm)

-- what a call does with the environment that `envid2env` found
abbrev pub on_env :
    Kernel → (ℕ → Option (Result ℕ × Kernel)) → Result (Option ℕ) → Option (Result ℕ × Kernel)
on_env s f (err e) = some (err bad_env, s)
on_env s f (ok none) = none
on_env s f (ok (some i)) = f i

-- `sys_exofork` for what `env_alloc` returned: the child gets the registers of `curenv` at `c`,
-- with 0 in `eax`.
forked : (c : ℕ) → Option (Result ℕ × Kernel) → Option (Result ℕ × Kernel)
forked c none = none
forked c (some (err e, s)) = some (err no_free_env, s)
forked c (some (ok i, s)) = some (
  ok (s.envs i).env_id,
  set_env s i (record (s.envs i) {
    env_status = not_runnable;
    env_tf = record (s.envs c).env_tf {
      tf_regs = record (s.envs c).env_tf.tf_regs { reg_eax = 0 };
    };
  }),
)

fork_from : Option ℕ → K ℕ
unfolding forked
fork_from none s = none
fork_from (some c) s = forked c (env_alloc (s.envs c).env_id s)

-- `sys_exofork`
unfoldable pub sys_exofork : K ℕ
unfolding fork_from
sys_exofork s = fork_from s.curenv s

-- the values of `status` that `sys_env_set_status` takes
abbrev pub settable : ℕ → Option Status
settable status =
    if status == 0
    then some free
    else if status == 2
    then some runnable
    else if status == 4
    then some not_runnable
    else none

set_status : Kernel → ℕ → Option Status → Option (Result ℕ × Kernel)
set_status s i none = some (err inval, s)
set_status s i (some st) = some (ok 0, set_env s i (record (s.envs i) { env_status = st }))

-- `sys_env_set_status`
unfoldable pub sys_env_set_status : (envid status : ℕ) → K ℕ
unfolding set_status
sys_env_set_status envid status s =
    on_env s (λ i. set_status s i (settable status)) (envid2env envid true s)

-- `sys_env_set_pgfault_upcall`
unfoldable pub sys_env_set_pgfault_upcall : (envid func : ℕ) → K ℕ
sys_env_set_pgfault_upcall envid func s =
    on_env s (λ i. some (ok 0, set_env s i (record (s.envs i) { env_pgfault_upcall = func })))
      (envid2env envid true s)

-- `page_insert`, `page_lookup` and `page_remove` in the page directory of an environment
abbrev pub insert_in : Option ℕ → (pp va perm : ℕ) → Phys → Option (Bool × Phys)
insert_in none pp va perm m = none
insert_in (some pd) pp va perm m = page_insert pd pp va perm m

abbrev pub lookup_in : Option ℕ → ℕ → Phys → Option (Option (ℕ × Slot) × Phys)
lookup_in none va m = none
lookup_in (some pd) va m = page_lookup pd va m

abbrev pub remove_in : Option ℕ → ℕ → Phys → Option (Unit {0} × Phys)
remove_in none va m = none
remove_in (some pd) va m = page_remove pd va m

-- `page_free(pg)` after a `page_insert` that failed
gave_back : Kernel → Option (Unit {0} × Phys) → Option (Result ℕ × Kernel)
gave_back s none = none
gave_back s (some (u, m)) = some (err no_mem, record s { phys = m })

mapped_new : Kernel → (pg : ℕ) → Option (Bool × Phys) → Option (Result ℕ × Kernel)
unfolding gave_back
mapped_new s pg none = none
mapped_new s pg (some (true, m)) = some (ok 0, record s { phys = m })
mapped_new s pg (some (false, m)) = gave_back s (page_free pg m)

map_new : (va perm i : ℕ) → Kernel → Option (Option ℕ × Phys) → Option (Result ℕ × Kernel)
unfolding mapped_new
map_new va perm i s none = none
map_new va perm i s (some (none, m)) = some (err no_mem, record s { phys = m })
map_new va perm i s (some (some pg, m)) =
    mapped_new s pg (insert_in (s.envs i).env_pgdir pg va perm m)

-- `sys_page_alloc`
unfoldable pub sys_page_alloc : (envid va perm : ℕ) → K ℕ
unfolding map_new
sys_page_alloc envid va perm s =
    on_env s
      (λ i.
        if not (ltb va utop) || not (good_perm perm)
        then some (err inval, s)
        else map_new va perm i s (page_alloc true s.phys))
      (envid2env envid true s)

-- the end of a call that maps a page: `page_insert` failed, or `k` goes on
abbrev pub after_insert :
    Kernel → (Kernel → Kernel) → Option (Bool × Phys) → Option (Result ℕ × Kernel)
after_insert s k none = none
after_insert s k (some (true, m)) = some (ok 0, k (record s { phys = m }))
after_insert s k (some (false, m)) = some (err no_mem, record s { phys = m })

-- whether `perm` asks to write through an entry that is read-only
abbrev pub exceeds : Kernel → (perm : ℕ) → Slot → Bool
exceeds s perm (f, i) = test_bit perm pte_w && not (test_bit (s.phys.words f i) pte_w)

-- `sys_page_map` for what `page_lookup` found, into the environment `j`; the lookup leaves memory
-- as it is
map_found :
    (dstva perm j : ℕ) → Kernel → Option (Option (ℕ × Slot) × Phys) → Option (Result ℕ × Kernel)
map_found dstva perm j s none = none
map_found dstva perm j s (some (none, m)) = some (err inval, s)
map_found dstva perm j s (some (some (pg, slot), m)) =
    if exceeds s perm slot
    then some (err inval, s)
    else after_insert s (λ t. t) (insert_in (s.envs j).env_pgdir pg dstva perm m)

-- the tests of the two addresses and of `perm`
abbrev pub good_map : (srcva dstva perm : ℕ) → Bool
good_map srcva dstva perm =
    ltb srcva utop
    && ((pgoff srcva == 0) && (ltb dstva utop && ((pgoff dstva == 0) && good_perm perm)))

-- `sys_page_map`
unfoldable pub sys_page_map : (srcenvid srcva dstenvid dstva perm : ℕ) → K ℕ
unfolding map_found
sys_page_map srcenvid srcva dstenvid dstva perm s =
    on_env s
      (λ i.
        on_env s
          (λ j.
            if good_map srcva dstva perm
            then map_found dstva perm j s (lookup_in (s.envs i).env_pgdir srcva s.phys)
            else some (err inval, s))
          (envid2env dstenvid true s))
      (envid2env srcenvid true s)

unmapped : Kernel → Option (Unit {0} × Phys) → Option (Result ℕ × Kernel)
unmapped s none = none
unmapped s (some (u, m)) = some (ok 0, record s { phys = m })

-- `sys_page_unmap`
unfoldable pub sys_page_unmap : (envid va : ℕ) → K ℕ
unfolding unmapped
sys_page_unmap envid va s =
    on_env s
      (λ i.
        if not (ltb va utop) || not (pgoff va == 0)
        then some (err inval, s)
        else unmapped s (remove_in (s.envs i).env_pgdir va s.phys))
      (envid2env envid true s)
