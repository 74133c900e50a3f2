-- ===== src/Kern/Env.antt =====
-- kern/env.c and inc/env.h: the table of environments and their identifiers. A `struct Env *` is
-- its index in `envs`. The kernel is built without CONFIG_KSPACE (conf/lab.mk).
pub mod Lookup
pub mod Alloc
pub mod Cycle
mod Tests
use oscourse.Base.{
  ℕ, zero, suc, ◌+◌, ◌-◌, ◌*◌, ◌/◌, ◌%◌, ◌^◌, bit_or, Bool, true, false, not, ◌&&◌, ◌||◌, Option,
  none, some, ltb, leb, ◌==◌, if◌then◌else◌, update,
}
use oscourse.Kern.Pmap.{Phys, page_alloc, add_ref, set_word}
use oscourse.Kern.Paging.{pdx, page2pa}

abbrev pub nenv : ℕ
nenv = 1024

-- `ENVX`
abbrev pub envx : ℕ → ℕ
envx envid = envid % 2 ^ 10

-- the values of `env_status`
pub data Status : Type 0 where
  free dying runnable running not_runnable : Status

-- `enum EnvType`
pub data EnvType : Type 0 where
  idle kernel user fs : EnvType

-- the error codes that the kernel returns (inc/error.h)
pub data Error : Type 0 where
  bad_env inval no_mem no_free_env fault ipc_not_recv : Error

-- `struct PushRegs` and `struct Trapframe`
pub record PushRegs : Type 0 where
  pub reg_edi : ℕ
  pub reg_esi : ℕ
  pub reg_ebp : ℕ
  pub reg_oesp : ℕ
  pub reg_ebx : ℕ
  pub reg_edx : ℕ
  pub reg_ecx : ℕ
  pub reg_eax : ℕ

pub record Trapframe : Type 0 where
  pub tf_regs : PushRegs
  pub tf_es : ℕ
  pub tf_ds : ℕ
  pub tf_trapno : ℕ
  pub tf_err : ℕ
  pub tf_eip : ℕ
  pub tf_cs : ℕ
  pub tf_eflags : ℕ
  pub tf_esp : ℕ
  pub tf_ss : ℕ

-- `struct Env`; an identifier is the bit pattern of an `int32_t`, and `env_pgdir` is the frame of
-- the page directory.
pub record Env : Type 0 where
  pub env_tf : Trapframe
  pub env_link : Option ℕ
  pub env_id : ℕ
  pub env_parent_id : ℕ
  pub env_type : EnvType
  pub env_status : Status
  pub env_runs : ℕ
  pub env_pgdir : Option ℕ
  pub env_pgfault_upcall : ℕ
  pub env_ipc_recving : Bool
  pub env_ipc_dstva : ℕ
  pub env_ipc_value : ℕ
  pub env_ipc_from : ℕ
  pub env_ipc_perm : ℕ

-- the globals of the kernel
pub record Kernel : Type 0 where
  pub phys : Phys
  pub envs : ℕ → Env
  pub curenv : Option ℕ
  pub env_free_list : Option ℕ
  pub kern_pgdir : ℕ

pub data Result (A : Type 0) : Type 0 where
  ok : A → Result A
  err : Error → Result A

-- A kernel function: a result and the new state, or `none` for a panic.
abbrev pub K : Type 0 → Type 0
K A = Kernel → Option (Result A × Kernel)

abbrev pub set_env : Kernel → ℕ → Env → Kernel
set_env s i e = record s { envs = update s.envs i e }

abbrev pub is_free : Status → Bool
is_free free = true
is_free _ = false

abbrev pub is_runnable : Status → Bool
is_runnable runnable = true
is_runnable _ = false

abbrev pub is_running : Status → Bool
is_running running = true
is_running _ = false

abbrev pub is_dying : Status → Bool
is_dying dying = true
is_dying _ = false

-- `p == q` for a pointer that may be NULL and one that is not
abbrev pub points_to : Option ℕ → ℕ → Bool
points_to none i = false
points_to (some j) i = j == i

-- the `env_id` of `curenv`; a NULL `curenv` is not dereferenced where this is used
abbrev pub cur_id : Kernel → Option ℕ → ℕ
cur_id s none = 0
cur_id s (some c) = (s.envs c).env_id

-- The permission test of `envid2env`, for a `curenv` that is not NULL.
abbrev pub may_change : Kernel → ℕ → Bool
may_change s i = points_to s.curenv i || ((s.envs i).env_parent_id == cur_id s s.curenv)

-- `envid2env`: the environment, or -E_BAD_ENV. With `envid` 0 it is `curenv`.
unfoldable pub envid2env : (envid : ℕ) → (checkperm : Bool) → Kernel → Result (Option ℕ)
envid2env envid checkperm s =
    if envid == 0
    then ok s.curenv
    else if is_free (s.envs (envx envid)).env_status || not ((s.envs (envx envid)).env_id == envid)
    then err bad_env
    else if checkperm && not (may_change s (envx envid))
    then err bad_env
    else ok (some (envx envid))

-- one round of the loop of `env_init`
pub init_env : ℕ → Env → Env
init_env i e = record e { env_link = some ((i + 1) % nenv); env_id = 0; env_status = free }

-- the rounds `i`, `i + 1`, ... of that loop, `n` of them
pub init_envs : (n i : ℕ) → (ℕ → Env) → ℕ → Env
unfolding init_env
init_envs zero i envs = envs
init_envs (suc n) i envs = init_envs n (i + 1) (update envs i (init_env i (envs i)))

-- `env_init`, without the segment registers of `env_init_percpu`
unfoldable pub env_init : Kernel → Kernel
env_init s = record s { envs = init_envs nenv 0 s.envs; env_free_list = some 0 }

-- `ENVGENSHIFT`
abbrev pub env_gen_shift : ℕ
env_gen_shift = 12

-- `(e->env_id + (1 << ENVGENSHIFT)) & ~(NENV - 1)` on 32-bit words
abbrev pub raw_generation : ℕ → ℕ
raw_generation id = (id + 2 ^ env_gen_shift) % 2 ^ 32 / 2 ^ 10 * 2 ^ 10

-- the generation, which must be positive as an `int32_t`
abbrev pub generation : ℕ → ℕ
generation id =
    if (raw_generation id == 0) || leb (2 ^ 31) (raw_generation id)
    then 2 ^ env_gen_shift
    else raw_generation id

-- `generation | (e - envs)`
unfoldable pub next_id : (old_id i : ℕ) → ℕ
next_id old_id i = bit_or (generation old_id) i

-- `memset(&e->env_tf, 0, sizeof(e->env_tf))` and the initial segments, stack and flags
abbrev zero_regs : PushRegs
zero_regs = record {
  reg_edi = 0;
  reg_esi = 0;
  reg_ebp = 0;
  reg_oesp = 0;
  reg_ebx = 0;
  reg_edx = 0;
  reg_ecx = 0;
  reg_eax = 0;
}

-- `USTACKTOP`, the selectors `GD_UD | 3` and `GD_UT | 3`, and `FL_IF`
abbrev pub user_frame : Trapframe
user_frame = record {
  tf_regs = zero_regs;
  tf_es = 0x23;
  tf_ds = 0x23;
  tf_trapno = 0;
  tf_err = 0;
  tf_eip = 0;
  tf_cs = 0x1b;
  tf_eflags = 0x200;
  tf_esp = 0xee7f_e000;
  tf_ss = 0x23;
}

-- `UVPT`
abbrev pub uvpt : ℕ
uvpt = 0xef40_0000

-- `env_setup_vm` for the page that `page_alloc` gave: the directory starts as a copy of the
-- kernel's, with itself at `UVPT` (`| PTE_P | PTE_U`).
setup_dir : (i p : ℕ) → Kernel → Kernel
setup_dir i p s = record s {
  phys =
      set_word
        (record (add_ref p s.phys) { words = update s.phys.words p (s.phys.words s.kern_pgdir) }) p
        (pdx uvpt) (bit_or (page2pa p) 5);
  envs = update s.envs i (record (s.envs i) { env_pgdir = some p });
}

-- the fields that `env_alloc` sets in the environment at `i`
fresh_env : (i parent_id : ℕ) → Env → Env
unfolding next_id
fresh_env i parent_id e = record e {
  env_id = next_id e.env_id i;
  env_parent_id = parent_id;
  env_type = user;
  env_status = runnable;
  env_runs = 0;
  env_tf = user_frame;
  env_pgfault_upcall = 0;
  env_ipc_recving = false;
}

-- the rest of `env_alloc` after a successful `env_setup_vm`
commit : (i parent_id : ℕ) → Kernel → Kernel
unfolding fresh_env
commit i parent_id s = record s {
  envs = update s.envs i (fresh_env i parent_id (s.envs i));
  env_free_list = (s.envs i).env_link;
}

-- `env_alloc` for the head of the free list and what `page_alloc` returns
alloc_env : (i parent_id : ℕ) → Kernel → Option (Option ℕ × Phys) → Option (Result ℕ × Kernel)
unfolding setup_dir commit
alloc_env i parent_id s none = none
alloc_env i parent_id s (some (none, m)) = some (err no_mem, record s { phys = m })
alloc_env i parent_id s (some (some p, m)) =
    some (ok i, commit i parent_id (setup_dir i p (record s { phys = m })))

alloc_from_list : (parent_id : ℕ) → Option ℕ → K ℕ
unfolding alloc_env
alloc_from_list parent_id none s = some (err no_free_env, s)
alloc_from_list parent_id (some i) s = alloc_env i parent_id s (page_alloc true s.phys)

-- `env_alloc`
unfoldable pub env_alloc : (parent_id : ℕ) → K ℕ
unfolding alloc_from_list
env_alloc parent_id s = alloc_from_list parent_id s.env_free_list s
