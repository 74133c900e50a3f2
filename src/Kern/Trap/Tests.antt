-- ===== src/Kern/Trap/Tests.antt =====
-- Traps of an environment that may write to its exception stack.
use oscourse.Base.{
  ◌+◌, arith, update, ◌-◌, ◌/◌, ◌^◌, ◌≤◌, ◌≡◌, refl, false, ◌&&◌, none, some, ltb, leb, ◌==◌,
  if◌then◌else◌,
}
use oscourse.Base.Bits.{test_bit}
use oscourse.Kern.Pmap.{Phys}
use oscourse.Kern.Paging.{pgdir_walk, pgoff}
use oscourse.Kern.UserMem.{user_mem_check, allows}
use oscourse.Kern.Env.{Kernel, Env, Trapframe, ok, user, user_frame, running}
use oscourse.Kern.Sched.{run}
use oscourse.Kern.Sched.Again.{IsCurrent, GoesOn}
use oscourse.Kern.Trap.Frame.{utf_addr, utf_size, uxstacktop, utf_words}
use oscourse.Kern.Trap.Frame.Stored.{IsWritable}
use oscourse.Kern.Trap.{Inputs, trap, saved, set_eax, result_word, syscall}
use oscourse.Kern.Trap.Resume.{trap-syscall}
use oscourse.Kern.Trap.Foreign.{IsForeign, Rejected, syscall-IsForeign}
use oscourse.Kern.Trap.Fault.{HasFrame, Entered, trap-fault}

abbrev memory : Phys
memory = record {
  npages = 16;
  pages = λ i. record { pp_link = none; pp_ref = 1 };
  page_free_list = none;
  words = λ f i.
      if (f == 1) && (i == 953) then 0x2007 else if (f == 2) && (i == 1023) then 0x4007 else 0;
}

abbrev entry : Env
entry = record {
  env_tf = user_frame;
  env_link = none;
  env_id = 0x1000;
  env_parent_id = 0;
  env_type = user;
  env_status = running;
  env_runs = 1;
  env_pgdir = some 1;
  env_pgfault_upcall = 0x80_0020;
  env_ipc_recving = false;
  env_ipc_dstva = 0;
  env_ipc_value = 0;
  env_ipc_from = 0;
  env_ipc_perm = 0;
}

abbrev kernel : Kernel
kernel = record {
  phys = memory;
  envs = λ i. entry;
  curenv = some 0;
  env_free_list = none;
  kern_pgdir = 3;
}

abbrev io : Inputs
io = record { char_waiting = 0; now = 1512468900; cr2 = 0x80_1000; frame_at = λ a. user_frame }

-- `sys_getenvid`, and a fault on the normal stack
abbrev call_frame : Trapframe
call_frame = record user_frame {
  tf_trapno = 48;
  tf_regs = record user_frame.tf_regs { reg_eax = 2 };
}

abbrev fault_frame : Trapframe
fault_frame = record user_frame { tf_trapno = 14; tf_esp = 0xee7f_d000; tf_cs = 0x1b }

kernel-IsCurrent : IsCurrent kernel 0
kernel-IsCurrent = record { at = refl; runs = refl }

saved-IsCurrent : IsCurrent (saved 0 call_frame kernel) 0
unfolding update
saved-IsCurrent = record { at = refl; runs = refl }

trap-syscall_example :
    (s' : Kernel) × (trap io call_frame kernel ≡ some (run 0, s'))
    × GoesOn 0 (set_eax 0 (result_word (ok 0x1000)) (saved 0 call_frame kernel)) s'
    × ((s'.envs 0).env_tf.tf_regs.reg_eax ≡ result_word (ok 0x1000))
unfolding syscall update
trap-syscall_example =
    trap-syscall io call_frame kernel (saved 0 call_frame kernel) 0 (ok 0x1000) kernel-IsCurrent
      refl refl saved-IsCurrent

stack_writable : user_mem_check 1 (utf_addr 0xee7f_d000) utf_size 6 memory ≡ some none
unfolding user_mem_check allows utf_addr test_bit pgdir_walk
stack_writable = refl

stack-IsWritable : IsWritable memory 1 (uxstacktop - 2 ^ 12) 4
unfolding test_bit
stack-IsWritable = record {
  table = 2;
  frame = refl;
  directory_lets = refl;
  table_lets = refl;
  page = refl;
  no_directory = λ e. omega arith;
  no_table = λ e. omega arith;
}

frame_fits : uxstacktop - 2 ^ 12 ≤ utf_addr 0xee7f_d000
unfolding utf_addr
frame_fits = omega arith

trap-fault_example :
    (s' : Kernel) × (trap io fault_frame kernel ≡ some (run 0, s'))
    × Entered 0 (utf_addr 0xee7f_d000) kernel s'
    × HasFrame 4 (pgoff (utf_addr 0xee7f_d000) / 4) (utf_words 0x80_1000 fault_frame) memory s'.phys
    × (utf_addr 0xee7f_d000 + utf_size ≤ uxstacktop)
    × ((leb (uxstacktop - 2 ^ 12) 0xee7f_d000
          && ltb 0xee7f_d000 uxstacktop
          && ltb 0xee7f_d000 (utf_addr 0xee7f_d000 + utf_size + 4))
        ≡ false)
trap-fault_example =
    trap-fault io fault_frame kernel 0 1 4 kernel-IsCurrent refl refl refl refl stack_writable refl
      frame_fits stack-IsWritable

-- Environment 1 is another's child.
abbrev two : Kernel
two = record kernel {
  envs = λ i. if i == 1 then record entry { env_id = 0x2001; env_parent_id = 0x3002 } else entry;
}

other-IsForeign : IsForeign two 0 0x2001
other-IsForeign = record {
  caller = refl;
  nonzero = λ e. omega arith;
  apart = λ i e live. (λ z. ground (arith, e, z), λ z. ground (arith, e, z));
}

syscall-IsForeign_example :
    Rejected (syscall io 3 0x2001 0 0 0 0 two) two
    × Rejected (syscall io 4 0x2001 0 0 0 0 two) two
    × Rejected (syscall io 5 0x2001 0 0 0 0 two) two
    × Rejected (syscall io 5 0 0 0x2001 0 0 two) two
    × Rejected (syscall io 6 0x2001 0 0 0 0 two) two
    × Rejected (syscall io 8 0x2001 0 0 0 0 two) two
    × Rejected (syscall io 9 0x2001 0 0 0 0 two) two
    × Rejected (syscall io 10 0x2001 0 0 0 0 two) two
syscall-IsForeign_example = syscall-IsForeign io two 0 0x2001 0 0 0 0 0 other-IsForeign
