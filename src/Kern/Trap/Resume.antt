-- ===== src/Kern/Trap/Resume.antt =====
-- Traps after which the environment goes on: how they come back, and a system call that returns.
use oscourse.Base.{ℕ, ◌≡◌, refl, ap, ◌∙◌, true, false, some, arith, update}
use oscourse.Kern.Env.{Kernel, Trapframe, Result, is_running, is_dying}
use oscourse.Kern.Sched.{run, env_run}
use oscourse.Kern.Sched.Again.{IsCurrent, GoesOn, env_run-GoesOn, env_run-run}
use oscourse.Kern.Ipc.{returned}
use oscourse.Kern.Trap.{
  Inputs, syscall, result_word, set_eax, answered, trap_dispatch, resume, after_dispatch, trap_in,
  trap, saved,
}

saved-frame : (c : ℕ) (tf : Trapframe) (s : Kernel) → ((saved c tf s).envs c).env_tf ≡ tf
unfolding update
saved-frame c tf s = ground arith

-- A trap of the current environment is the dispatch of its frame.
pub trap-dispatch :
    (io : Inputs) (tf : Trapframe) (s : Kernel) (c : ℕ)
    → IsCurrent s c
    → trap io tf s ≡ after_dispatch (trap_dispatch io c tf (saved c tf s))
unfolding trap trap_in
trap-dispatch io tf s c h =
    let t = saved c tf s in
    let alive : is_dying (s.envs c).env_status ≡ false = ap is_dying h.runs in
    ap (λ o. trap_in io o tf s) h.at
    ∙ rw alive (ap (λ f. after_dispatch (trap_dispatch io c f t)) (saved-frame c tf s))

-- a system call
trap_dispatch-syscall :
    (io : Inputs) (c : ℕ) (tf : Trapframe) (s : Kernel)
    → tf.tf_trapno ≡ 48
    → let r = tf.tf_regs in
      trap_dispatch io c tf s
      ≡ answered c (syscall io r.reg_eax r.reg_edx r.reg_ecx r.reg_ebx r.reg_edi r.reg_esi s)
unfolding trap_dispatch
trap_dispatch-syscall io c tf s h = rw h refl

-- the current environment goes on
resume-GoesOn :
    (c : ℕ) (s : Kernel)
    → IsCurrent s c
    → (s' : Kernel) × (resume s.curenv s ≡ some (run c, s')) × GoesOn c s s'
unfolding resume
resume-GoesOn c s h =
    let alive : is_running (s.envs c).env_status ≡ true = ap is_running h.runs in
    (
      (env_run c s).1,
      ap (λ o. resume o s) h.at ∙ rw alive (ap some (env_run-run c s)),
      env_run-GoesOn c s h,
    )

set_eax-IsCurrent : (c v : ℕ) (s : Kernel) → IsCurrent s c → IsCurrent (set_eax c v s) c
unfolding set_eax update
set_eax-IsCurrent c v s h = record { at = h.at; runs = ground (arith, h.runs) }

set_eax-eax : (c v : ℕ) (s : Kernel) → ((set_eax c v s).envs c).env_tf.tf_regs.reg_eax ≡ v
unfolding set_eax update
set_eax-eax c v s = ground arith

-- If a system call of the current environment returns, and the environment still runs, then it goes
-- on with the result in EAX.
pub trap-syscall :
    (io : Inputs) (tf : Trapframe) (s t : Kernel) (c : ℕ) (r : Result ℕ)
    → IsCurrent s c
    → tf.tf_trapno ≡ 48
    → syscall io tf.tf_regs.reg_eax tf.tf_regs.reg_edx tf.tf_regs.reg_ecx tf.tf_regs.reg_ebx
        tf.tf_regs.reg_edi tf.tf_regs.reg_esi
        (saved c tf s)
      ≡ some (returned r, t)
    → IsCurrent t c
    → (s' : Kernel) × (trap io tf s ≡ some (run c, s'))
      × GoesOn c (set_eax c (result_word r) t) s'
      × ((s'.envs c).env_tf.tf_regs.reg_eax ≡ result_word r)
unfolding after_dispatch answered
trap-syscall io tf s t c r h n call k =
    let u = set_eax c (result_word r) t in
    let go = resume-GoesOn c u (set_eax-IsCurrent c (result_word r) t k) in
    (
      go.0,
      trap-dispatch io tf s c h
          ∙ ap after_dispatch
              (trap_dispatch-syscall io c tf (saved c tf s) n ∙ ap (answered c) call)
          ∙ go.1,
      go.2,
      ap (λ (f : Trapframe). f.tf_regs.reg_eax) go.2.frame ∙ set_eax-eax c (result_word r) t,
    )
