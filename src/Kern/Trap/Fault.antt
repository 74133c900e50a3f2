-- ===== src/Kern/Trap/Fault.antt =====
-- kern/trap.c: a page fault of an environment that has an upcall and an exception stack.
use oscourse.Base.{
  ℕ, ◌+◌, ◌-◌, ◌/◌, ◌%◌, ◌^◌, ◌≤◌, ◌≡◌, refl, sym, ap, subst, ◌∙◌, false, ◌&&◌, none, some, List,
  length, get_or, leb, ltb, ◌==◌, if◌then◌else◌, arith, update,
}
use oscourse.Kern.Pmap.{Phys}
use oscourse.Kern.Paging.{pgoff}
use oscourse.Kern.Env.{Kernel, Trapframe}
use oscourse.Kern.UserMem.{user_mem_check}
use oscourse.Kern.Sched.{run, env_run}
use oscourse.Kern.Sched.Again.{IsCurrent, GoesOn, env_run-GoesOn, env_run-run}
use oscourse.Kern.Destroy.{dispatched, user_mem_assert}
use oscourse.Kern.Destroy.Assert.{user_mem_assert-passed}
use oscourse.Kern.Trap.Frame.{uxstacktop, utf_size, utf_addr, utf_words, store_frame}
use oscourse.Kern.Trap.Frame.Stored.{
  IsWritable, stored, store_words-stored, stored-words, stored-pages, stored-page_free_list,
}
use oscourse.Kern.Trap.{
  Inputs, run_upcall, enter_upcall, page_fault_handler, trap_dispatch, after_dispatch, trap, saved,
}
use oscourse.Kern.Trap.Resume.{trap-dispatch}

-- a page fault outside of the kernel, with an upcall
trap_dispatch-fault :
    (io : Inputs) (c : ℕ) (tf : Trapframe) (s : Kernel)
    → tf.tf_trapno ≡ 14
    → (tf.tf_cs == 8) ≡ false
    → ((s.envs c).env_pgfault_upcall == 0) ≡ false
    → trap_dispatch io c tf s
      ≡ enter_upcall c
          (utf_addr tf.tf_esp)
          (utf_words io.cr2 tf)
          (user_mem_assert c (utf_addr tf.tf_esp) utf_size 2 s)
unfolding trap_dispatch page_fault_handler
trap_dispatch-fault io c tf s h user upcall = rw h (rw (user, upcall) refl)

-- The frame lies within the page of the exception stack or below it, and leaves a word free under
-- the stack that the fault came from.
utf_addr-Below :
    (esp : ℕ)
    → (uxstacktop - 2 ^ 12 ≤ utf_addr esp + utf_size + 4)
      × (utf_addr esp + utf_size ≤ uxstacktop)
      × ((leb (uxstacktop - 2 ^ 12) esp
            && ltb esp uxstacktop
            && ltb esp (utf_addr esp + utf_size + 4))
          ≡ false)
unfolding utf_addr
utf_addr-Below esp = ground arith

utf_addr-aligned : (esp : ℕ) → esp % 4 ≡ 0 → utf_addr esp % 4 ≡ 0
unfolding utf_addr
utf_addr-aligned esp h = ground (arith, h)

-- In frame `f` the words of `utf` stand from index `i` on; no other word of memory changes, and the
-- pages stay as they are.
pub record HasFrame (f i : ℕ) (utf : List ℕ) (m m' : Phys) : Type 0 where
  pub words :
      (g k : ℕ)
      → m'.words g k ≡ (
          if (g == f) && (leb i k && ltb k (i + length utf))
          then get_or utf (k - i) 0
          else m.words g k)
  pub pages : m'.pages ≡ m.pages
  pub page_free_list : m'.page_free_list ≡ m.page_free_list

-- the environment enters its upcall, with the stack at `addr`
pub record Entered (c addr : ℕ) (s s' : Kernel) : Type 0 where
  pub current : IsCurrent s' c
  pub eip : (s'.envs c).env_tf.tf_eip ≡ (s.envs c).env_pgfault_upcall
  pub esp : (s'.envs c).env_tf.tf_esp ≡ addr
  pub others : (j : ℕ) → (if j == c then s.envs j else s'.envs j) ≡ s.envs j

stored-HasFrame : (utf : List ℕ) (f i : ℕ) (m : Phys) → HasFrame f i utf m (stored f i utf m)
stored-HasFrame utf f i m = record {
  words = λ g k. stored-words utf m f i g k;
  pages = stored-pages utf m f i;
  page_free_list = stored-page_free_list utf m f i;
}

-- the state in which the handler calls `env_run`
abbrev at_upcall : (c addr : ℕ) → Phys → Kernel → Kernel
at_upcall c addr m s =
    let e = s.envs c in
    saved c (record e.env_tf { tf_eip = e.env_pgfault_upcall; tf_esp = addr })
      (record s { phys = m })

enter_upcall-run :
    (c addr : ℕ) (utf : List ℕ) (m : Phys) (s : Kernel)
    → store_frame (s.envs c).env_pgdir addr utf s.phys ≡ some m
    → after_dispatch (enter_upcall c addr utf (some (none, s)))
      ≡ some (run c, (env_run c (at_upcall c addr m s)).1)
unfolding after_dispatch enter_upcall run_upcall dispatched
enter_upcall-run c addr utf m s h =
    ap (λ o. after_dispatch (run_upcall c addr s o)) h
    ∙ ap (λ r. after_dispatch (dispatched (some r))) (env_run-run c (at_upcall c addr m s))

at_upcall-Entered :
    (c addr : ℕ) (m : Phys) (tf : Trapframe) (s s' : Kernel)
    → IsCurrent s c
    → GoesOn c (at_upcall c addr m (saved c tf s)) s'
    → Entered c addr s s'
unfolding update
at_upcall-Entered c addr m tf s s' h g = record {
  current = g.current;
  eip = ap (λ (f : Trapframe). f.tf_eip) g.frame ∙ ground arith;
  esp = ap (λ (f : Trapframe). f.tf_esp) g.frame ∙ ground arith;
  others = λ j. ground (arith, g.others j);
}

at_upcall-IsCurrent :
    (c addr : ℕ) (m : Phys) (tf : Trapframe) (s : Kernel)
    → IsCurrent s c
    → IsCurrent (at_upcall c addr m (saved c tf s)) c
unfolding update
at_upcall-IsCurrent c addr m tf s h = record { at = h.at; runs = ground (arith, h.runs) }

-- The words of the frame fit the page of the exception stack, if the frame begins there.
store_frame-fits :
    (m : Phys) (pd f fault_va : ℕ) (tf : Trapframe)
    → tf.tf_esp % 4 ≡ 0
    → uxstacktop - 2 ^ 12 ≤ utf_addr tf.tf_esp
    → IsWritable m pd (uxstacktop - 2 ^ 12) f
    → store_frame (some pd) (utf_addr tf.tf_esp) (utf_words fault_va tf) m
      ≡ some (stored f (pgoff (utf_addr tf.tf_esp) / 4) (utf_words fault_va tf) m)
unfolding store_frame
store_frame-fits m pd f fault_va tf aligned fits w =
    store_words-stored (utf_words fault_va tf) m pd (uxstacktop - 2 ^ 12) (utf_addr tf.tf_esp) f w
      (omega arith) (omega (arith, (utf_addr-Below tf.tf_esp).1))
      (utf_addr-aligned tf.tf_esp aligned)

-- Take a page fault of the current environment, outside of the kernel, with an upcall. Let its stack
-- pointer be a multiple of 4, the frame begin in the page below UXSTACKTOP, `user_mem_check` allow a
-- write of it, and that page be mapped writable in frame `f`, which holds neither the directory nor
-- the table. Then the environment goes on in the upcall, with its stack pointer at a `struct
-- UTrapframe` that has the faulting address and the error code, the registers, the instruction
-- pointer, the flags and the stack pointer of the fault. No other word of memory and no other
-- environment changes. The frame lies below the top of the exception stack and, if the fault came
-- from there, leaves a word free below the place it came from.
pub trap-fault :
    (io : Inputs) (tf : Trapframe) (s : Kernel) (c pd f : ℕ)
    → IsCurrent s c
    → tf.tf_trapno ≡ 14
    → (tf.tf_cs == 8) ≡ false
    → ((s.envs c).env_pgfault_upcall == 0) ≡ false
    → (s.envs c).env_pgdir ≡ some pd
    → user_mem_check pd (utf_addr tf.tf_esp) utf_size 6 s.phys ≡ some none
    → tf.tf_esp % 4 ≡ 0
    → uxstacktop - 2 ^ 12 ≤ utf_addr tf.tf_esp
    → IsWritable s.phys pd (uxstacktop - 2 ^ 12) f
    → let addr = utf_addr tf.tf_esp in
      (s' : Kernel) × (trap io tf s ≡ some (run c, s'))
      × Entered c addr s s'
      × HasFrame f (pgoff addr / 4) (utf_words io.cr2 tf) s.phys s'.phys
      × (addr + utf_size ≤ uxstacktop)
      × ((leb (uxstacktop - 2 ^ 12) tf.tf_esp
            && ltb tf.tf_esp uxstacktop
            && ltb tf.tf_esp (addr + utf_size + 4))
          ≡ false)
unfolding update after_dispatch
trap-fault io tf s c pd f h n user upcall d check aligned fits w =
    let addr = utf_addr tf.tf_esp in
    let utf = utf_words io.cr2 tf in
    let t = saved c tf s in
    let m = stored f (pgoff addr / 4) utf s.phys in
    let called : ((t.envs c).env_pgfault_upcall == 0) ≡ false = ground (arith, upcall) in
    let dir : (t.envs c).env_pgdir ≡ some pd = ground (arith, d) in
    let below = utf_addr-Below tf.tf_esp in
    let go = env_run-GoesOn c (at_upcall c addr m t) (at_upcall-IsCurrent c addr m tf s h) in
    (
      (env_run c (at_upcall c addr m t)).1,
      trap-dispatch io tf s c h
          ∙ ap after_dispatch (
              trap_dispatch-fault io c tf t n user called
              ∙ ap (enter_upcall c addr utf)
                  (user_mem_assert-passed c addr utf_size 2 pd t dir check))
          ∙ enter_upcall-run c addr utf m t (
              ap (λ o. store_frame o addr utf s.phys) dir
              ∙ store_frame-fits s.phys pd f io.cr2 tf aligned fits w),
      at_upcall-Entered c addr m tf s _ h go,
      subst (HasFrame f (pgoff addr / 4) utf s.phys) (sym go.memory)
          (stored-HasFrame utf f (pgoff addr / 4) s.phys),
      below.1,
      below.2,
    )
