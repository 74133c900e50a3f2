-- ===== src/Kern/Trap/Foreign.antt =====
-- kern/syscall.c with envid2env of kern/env.c: system calls that name an environment which the caller
-- may not change.
use oscourse.Base.{
  ℕ, ◌≡◌, ◌≢◌, ◌⊎◌, refl, ap, ◌∙◌, inl, inr, true, false, not, ◌||◌, Option, some, ◌==◌, ==_iff,
  arith, Bool-cases,
}
use oscourse.Kern.Env.{Kernel, ok, err, bad_env, is_free, envx, may_change, envid2env}
use oscourse.Kern.Syscall.{
  on_env, sys_page_alloc, sys_page_map, sys_page_unmap, sys_env_set_status,
  sys_env_set_pgfault_upcall,
}
use oscourse.Kern.Ipc.{Outcome, returned}
use oscourse.Kern.Destroy.Unresolved.{sys_env_destroy-unresolved, sys_env_set_trapframe-unresolved}
use oscourse.Kern.Trap.{Inputs, returning, syscall}

-- No live environment with the identifier `envid` is the caller `c` or a child of it.
pub record IsForeign (s : Kernel) (c envid : ℕ) : Type 0 where
  pub caller : s.curenv ≡ some c
  pub nonzero : envid ≢ 0
  pub apart :
      (i : ℕ)
      → (s.envs i).env_id ≡ envid
      → is_free (s.envs i).env_status ≡ false
      → (c ≢ i) × ((s.envs i).env_parent_id ≢ (s.envs c).env_id)

-- The call reports -E_BAD_ENV and leaves the kernel as it was.
abbrev pub Rejected : Option (Outcome × Kernel) → Kernel → Type 0
Rejected r s = r ≡ some (returned (err bad_env), s)

may_change-IsForeign :
    (s : Kernel) (c i : ℕ)
    → s.curenv ≡ some c
    → c ≢ i
    → (s.envs i).env_parent_id ≢ (s.envs c).env_id
    → may_change s i ≡ false
may_change-IsForeign s c i at other parent = rw at (ground (arith, other, parent))

-- The identifier does not resolve.
pub envid2env-IsForeign :
    (s : Kernel) (c envid : ℕ) → IsForeign s c envid → envid2env envid true s ≡ err bad_env
unfolding envid2env
envid2env-IsForeign s c envid f = elim (Bool-cases (is_free (s.envs (envx envid)).env_status)) [
  | inl x ↦ ground (arith, x, f.nonzero)
  | inr x ↦ elim (Bool-cases ((s.envs (envx envid)).env_id == envid)) [
    | inr y ↦ ground (arith, x, y, f.nonzero)
    | inl y ↦
        let a = f.apart (envx envid) ((==_iff _ envid).0 y) x in
        let denied : may_change s (envx envid) ≡ false =
          may_change-IsForeign s c (envx envid) f.caller a.0 a.1 in
        ground (arith, x, y, denied, f.nonzero)
  ]
]

-- An identifier resolves to an environment or to nothing, never to NULL, while an environment runs.
envid2env-resolved :
    (s : Kernel) (c envid : ℕ)
    → s.curenv ≡ some c
    → (envid2env envid true s ≡ err bad_env) ⊎ ((i : ℕ) × (envid2env envid true s ≡ ok (some i)))
unfolding envid2env
envid2env-resolved s c envid at = elim (Bool-cases (envid == 0)) [
  | inl z ↦ inr (c, rw (z, at) refl)
  | inr z ↦
      let e = s.envs (envx envid) in
      elim (Bool-cases (is_free e.env_status || not (e.env_id == envid))) [
        | inl x ↦ inl (rw (z, x) refl)
        | inr x ↦ elim (Bool-cases (may_change s (envx envid))) [
          | inl y ↦ inr (envx envid, rw (z, x, y) refl)
          | inr y ↦ inl (rw (z, x, y) refl)
        ]
      ]
]

-- as a source of `sys_page_map`, whichever environment that is
sys_page_map-target :
    (s : Kernel) (c srcenvid srcva dstenvid dstva perm : ℕ)
    → s.curenv ≡ some c
    → envid2env dstenvid true s ≡ err bad_env
    → sys_page_map srcenvid srcva dstenvid dstva perm s ≡ some (err bad_env, s)
unfolding sys_page_map
sys_page_map-target s c srcenvid srcva dstenvid dstva perm at h =
    elim (envid2env-resolved s c srcenvid at) [
      | inl e ↦ ap (on_env s _) e
      | inr (i, e) ↦ ap (on_env s _) e ∙ ap (on_env s _) h
    ]

-- the calls that change the environment of their first argument
module _ (io : Inputs) (a1 a2 a3 a4 a5 : ℕ) (s : Kernel)
    (h : envid2env a1 true s ≡ err bad_env) where
  sys_page_alloc-Rejected : Rejected (syscall io 4 a1 a2 a3 a4 a5 s) s
  unfolding syscall sys_page_alloc
  sys_page_alloc-Rejected = rw h refl

  sys_page_map-Rejected : Rejected (syscall io 5 a1 a2 a3 a4 a5 s) s
  unfolding syscall sys_page_map
  sys_page_map-Rejected = rw h refl

  sys_page_unmap-Rejected : Rejected (syscall io 6 a1 a2 a3 a4 a5 s) s
  unfolding syscall sys_page_unmap
  sys_page_unmap-Rejected = rw h refl

  sys_env_set_status-Rejected : Rejected (syscall io 8 a1 a2 a3 a4 a5 s) s
  unfolding syscall sys_env_set_status
  sys_env_set_status-Rejected = rw h refl

  set_pgfault_upcall-Rejected : Rejected (syscall io 10 a1 a2 a3 a4 a5 s) s
  unfolding syscall sys_env_set_pgfault_upcall
  set_pgfault_upcall-Rejected = rw h refl

-- Let no live environment with the nonzero identifier `envid` be the caller or a child of the caller.
-- Then the system calls that destroy an environment, allocate, map or unmap its pages, or set its
-- status, its trap frame or its upcall report -E_BAD_ENV for `envid`, whatever their other arguments
-- are, and leave the kernel's state as it was; sys_page_map so for the source and for the target.
pub syscall-IsForeign :
    (io : Inputs) (s : Kernel) (c envid a1 a2 a3 a4 a5 : ℕ)
    → IsForeign s c envid
    → Rejected (syscall io 3 envid a2 a3 a4 a5 s) s
      × Rejected (syscall io 4 envid a2 a3 a4 a5 s) s
      × Rejected (syscall io 5 envid a2 a3 a4 a5 s) s
      × Rejected (syscall io 5 a1 a2 envid a4 a5 s) s
      × Rejected (syscall io 6 envid a2 a3 a4 a5 s) s
      × Rejected (syscall io 8 envid a2 a3 a4 a5 s) s
      × Rejected (syscall io 9 envid a2 a3 a4 a5 s) s
      × Rejected (syscall io 10 envid a2 a3 a4 a5 s) s
unfolding syscall
syscall-IsForeign io s c envid a1 a2 a3 a4 a5 f =
    let h = envid2env-IsForeign s c envid f in
    (
      sys_env_destroy-unresolved s envid bad_env h,
      sys_page_alloc-Rejected io envid a2 a3 a4 a5 s h,
      sys_page_map-Rejected io envid a2 a3 a4 a5 s h,
      ap returning (sys_page_map-target s c a1 a2 envid a4 a5 f.caller h),
      sys_page_unmap-Rejected io envid a2 a3 a4 a5 s h,
      sys_env_set_status-Rejected io envid a2 a3 a4 a5 s h,
      sys_env_set_trapframe-unresolved s envid bad_env h a2 (io.frame_at a2),
      set_pgfault_upcall-Rejected io envid a2 a3 a4 a5 s h,
    )
