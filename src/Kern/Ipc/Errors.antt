-- ===== src/Kern/Ipc/Errors.antt =====
-- A message that is not sent leaves the kernel as it was.
use oscourse.Base.{
  ℕ, ◌≡◌, refl, sym, ◌∙◌, inl, inr, false, not, ◌||◌, Option, none, some, arith, Bool-cases, ltb,
}
use oscourse.Kern.Pmap.{Phys}
use oscourse.Kern.Paging.{Slot}
use oscourse.Kern.Env.{Kernel, Error, err, envid2env}
use oscourse.Kern.Syscall.{utop, good_perm, insert_in, lookup_in, exceeds}
use oscourse.Kern.Syscall.Errors.{insert_in-false, lookup_in-keeps, on_env-err, after_insert-err}
use oscourse.Kern.Ipc.{deliver, send_found, send_from, rejects_srcva, sys_ipc_try_send}

send_found-err :
    (c i value perm : ℕ) (s t : Kernel) (r : Option (Option (ℕ × Slot) × Phys)) (e : Error)
    → ((o : Option (ℕ × Slot)) (m : Phys) → r ≡ some (o, m) → m ≡ s.phys)
    → send_found c i value perm s r ≡ some (err e, t)
    → t ≡ s
unfolding send_found
send_found-err c i value perm s t none e g h = ground arith
send_found-err c i value perm s t (some (none, m)) e g h = ground arith
send_found-err c i value perm s t (some (some (pg, slot), m)) e g h =
    elim (Bool-cases (exceeds s perm slot)) [
      | inl x ↦ ground (arith, x)
      | inr x ↦ elim (Bool-cases (ltb (s.envs i).env_ipc_dstva utop)) [
        | inl y ↦
            after_insert-err s t (deliver c i value perm)
              (insert_in (s.envs i).env_pgdir pg (s.envs i).env_ipc_dstva perm m) e
              (λ m' q.
                insert_in-false (s.envs i).env_pgdir pg (s.envs i).env_ipc_dstva perm m m' q
                ∙ g (some (pg, slot)) m refl)
              (sym (rw (x, y) refl) ∙ h)
        | inr y ↦ ground (arith, x, y)
      ]
    ]

send_from-err :
    (i value srcva perm : ℕ) (c : Option ℕ) (s t : Kernel) (e : Error)
    → send_from i value srcva perm c s ≡ some (err e, t)
    → t ≡ s
unfolding send_from
send_from-err i value srcva perm none s t e h = ground arith
send_from-err i value srcva perm (some c) s t e h = elim (Bool-cases (s.envs i).env_ipc_recving) [
  | inr x ↦ ground (arith, x)
  | inl x ↦ elim (Bool-cases (ltb srcva utop)) [
    | inr y ↦ ground (arith, x, y)
    | inl y ↦ elim (Bool-cases (rejects_srcva srcva || not (good_perm perm))) [
      | inl z ↦ ground (arith, x, y, z)
      | inr z ↦
          send_found-err c i value perm s t (lookup_in (s.envs c).env_pgdir srcva s.phys) e
            (λ o m. lookup_in-keeps (s.envs c).env_pgdir srcva s.phys m o)
            (sym (rw (x, y, z) refl) ∙ h)
    ]
  ]
]

-- Whenever `sys_ipc_try_send` returns an error, the kernel's state is what it was.
pub sys_ipc_try_send-err :
    (s t : Kernel) (envid value srcva perm : ℕ) (e : Error)
    → sys_ipc_try_send envid value srcva perm s ≡ some (err e, t)
    → t ≡ s
unfolding sys_ipc_try_send
sys_ipc_try_send-err s t envid value srcva perm e h =
    on_env-err s t (λ i. send_from i value srcva perm s.curenv s) (envid2env envid false s) e
      (λ i. send_from-err i value srcva perm s.curenv s t e) h
