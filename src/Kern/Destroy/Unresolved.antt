-- ===== src/Kern/Destroy/Unresolved.antt =====
-- The calls on an environment whose identifier does not resolve for the caller.
use oscourse.Base.{ℕ, ◌≡◌, ap, some, true}
use oscourse.Kern.Env.{Kernel, Trapframe, Error, err, bad_env, envid2env}
use oscourse.Kern.Ipc.{returned}
use oscourse.Kern.Destroy.{destroy_found, frame_found, sys_env_destroy, sys_env_set_trapframe}

module _ (s : Kernel) (envid : ℕ) (e : Error) (h : envid2env envid true s ≡ err e) where
  pub sys_env_destroy-unresolved : sys_env_destroy envid s ≡ some (returned (err e), s)
  unfolding sys_env_destroy destroy_found
  sys_env_destroy-unresolved = ap (λ r. destroy_found r s) h

  pub sys_env_set_trapframe-unresolved :
      (va : ℕ) (tf : Trapframe)
      → sys_env_set_trapframe envid va tf s ≡ some (returned (err bad_env), s)
  unfolding sys_env_set_trapframe frame_found
  sys_env_set_trapframe-unresolved va tf = ap (λ r. frame_found va tf r s) h
