-- ===== src/Kern/Ipc/Send.antt =====
-- What `sys_ipc_try_send` delivers.
use oscourse.Base.{
  ℕ, ◌<◌, ◌≡◌, refl, ap, ◌∙◌, true, false, none, some, List, arith, update, lt→ltb, ◌==◌,
  if◌then◌else◌,
}
use oscourse.Kern.Pmap.{Phys}
use oscourse.Kern.Pmap.FreeList.{IsFreeList}
use oscourse.Kern.Paging.{ptx}
use oscourse.Kern.Paging.Insert.{CanRefer, Inserted}
use oscourse.Kern.Env.{Kernel, ok, runnable, envid2env}
use oscourse.Kern.Syscall.{utop, good_perm, on_env, exceeds, after_insert, insert_in}
use oscourse.Kern.Syscall.Maps.{IsVacant, IsShown, lookup_in-IsShown, insert_in-IsVacant}
use oscourse.Kern.Ipc.{deliver, send_from, send_found, sys_ipc_try_send, rejects_srcva}

-- The receiver `i` after a message from `c`; nothing else of the table changes.
pub record Received (s s' : Kernel) (c i value perm : ℕ) : Type 0 where
  pub awake : (s'.envs i).env_status ≡ runnable
  pub closed : (s'.envs i).env_ipc_recving ≡ false
  pub sender : (s'.envs i).env_ipc_from ≡ (s.envs c).env_id
  pub content : (s'.envs i).env_ipc_value ≡ value
  pub granted : (s'.envs i).env_ipc_perm ≡ perm
  pub others : (j : ℕ) → s'.envs j ≡ (if j == i then s'.envs i else s.envs j)

deliver-Received :
    (s : Kernel) (m : Phys) (c i value perm : ℕ)
    → Received s (deliver c i value perm (record s { phys = m })) c i value perm
unfolding deliver update
deliver-Received s m c i value perm = record {
  awake = ground arith;
  closed = ground arith;
  sender = ground arith;
  content = ground arith;
  granted = ground arith;
  others = λ j. ground arith;
}

deliver-phys : (s : Kernel) (c i value perm : ℕ) → (deliver c i value perm s).phys ≡ s.phys
unfolding deliver
deliver-phys s c i value perm = refl

-- `i` waits for a message, and `envid` names it.
pub record IsWaiting (s : Kernel) (envid c i : ℕ) : Type 0 where
  pub found : envid2env envid false s ≡ ok (some i)
  pub from : s.curenv ≡ some c
  pub waits : (s.envs i).env_ipc_recving ≡ true

to_send_from :
    (s : Kernel) (envid value srcva perm c i : ℕ)
    → IsWaiting s envid c i
    → sys_ipc_try_send envid value srcva perm s ≡ send_from i value srcva perm (some c) s
unfolding sys_ipc_try_send
to_send_from s envid value srcva perm c i w =
    ap (on_env s (λ i. send_from i value srcva perm s.curenv s)) w.found
    ∙ ap (λ o. send_from i value srcva perm o s) w.from

send_from-page :
    (s : Kernel) (value srcva perm c i pd f pg : ℕ)
    → (s.envs i).env_ipc_recving ≡ true
    → srcva < utop
    → rejects_srcva srcva ≡ false
    → good_perm perm ≡ true
    → IsShown s.phys (s.envs c).env_pgdir pd srcva f pg
    → exceeds s perm (f, ptx srcva) ≡ false
    → (s.envs i).env_ipc_dstva < utop
    → send_from i value srcva perm (some c) s
      ≡ after_insert s
          (deliver c i value perm)
          (insert_in (s.envs i).env_pgdir pg (s.envs i).env_ipc_dstva perm s.phys)
unfolding send_from send_found
send_from-page s value srcva perm c i pd f pg waits low even good shown fits wants =
    rw (waits, lt→ltb srcva utop low, even, good)
      (ap (send_found c i value perm s)
          (lookup_in-IsShown s.phys (s.envs c).env_pgdir pd srcva f pg shown)
        ∙ rw (fits, lt→ltb (s.envs i).env_ipc_dstva utop wants) refl)

-- Let `envid` name an environment `i` that waits for a page at an address below UTOP that its present
-- table does not map, the sender `c` map a page at an even `srcva` below UTOP, the permissions be
-- accepted and not exceed those of that mapping, the free list be well formed, and the page not be on
-- it and have room for another reference. Then `sys_ipc_try_send` succeeds: a lookup in the receiver finds that page, which
-- has one reference more, and the receiver is runnable with the sender's value and identifier. An
-- even `srcva` need not be page-aligned.
pub sys_ipc_try_send-Delivered :
    (s : Kernel) (envid value srcva perm c i pd f pg pd' f' : ℕ) (xs : List ℕ)
    → IsWaiting s envid c i
    → srcva < utop
    → rejects_srcva srcva ≡ false
    → good_perm perm ≡ true
    → IsShown s.phys (s.envs c).env_pgdir pd srcva f pg
    → exceeds s perm (f, ptx srcva) ≡ false
    → (s.envs i).env_ipc_dstva < utop
    → IsVacant s.phys (s.envs i).env_pgdir pd' (s.envs i).env_ipc_dstva f'
    → IsFreeList s.phys xs
    → CanRefer s.phys xs pg
    → (s' : Kernel) × (sys_ipc_try_send envid value srcva perm s ≡ some (ok 0, s'))
      × Inserted s.phys s'.phys pd' pg (s.envs i).env_ipc_dstva perm f' none
      × Received s s' c i value perm
unfolding deliver
sys_ipc_try_send-Delivered s envid value srcva perm c i pd f pg pd' f' xs w low even good shown fits
      wants vacant free can =
    let r =
      insert_in-IsVacant s.phys (s.envs i).env_pgdir pd' pg (s.envs i).env_ipc_dstva perm f' xs
        vacant good free can in
    (
      deliver c i value perm (record s { phys = r.0 }),
      to_send_from s envid value srcva perm c i w
          ∙ send_from-page s value srcva perm c i pd f pg w.waits low even good shown fits wants
          ∙ ap (after_insert s (deliver c i value perm)) r.1,
      r.2,
      deliver-Received s r.0 c i value perm,
    )
