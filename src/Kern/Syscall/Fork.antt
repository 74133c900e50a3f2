-- ===== src/Kern/Syscall/Fork.antt =====
-- `sys_exofork` and `sys_env_set_status`: the life of an environment under system calls.
use oscourse.Base.{
  ℕ, ◌^◌, ◌≤◌, ◌<◌, ◌≡◌, refl, ap, ◌∙◌, ◌≢◌, Bool, true, false, some, List, ◌∷◌, arith, update,
  update_self, ==_iff, ==_refl, ◌==◌, if◌then◌else◌,
}
use oscourse.Kern.Pmap.FreeList.{IsFreeList}
use oscourse.Kern.Env.{Kernel, Env, ok, err, free, not_runnable, bad_env, nenv, envid2env, set_env}
use oscourse.Kern.Env.Lookup.{Resolves, envid2env_sound, envid2env_complete}
use oscourse.Kern.Env.Alloc.{Started, env_alloc-Started}
use oscourse.Kern.Syscall.{
  on_env, settable, set_status, sys_env_set_status, forked, fork_from, sys_exofork,
}

-- What `sys_exofork` leaves in the child `i` of `c`: stopped, with the caller's registers but for
-- `eax`, and resolvable by the caller under the identifier that is returned.
pub record Forked (s s' : Kernel) (c i id : ℕ) : Type 0 where
  pub status : (s'.envs i).env_status ≡ not_runnable
  pub frame :
      (s'.envs i).env_tf
      ≡ record (s.envs c).env_tf { tf_regs = record (s.envs c).env_tf.tf_regs { reg_eax = 0 } }
  pub owned : envid2env id true s' ≡ ok (some i)
  pub id_fits : (0 < id) × (id < 2 ^ 31)
  pub others : (j : ℕ) → (if j == i then s.envs i else s'.envs j) ≡ s.envs j

abbrev child_env : Kernel → (c i : ℕ) → Env
child_env t c i = record (t.envs i) {
  env_status = not_runnable;
  env_tf = record (t.envs c).env_tf { tf_regs = record (t.envs c).env_tf.tf_regs { reg_eax = 0 } };
}

abbrev child : Kernel → (c i : ℕ) → Kernel
child t c i = set_env t i (child_env t c i)

child-fields :
    (t : Kernel) (c i : ℕ)
    → (((child t c i).envs i).env_id ≡ (t.envs i).env_id)
      × (((child t c i).envs i).env_parent_id ≡ (t.envs i).env_parent_id)
      × (((child t c i).envs i).env_status ≡ not_runnable)
unfolding update
child-fields t c i = (ground arith, ground arith, ground arith)

child-Resolves :
    (s t : Kernel) (c i p : ℕ) (xs : List ℕ)
    → s.curenv ≡ some c
    → c ≢ i
    → i < nenv
    → Started s t i (s.envs c).env_id p xs
    → Resolves (child t c i) (t.envs i).env_id true i
unfolding update
child-Resolves s t c i p xs cur other small st =
    let r = envid2env_sound t (t.envs i).env_id false i (omega (arith, st.positive)) st.resolves in
    let f = child-fields t c i in
    let kept : t.envs c ≡ s.envs c = ground (arith, st.others c, other) in
    let same : (t.envs c).env_id ≡ (s.envs c).env_id = ap (λ (e : Env). e.env_id) kept in
    let mine : (child t c i).curenv ≡ some c = st.current ∙ cur in
    record {
      slot = r.slot;
      current_id = f.0;
      live = rw f.2 refl;
      allowed = rw (mine, f.1, st.parent) (ground (arith, same, other));
    }

child-Forked :
    (s t : Kernel) (c i p : ℕ) (xs : List ℕ)
    → s.curenv ≡ some c
    → c ≢ i
    → i < nenv
    → Started s t i (s.envs c).env_id p xs
    → Forked s (child t c i) c i (t.envs i).env_id
unfolding update
child-Forked s t c i p xs cur other small st =
    let kept : t.envs c ≡ s.envs c = ground (arith, st.others c, other) in
    record {
      status = (child-fields t c i).2;
      frame =
          ap (λ (e : Env). e.env_tf) (update_self t.envs i (child_env t c i))
          ∙ ap (λ (e : Env). record e.env_tf { tf_regs = record e.env_tf.tf_regs { reg_eax = 0 } })
              kept;
      owned =
          envid2env_complete (child t c i) (t.envs i).env_id true i (omega (arith, st.positive))
            (child-Resolves s t c i p xs cur other small st);
      id_fits = st.positive;
      others = λ j. ground (arith, st.others j, ==_iff j i);
    }

-- Let `curenv` be `c`, another environment `i` of the table be the first on the free list, with a last
-- identifier that is not negative, and the first page of a well-formed free list not be the kernel's
-- directory. Then `sys_exofork` returns
-- the identifier of `i`, which the caller may change under it; `i` is not runnable and has the
-- caller's registers but for `eax`, which is 0, and no other environment changes.
pub sys_exofork-Forked :
    (s : Kernel) (c i p : ℕ) (xs : List ℕ)
    → s.curenv ≡ some c
    → c ≢ i
    → s.env_free_list ≡ some i
    → IsFreeList s.phys (p ∷ xs)
    → i < nenv
    → (s.envs i).env_id < 2 ^ 31
    → s.phys.npages ≤ 2 ^ 20
    → p ≢ s.kern_pgdir
    → (id : ℕ) × (s' : Kernel) × (sys_exofork s ≡ some (ok id, s')) × Forked s s' c i id
unfolding sys_exofork
sys_exofork-Forked s c i p xs cur other head avail small fits pages apart =
    let r = env_alloc-Started s i (s.envs c).env_id p xs head avail small fits pages apart in
    (
      (r.0.envs i).env_id,
      child r.0 c i,
      ap (λ o. fork_from o s) cur ∙ ap (forked c) r.1,
      child-Forked s r.0 c i p xs cur other small r.2,
    )

-- `sys_env_set_status` accepts ENV_FREE for an environment that the caller may change: the call
-- succeeds, the identifier no longer resolves, and the environment keeps its page directory
-- without coming back to the free list.
pub sys_env_set_status-orphans :
    (s : Kernel) (envid i : ℕ) (checkperm : Bool)
    → envid ≢ 0
    → envid2env envid true s ≡ ok (some i)
    → (s' : Kernel) × (sys_env_set_status envid 0 s ≡ some (ok 0, s'))
      × (envid2env envid checkperm s' ≡ err bad_env)
      × ((s'.envs i).env_pgdir ≡ (s.envs i).env_pgdir)
      × (s'.env_free_list ≡ s.env_free_list)
unfolding sys_env_set_status envid2env update
sys_env_set_status-orphans s envid i checkperm nonzero found =
    let r = envid2env_sound s envid true i nonzero found in
    let s' = set_env s i (record (s.envs i) { env_status = free }) in
    (
      s',
      ap (on_env s (λ i. set_status s i (settable 0))) found,
      ground (arith, r.slot, ==_refl i),
      ground arith,
      refl,
    )
