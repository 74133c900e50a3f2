-- ===== src/Kern/Env/Cycle.antt =====
-- `env_init` links the last environment to the first, so the free list has no end.
use oscourse.Base.{
  ℕ, zero, suc, ◌+◌, ◌%◌, ◌≤◌, ◌<◌, ◌≡◌, refl, ap, sym, ◌∙◌, ◌≢◌, true, ◌&&◌, Option, none, some,
  arith, ◌==◌, leb, ltb, lt→ltb, if◌then◌else◌, update, Bool-cases, inl, inr,
}
use oscourse.Kern.Pmap.{Phys, page_alloc}
use oscourse.Kern.Env.{
  Kernel, Env, ok, err, nenv, init_env, init_envs, env_init, env_alloc, alloc_env, alloc_from_list,
  commit, setup_dir, runnable, no_free_env,
}

init_envs-env_link :
    (n i j : ℕ) (envs : ℕ → Env)
    → (init_envs n i envs j).env_link
      ≡ (if leb i j && ltb j (i + n) then some ((j + 1) % nenv) else (envs j).env_link)
unfolding init_envs update
init_envs-env_link zero i j envs = ground arith
init_envs-env_link (suc n) i j envs =
    ground (arith, init_envs-env_link n (i + 1) j (update envs i (init_env i (envs i))))

-- every environment is linked to the next one, round the table
abbrev pub IsRing : Kernel → Type 0
IsRing s =
    (j : ℕ)
    → (if ltb j nenv then (s.envs j).env_link else some ((j + 1) % nenv)) ≡ some ((j + 1) % nenv)

env_init-IsRing : (s : Kernel) → IsRing (env_init s)
unfolding env_init
env_init-IsRing s j = elim (Bool-cases (ltb j nenv)) [
  | inl inside ↦ rw (inside, init_envs-env_link nenv 0 j s.envs) (ground arith)
  | inr beyond ↦ rw beyond
]

init_envs-env_id :
    (n i j : ℕ) (envs : ℕ → Env)
    → (init_envs n i envs j).env_id ≡ (if leb i j && ltb j (i + n) then 0 else (envs j).env_id)
unfolding init_envs update
init_envs-env_id zero i j envs = ground arith
init_envs-env_id (suc n) i j envs =
    ground (arith, init_envs-env_id n (i + 1) j (update envs i (init_env i (envs i))))

pub env_init-env_id : (s : Kernel) (j : ℕ) → j < nenv → ((env_init s).envs j).env_id ≡ 0
unfolding env_init
env_init-env_id s j h = init_envs-env_id nenv 0 j s.envs ∙ within (lt→ltb j nenv h)
  where
    within : ltb j nenv ≡ true → (if leb 0 j && ltb j (0 + nenv) then 0 else (s.envs j).env_id) ≡ 0
    within e = ground arith

-- some number of successful allocations in a row
pub data Allocs (s : Kernel) : ℕ → Kernel → Type 0 where
  start : Allocs s 0 s
  more :
      {k : ℕ} {t u : Kernel} (parent_id i : ℕ)
      → Allocs s k t
      → env_alloc parent_id t ≡ some (ok i, u)
      → Allocs s (suc k) u

-- what one successful allocation does to the links and the list
alloc_env-links :
    (i parent_id k : ℕ) (t u : Kernel) (r : Option (Option ℕ × Phys))
    → alloc_env i parent_id t r ≡ some (ok k, u)
    → (k ≡ i)
      × (u.env_free_list ≡ (t.envs i).env_link)
      × ((j : ℕ) → (u.envs j).env_link ≡ (t.envs j).env_link)
unfolding alloc_env update
alloc_env-links i parent_id k t u none h = cc
alloc_env-links i parent_id k t u (some (none, m)) h = cc
alloc_env-links i parent_id k t u (some (some p, m)) h =
    let e : commit i parent_id (setup_dir i p (record t { phys = m })) ≡ u = cc in
    (
      cc,
      ap (λ (v : Kernel). v.env_free_list) (sym e) ∙ same_link,
      λ j. ap (λ (v : Kernel). (v.envs j).env_link) (sym e) ∙ same_links j,
    )
  where
    same_link :
        (commit i parent_id (setup_dir i p (record t { phys = m }))).env_free_list
        ≡ (t.envs i).env_link
    same_link = ground arith

    same_links :
        (j : ℕ)
        → ((commit i parent_id (setup_dir i p (record t { phys = m }))).envs j).env_link
          ≡ (t.envs j).env_link
    same_links j = ground arith

alloc_from_list-links :
    (parent_id k : ℕ) (t u : Kernel) (head : Option ℕ)
    → alloc_from_list parent_id head t ≡ some (ok k, u)
    → (head ≡ some k)
      × (u.env_free_list ≡ (t.envs k).env_link)
      × ((j : ℕ) → (u.envs j).env_link ≡ (t.envs j).env_link)
unfolding alloc_from_list
alloc_from_list-links parent_id k t u none h = cc
alloc_from_list-links parent_id k t u (some i) h =
    let l = alloc_env-links i parent_id k t u (page_alloc true t.phys) h in
    (ap some (sym l.0), l.1 ∙ ap (λ j. (t.envs j).env_link) (sym l.0), l.2)

ring_next :
    (t : Kernel) (i k : ℕ)
    → IsRing t
    → t.env_free_list ≡ some (k % nenv)
    → t.env_free_list ≡ some i
    → (t.envs i).env_link ≡ some (suc k % nenv)
ring_next t i k ring head same =
    let e : i ≡ k % nenv = cc in
    let inside : ltb i nenv ≡ true = ground arith in
    ap (λ b. if b then (t.envs i).env_link else some ((i + 1) % nenv)) (sym inside)
    ∙ ring i
    ∙ ap some (omega arith)

-- After `k` allocations from a ring whose list starts at slot 0, the list starts at `k % NENV`.
Allocs-head :
    (s : Kernel) {k : ℕ} {t : Kernel}
    → s.env_free_list ≡ some 0
    → IsRing s
    → Allocs s k t
    → (t.env_free_list ≡ some (k % nenv)) × IsRing t
unfolding env_alloc
Allocs-head s e ring start = (e, ring)
Allocs-head s e ring (more {k} {t} {u} parent_id i before step) =
    let l = alloc_from_list-links parent_id i t u t.env_free_list step in
    let ih = Allocs-head s e ring before in
    (l.1 ∙ ring_next t i k ih.1 ih.0 l.0, λ j. rw (l.2 j) (ih.1 j))

alloc_env-not_full :
    (i parent_id : ℕ) (t u : Kernel) (r : Option (Option ℕ × Phys))
    → alloc_env i parent_id t r ≢ some (err no_free_env, u)
unfolding alloc_env
alloc_env-not_full i parent_id t u none h = cc
alloc_env-not_full i parent_id t u (some (none, m)) h = cc
alloc_env-not_full i parent_id t u (some (some p, m)) h = cc

alloc_from_list-not_full :
    (parent_id i : ℕ) (t u : Kernel) (head : Option ℕ)
    → head ≡ some i
    → alloc_from_list parent_id head t ≢ some (err no_free_env, u)
unfolding alloc_from_list
alloc_from_list-not_full parent_id i t u none e h = cc
alloc_from_list-not_full parent_id i t u (some j) e h =
    alloc_env-not_full j parent_id t u (page_alloc true t.phys) h

-- the statuses after a successful allocation
alloc_env-status :
    (i parent_id k : ℕ) (t u : Kernel) (r : Option (Option ℕ × Phys))
    → alloc_env i parent_id t r ≡ some (ok k, u)
    → (j : ℕ) → (u.envs j).env_status ≡ (if j == i then runnable else (t.envs j).env_status)
unfolding alloc_env update
alloc_env-status i parent_id k t u none h j = cc
alloc_env-status i parent_id k t u (some (none, m)) h j = cc
alloc_env-status i parent_id k t u (some (some p, m)) h j =
    let e : commit i parent_id (setup_dir i p (record t { phys = m })) ≡ u = cc in
    ap (λ (v : Kernel). (v.envs j).env_status) (sym e) ∙ stored
  where
    stored :
        ((commit i parent_id (setup_dir i p (record t { phys = m }))).envs j).env_status
        ≡ (if j == i then runnable else (t.envs j).env_status)
    stored = ground arith

alloc_from_list-status :
    (parent_id k : ℕ) (t u : Kernel) (head : Option ℕ)
    → alloc_from_list parent_id head t ≡ some (ok k, u)
    → (j : ℕ) → (u.envs j).env_status ≡ (if j == k then runnable else (t.envs j).env_status)
unfolding alloc_from_list
alloc_from_list-status parent_id k t u none h j = cc
alloc_from_list-status parent_id k t u (some i) h j =
    rw (alloc_env-links i parent_id k t u (page_alloc true t.phys) h).0
      (alloc_env-status i parent_id k t u (page_alloc true t.phys) h j)

-- The first `k` slots are runnable after `k` allocations, up to the size of the table.
Allocs-runnable :
    (s : Kernel) {k : ℕ} {t : Kernel}
    → k ≤ nenv
    → Allocs (env_init s) k t
    → (j : ℕ) → (if ltb j k then (t.envs j).env_status else runnable) ≡ runnable
unfolding env_alloc env_init
Allocs-runnable s small start j = ground arith
Allocs-runnable s small (more {k} {t} {u} parent_id i before step) j =
    let ih = Allocs-runnable s (omega arith) before j in
    let head = (Allocs-head (env_init s) refl (env_init-IsRing s) before).0 in
    let l = alloc_from_list-links parent_id i t u t.env_free_list step in
    let e : i ≡ k % nenv = cc in
    ground (arith, alloc_from_list-status parent_id i t u t.env_free_list step j)

-- After `env_init`, when `k` allocations have succeeded, `k` up to NENV, the next environment to
-- be taken is `k % NENV` whether it is alive or not, `env_alloc` does not report -E_NO_FREE_ENV,
-- and the first `k` environments are runnable.
pub env_alloc-never_full :
    (s : Kernel) (k : ℕ) (t u : Kernel) (parent_id : ℕ)
    → k ≤ nenv
    → Allocs (env_init s) k t
    → (t.env_free_list ≡ some (k % nenv))
      × (env_alloc parent_id t ≢ some (err no_free_env, u))
      × ((j : ℕ) → (if ltb j k then (t.envs j).env_status else runnable) ≡ runnable)
unfolding env_alloc env_init
env_alloc-never_full s k t u parent_id small a =
    let h = (Allocs-head (env_init s) refl (env_init-IsRing s) a).0 in
    (
      h,
      alloc_from_list-not_full parent_id (k % nenv) t u t.env_free_list h,
      Allocs-runnable s small a,
    )
