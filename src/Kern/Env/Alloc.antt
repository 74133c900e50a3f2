-- ===== src/Kern/Env/Alloc.antt =====
-- `env_alloc`: the environment that it sets up, and its two failures.
use oscourse.Base.{
  ℕ, ◌+◌, ◌*◌, ◌^◌, ◌≤◌, ◌<◌, ◌≡◌, refl, ap, sym, ◌∙◌, ◌≢◌, true, false, none, some, List, [], ◌∷◌,
  arith, ◌==◌, if◌then◌else◌, update, Option,
}
use oscourse.Base.BitOr.{bit_or-fields}
use oscourse.Kern.Pmap.{Phys}
use oscourse.Kern.Pmap.FreeList.{
  IsFreeList, IsChain-update, Allocated, page_alloc-cons, page_alloc-nil,
}
use oscourse.Kern.Paging.{pdx}
use oscourse.Kern.Env.{
  Kernel, ok, err, no_mem, no_free_env, is_free, nenv, envid2env, env_alloc, alloc_env,
  alloc_from_list, setup_dir, commit, next_id, uvpt, runnable,
}
use oscourse.Kern.Env.Lookup.{next_id-fresh, envid2env_complete}

-- What a successful `env_alloc` leaves at slot `i`, with page `p` for its directory.
pub record Started (s s' : Kernel) (i parent_id p : ℕ) (xs : List ℕ) : Type 0 where
  pub resolves : envid2env (s'.envs i).env_id false s' ≡ ok (some i)
  pub positive : (0 < (s'.envs i).env_id) × ((s'.envs i).env_id < 2 ^ 31)
  pub renamed : (s'.envs i).env_id ≢ (s.envs i).env_id
  pub status : (s'.envs i).env_status ≡ runnable
  pub parent : (s'.envs i).env_parent_id ≡ parent_id
  pub not_receiving : (s'.envs i).env_ipc_recving ≡ false
  pub others : (j : ℕ) → s'.envs j ≡ (if j == i then s'.envs i else s.envs j)
  pub current : s'.curenv ≡ s.curenv
  pub next_free : s'.env_free_list ≡ (s.envs i).env_link
  pub directory :
      (j : ℕ)
      → s'.phys.words p j ≡ (if j == pdx uvpt then p * 2 ^ 12 + 5 else s.phys.words s.kern_pgdir j)
  pub pgdir : (s'.envs i).env_pgdir ≡ some p
  pub referenced : (s'.phys.pages p).pp_ref ≡ 1
  pub unlinked : (s'.phys.pages p).pp_link ≡ none
  pub size : s'.phys.npages ≡ s.phys.npages
  pub free_pages : IsFreeList s'.phys xs

module _ (s : Kernel) (i parent_id p : ℕ) (xs : List ℕ) (m : Phys) where
  -- the state that `env_alloc` reaches
  abbrev after : Kernel
  after = commit i parent_id (setup_dir i p (record s { phys = m }))

  after-others : (j : ℕ) → after.envs j ≡ (if j == i then after.envs i else s.envs j)
  unfolding env_alloc update
  after-others j = ground arith

  after-env_id : (after.envs i).env_id ≡ next_id (s.envs i).env_id i
  unfolding env_alloc update
  after-env_id = ground arith

  after-live : is_free (after.envs i).env_status ≡ false
  unfolding env_alloc update
  after-live = ground arith

  after-resolves :
      i < nenv
      → (s.envs i).env_id < 2 ^ 31
      → envid2env (after.envs i).env_id false after ≡ ok (some i)
  after-resolves h k =
      let n = next_id-fresh (s.envs i).env_id i h k in
      envid2env_complete after (after.envs i).env_id false i (rw after-env_id (ground (arith, n)))
        (record {
          slot = rw after-env_id (sym n.2);
          current_id = refl;
          live = after-live;
          allowed = refl;
        })

  after-directory :
      p < 2 ^ 20
      → p ≢ s.kern_pgdir
      → Allocated s.phys m true p xs
      → (j : ℕ)
      → after.phys.words p j
        ≡ (if j == pdx uvpt then p * 2 ^ 12 + 5 else s.phys.words s.kern_pgdir j)
  unfolding env_alloc update
  after-directory small apart a j =
      let e = bit_or-fields 12 p 5 (omega arith) in ground (arith, e, a.words_after s.kern_pgdir j)

  after-referenced :
      IsFreeList s.phys (p ∷ xs) → Allocated s.phys m true p xs → (after.phys.pages p).pp_ref ≡ 1
  unfolding env_alloc update
  after-referenced free a = ground (arith, a.pages_after p)

  after-pgdir : (after.envs i).env_pgdir ≡ some p
  unfolding env_alloc update
  after-pgdir = ground arith

  after-unlinked : Allocated s.phys m true p xs → (after.phys.pages p).pp_link ≡ none
  unfolding env_alloc update
  after-unlinked a = ground (arith, a.pages_after p)

  after-size : Allocated s.phys m true p xs → after.phys.npages ≡ s.phys.npages
  unfolding env_alloc
  after-size a = a.npages_kept

  after-free_pages : Allocated s.phys m true p xs → IsFreeList after.phys xs
  unfolding env_alloc
  after-free_pages a = record {
    chain = IsChain-update m.pages p _ m.page_free_list xs a.out a.rest.chain;
    bounded = a.rest.bounded;
  }

  after-curenv : after.curenv ≡ s.curenv
  unfolding env_alloc
  after-curenv = refl

  after-status :
      ((after.envs i).env_status ≡ runnable)
      × ((after.envs i).env_parent_id ≡ parent_id)
      × ((after.envs i).env_ipc_recving ≡ false)
      × (after.env_free_list ≡ (s.envs i).env_link)
  unfolding env_alloc update
  after-status = ground arith

  after-Started :
      i < nenv
      → (s.envs i).env_id < 2 ^ 31
      → p < 2 ^ 20
      → p ≢ s.kern_pgdir
      → IsFreeList s.phys (p ∷ xs)
      → Allocated s.phys m true p xs
      → Started s after i parent_id p xs
  after-Started h k small apart free a =
      let n = next_id-fresh (s.envs i).env_id i h k in
      record {
        resolves = after-resolves h k;
        positive = rw after-env_id (n.0, n.1);
        renamed = rw after-env_id n.3;
        status = after-status.0;
        parent = after-status.1;
        not_receiving = after-status.2;
        others = after-others;
        current = after-curenv;
        next_free = after-status.3;
        directory = after-directory small apart a;
        pgdir = after-pgdir;
        referenced = after-referenced free a;
        unlinked = after-unlinked a;
        size = after-size a;
        free_pages = after-free_pages a;
      }

-- Let there be a free environment `i` of the table, whose last identifier is not negative, and a
-- free page `p` that is not the kernel's directory. Then `env_alloc` succeeds: the new identifier
-- of `i` resolves to it, is positive and differs from the last one, `i` is runnable, no other
-- environment changes, and its directory `p` is the kernel's with itself at UVPT.
pub env_alloc-Started :
    (s : Kernel) (i parent_id p : ℕ) (xs : List ℕ)
    → s.env_free_list ≡ some i
    → IsFreeList s.phys (p ∷ xs)
    → i < nenv
    → (s.envs i).env_id < 2 ^ 31
    → s.phys.npages ≤ 2 ^ 20
    → p ≢ s.kern_pgdir
    → (s' : Kernel) × (env_alloc parent_id s ≡ some (ok i, s')) × Started s s' i parent_id p xs
unfolding env_alloc
env_alloc-Started s i parent_id p xs head free h k small apart =
    let got = page_alloc-cons s.phys p xs true free in
    (
      commit i parent_id (setup_dir i p (record s { phys = got.0 })),
      ap (λ o. alloc_from_list parent_id o s) head ∙ ap (alloc_env i parent_id s) got.1,
      after-Started s i parent_id p xs got.0 h k (omega (arith, free.bounded.0)) apart free got.2,
    )

-- With no free page, `env_alloc` reports -E_NO_MEM, or -E_NO_FREE_ENV if there is no free
-- environment either, and changes nothing.
pub env_alloc-fails :
    (s : Kernel) (parent_id : ℕ)
    → IsFreeList s.phys []
    → (head : Option ℕ) → s.env_free_list ≡ head
    → env_alloc parent_id s ≡ some (elim head [ none ↦ err no_free_env | some i ↦ err no_mem ], s)
unfolding env_alloc
env_alloc-fails s parent_id free none e = ap (λ o. alloc_from_list parent_id o s) e
env_alloc-fails s parent_id free (some i) e =
    ap (λ o. alloc_from_list parent_id o s) e
    ∙ ap (alloc_env i parent_id s) (page_alloc-nil s.phys true free)
