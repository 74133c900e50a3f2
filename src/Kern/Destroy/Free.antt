-- ===== src/Kern/Destroy/Free.antt =====
-- Freeing an environment that has mapped nothing yet, against its allocation.
use oscourse.Base.{
  ℕ, subst, zero, suc, ◌+◌, ◌^◌, ◌≤◌, ◌<◌, ◌≢◌, Bool, true, false, ◌&&◌, Option, none, some, List,
  ◌∷◌, ltb, ◌==◌, if◌then◌else◌, ◌≡◌, refl, ap, ◌∙◌, arith, update,
}
use oscourse.Base.Bits.{test_bit}
use oscourse.Kern.Pmap.{Phys}
use oscourse.Kern.Pmap.FreeList.{IsFreeList, IsInUse, released, page_decref-Released}
use oscourse.Kern.Env.{Kernel, free, ok, nenv, env_alloc}
use oscourse.Kern.Env.Alloc.{Started, env_alloc-Started}
use oscourse.Kern.Destroy.{
  user_tables, free_tables, put_back, put_back_with, free_dir, free_env_from, env_free,
}

if-false : {b : Bool} (x y : Option Phys) → b ≡ false → (if b then x else y) ≡ y
if-false x y e = ap (λ b. if b then x else y) e

-- where no table is present, there is nothing to free
free_tables-absent :
    (pd n k : ℕ) (s : Phys)
    → ((j : ℕ) → (ltb j (k + n) && test_bit (s.words pd j) 0) ≡ false)
    → free_tables pd n k s ≡ some s
unfolding free_tables
free_tables-absent pd zero k s absent = refl
free_tables-absent pd (suc n) k s absent =
    let e : test_bit (s.words pd k) 0 ≡ false = ground (arith, absent k) in
    if-false _ _ e ∙ free_tables-absent pd n (k + 1) s (λ j. ground (arith, absent j))

-- The environment `i` is free again, first on the list, and its directory `p` is first on the free
-- list of the pages.
pub record Undone (s s' : Kernel) (i p : ℕ) (xs : List ℕ) : Type 0 where
  pub pages_back : IsFreeList s'.phys (p ∷ xs)
  pub listed : s'.env_free_list ≡ some i
  pub relinked : (s'.envs i).env_link ≡ (s.envs i).env_link
  pub status : (s'.envs i).env_status ≡ free
  pub no_dir : (s'.envs i).env_pgdir ≡ none
  pub others : (j : ℕ) → (if j == i then s.envs j else s'.envs j) ≡ s.envs j
  pub current : s'.curenv ≡ s.curenv

module _ (s s' : Kernel) (i parent_id p : ℕ) (xs : List ℕ) (d : Started s s' i parent_id p xs) where
  started-absent :
      ((j : ℕ) → (ltb j user_tables && test_bit (s.phys.words s.kern_pgdir j) 0) ≡ false)
      → (j : ℕ) → (ltb j (0 + user_tables) && test_bit (s'.phys.words p j) 0) ≡ false
  started-absent absent j = ground (arith, absent j, d.directory j)

  started-IsInUse : IsFreeList s.phys (p ∷ xs) → IsInUse s'.phys xs p
  started-IsInUse f = record {
    inside = omega (arith, f.bounded.0, d.size);
    out = f.chain.2;
    unlinked = d.unlinked;
    counted = omega (arith, d.referenced);
    fits = omega (arith, d.referenced);
  }

  env_free-started :
      IsFreeList s.phys (p ∷ xs)
      → ((j : ℕ) → (ltb j user_tables && test_bit (s.phys.words s.kern_pgdir j) 0) ≡ false)
      → env_free i s' ≡ some (put_back i s' (released p s'.phys))
  unfolding env_free
  env_free-started f absent =
      ap (λ o. free_env_from i o s') d.pgdir
      ∙ ap (free_dir i p s') (free_tables-absent p user_tables 0 s'.phys (started-absent absent))
      ∙ ap (put_back_with i s')
          (page_decref-Released s'.phys p xs d.free_pages (started-IsInUse f)).0

  put_back-Undone :
      IsFreeList s.phys (p ∷ xs) → Undone s (put_back i s' (released p s'.phys)) i p xs
  unfolding put_back update
  put_back-Undone f =
      let r = (page_decref-Released s'.phys p xs d.free_pages (started-IsInUse f)).1 in
      let one : (s'.phys.pages p).pp_ref == 1 ≡ true = ground (arith, d.referenced) in
      record {
        pages_back =
            subst (λ b. IsFreeList (released p s'.phys) (if b then p ∷ xs else xs)) one r.free;
        listed = refl;
        relinked = ground (arith, d.next_free);
        status = ground arith;
        no_dir = ground arith;
        others = λ j. ground (arith, d.others j);
        current = d.current;
      }

-- For a kernel whose directory has no table for the user's addresses, `env_free` undoes `env_alloc`:
-- it succeeds on the new environment, which is then free and first on the list with its former
-- link, the page of its directory is the first free page again, and no other environment changes.
pub env_free-env_alloc :
    (s : Kernel) (i parent_id p : ℕ) (xs : List ℕ)
    → s.env_free_list ≡ some i
    → IsFreeList s.phys (p ∷ xs)
    → i < nenv
    → (s.envs i).env_id < 2 ^ 31
    → s.phys.npages ≤ 2 ^ 20
    → p ≢ s.kern_pgdir
    → ((j : ℕ) → (ltb j user_tables && test_bit (s.phys.words s.kern_pgdir j) 0) ≡ false)
    → (s1 s2 : Kernel) × (env_alloc parent_id s ≡ some (ok i, s1))
      × (env_free i s1 ≡ some s2)
      × Undone s s2 i p xs
env_free-env_alloc s i parent_id p xs head f h k small apart absent =
    let a = env_alloc-Started s i parent_id p xs head f h k small apart in
    (
      a.0,
      put_back i a.0 (released p a.0.phys),
      a.1,
      env_free-started s a.0 i parent_id p xs a.2 f absent,
      put_back-Undone s a.0 i parent_id p xs a.2 f,
    )
