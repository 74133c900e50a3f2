-- ===== src/Kern/Syscall/Alloc.antt =====
-- `sys_page_alloc`: the page that it maps, and what it gives back when that fails.
use oscourse.Base.{
  ℕ, ◌≡◌, refl, sym, ap, update_self, ◌∙◌, inl, inr, Bool, true, false, not, ◌||◌, Option, none,
  some, List, [], ◌∷◌, arith, Bool-cases, ltb,
}
use oscourse.Kern.Pmap.{Phys, page_alloc, page_free, push_list}
use oscourse.Kern.Pmap.FreeList.{
  IsFreeList, Allocated, idle, page_alloc-cons, page_alloc-nil, page_free-cons,
}
use oscourse.Kern.Env.{Kernel, Error, Result, ok, err, no_mem, envid2env}
use oscourse.Kern.Syscall.{
  utop, good_perm, on_env, insert_in, map_new, mapped_new, gave_back, sys_page_alloc,
}
use oscourse.Kern.Syscall.Errors.{insert_in-false}

abbrev failed : Error → Kernel → Option (Result ℕ × Kernel)
failed e s = some (err e, s)

failed-state : (e e' : Error) (s t : Kernel) → failed e s ≡ failed e' t → t ≡ s
failed-state e e' s t h = ground arith

-- The page that `page_insert` did not take goes back to the list.
returned_page :
    (s t : Kernel) (p : ℕ) (m m' : Phys) (e : Error) (xs : List ℕ)
    → IsFreeList s.phys (p ∷ xs)
    → Allocated s.phys m true p xs
    → m' ≡ m
    → gave_back s (page_free p m') ≡ some (err e, t)
    → IsFreeList t.phys (p ∷ xs) × (t.envs ≡ s.envs)
unfolding gave_back
returned_page s t p m m' e xs free a same h =
    let unused : m.pages p ≡ idle = a.pages_after p ∙ update_self s.phys.pages p idle in
    let r = page_free-cons m p xs a.rest (rw a.npages_kept free.bounded.0) a.out unused in
    let run : failed no_mem (record s { phys = push_list p m }) ≡ failed e t =
      sym (ap (λ m. gave_back s (page_free p m)) same ∙ ap (gave_back s) r.0) ∙ h in
    let end = failed-state no_mem e (record s { phys = push_list p m }) t run in rw end (r.1, refl)

mapped_new-err :
    (s t : Kernel) (p : ℕ) (m : Phys) (r : Option (Bool × Phys)) (e : Error) (xs : List ℕ)
    → IsFreeList s.phys (p ∷ xs)
    → Allocated s.phys m true p xs
    → ((m' : Phys) → r ≡ some (false, m') → m' ≡ m)
    → mapped_new s p r ≡ some (err e, t)
    → IsFreeList t.phys (p ∷ xs) × (t.envs ≡ s.envs)
unfolding mapped_new
mapped_new-err s t p m none e xs free a k h = absurd (ground arith)
mapped_new-err s t p m (some (true, m')) e xs free a k h = absurd (ground arith)
mapped_new-err s t p m (some (false, m')) e xs free a k h =
    returned_page s t p m m' e xs free a (k m' refl) h

map_new-err :
    (s t : Kernel) (va perm i : ℕ) (e : Error) (xs : List ℕ)
    → IsFreeList s.phys xs
    → map_new va perm i s (page_alloc true s.phys) ≡ some (err e, t)
    → IsFreeList t.phys xs × (t.envs ≡ s.envs)
unfolding map_new
map_new-err s t va perm i e [] free h =
    let run : failed no_mem s ≡ failed e t =
      sym (ap (map_new va perm i s) (page_alloc-nil s.phys true free)) ∙ h in
    let end = failed-state no_mem e s t run in rw end (free, refl)
map_new-err s t va perm i e (p ∷ xs) free h =
    let got = page_alloc-cons s.phys p xs true free in
    mapped_new-err s t p got.0 (insert_in (s.envs i).env_pgdir p va perm got.0) e xs free got.2
      (λ m' q. insert_in-false (s.envs i).env_pgdir p va perm got.0 m' q)
      (sym (ap (map_new va perm i s) got.1) ∙ h)

on_env-lost :
    (s t : Kernel) (f : ℕ → Option (Result ℕ × Kernel)) (r : Result (Option ℕ)) (e : Error)
    (xs : List ℕ)
    → IsFreeList s.phys xs
    → ((i : ℕ) → f i ≡ some (err e, t) → IsFreeList t.phys xs × (t.envs ≡ s.envs))
    → on_env s f r ≡ some (err e, t)
    → IsFreeList t.phys xs × (t.envs ≡ s.envs)
on_env-lost s t f (err e') e xs free k h = let end : t ≡ s = ground arith in rw end (free, refl)
on_env-lost s t f (ok none) e xs free k h = absurd (ground arith)
on_env-lost s t f (ok (some i)) e xs free k h = k i h

-- Whenever `sys_page_alloc` returns an error in a kernel with a well-formed free list, that list
-- holds the same pages as before, in the same order, and no environment has changed.
pub sys_page_alloc-err :
    (s t : Kernel) (envid va perm : ℕ) (e : Error) (xs : List ℕ)
    → IsFreeList s.phys xs
    → sys_page_alloc envid va perm s ≡ some (err e, t)
    → IsFreeList t.phys xs × (t.envs ≡ s.envs)
unfolding sys_page_alloc
sys_page_alloc-err s t envid va perm e xs free h =
    on_env-lost s t _ (envid2env envid true s) e xs free
      (λ i g. elim (Bool-cases (not (ltb va utop) || not (good_perm perm))) [
        | inl x ↦ let end : t ≡ s = ground (arith, x, g) in rw end (free, refl)
        | inr x ↦ map_new-err s t va perm i e xs free (sym (rw x refl) ∙ g)
      ])
      h
