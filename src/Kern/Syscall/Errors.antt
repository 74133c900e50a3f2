-- ===== src/Kern/Syscall/Errors.antt =====
-- System calls that fail leave the kernel as it was.
use oscourse.Base.{
  ℕ, ◌≡◌, refl, sym, ap, ◌∙◌, inl, inr, Bool, true, false, Option, none, some, arith, Bool-cases,
}
use oscourse.Kern.Pmap.{Phys}
use oscourse.Kern.Paging.{Slot}
use oscourse.Kern.Paging.Failure.{page_lookup-keeps, page_insert-false}
use oscourse.Kern.Env.{Kernel, Error, Result, ok, err, envid2env}
use oscourse.Kern.Syscall.{
  on_env, insert_in, lookup_in, exceeds, after_insert, map_found, good_map, sys_page_map,
}

pub insert_in-false :
    (dir : Option ℕ) (pp va perm : ℕ) (m t : Phys)
    → insert_in dir pp va perm m ≡ some (false, t)
    → t ≡ m
insert_in-false none pp va perm m t h = ground arith
insert_in-false (some pd) pp va perm m t h = page_insert-false pd pp va perm m t h

pub lookup_in-keeps :
    (dir : Option ℕ) (va : ℕ) (m t : Phys) (o : Option (ℕ × Slot))
    → lookup_in dir va m ≡ some (o, t)
    → t ≡ m
lookup_in-keeps none va m t o h = ground arith
lookup_in-keeps (some pd) va m t o h = page_lookup-keeps pd va m t o h

pub on_env-err :
    (s t : Kernel) (f : ℕ → Option (Result ℕ × Kernel)) (r : Result (Option ℕ)) (e : Error)
    → ((i : ℕ) → f i ≡ some (err e, t) → t ≡ s)
    → on_env s f r ≡ some (err e, t)
    → t ≡ s
on_env-err s t f (err e') e k h = ground arith
on_env-err s t f (ok none) e k h = ground arith
on_env-err s t f (ok (some i)) e k h = k i h

pub after_insert-err :
    (s t : Kernel) (k : Kernel → Kernel) (r : Option (Bool × Phys)) (e : Error)
    → ((m : Phys) → r ≡ some (false, m) → m ≡ s.phys)
    → after_insert s k r ≡ some (err e, t)
    → t ≡ s
after_insert-err s t k none e g h = ground arith
after_insert-err s t k (some (true, m)) e g h = ground arith
after_insert-err s t k (some (false, m)) e g h =
    let same : t ≡ record s { phys = m } = ground arith in
    same ∙ ap (λ (m : Phys). record s { phys = m }) (g m refl)

map_found-err :
    (dstva perm j : ℕ) (s t : Kernel) (r : Option (Option (ℕ × Slot) × Phys)) (e : Error)
    → ((o : Option (ℕ × Slot)) (m : Phys) → r ≡ some (o, m) → m ≡ s.phys)
    → map_found dstva perm j s r ≡ some (err e, t)
    → t ≡ s
unfolding map_found
map_found-err dstva perm j s t none e g h = ground arith
map_found-err dstva perm j s t (some (none, m)) e g h = ground arith
map_found-err dstva perm j s t (some (some (pg, slot), m)) e g h =
    elim (Bool-cases (exceeds s perm slot)) [
      | inl x ↦ ground (arith, x)
      | inr x ↦
          after_insert-err s t (λ t. t) (insert_in (s.envs j).env_pgdir pg dstva perm m) e
            (λ m' q.
              insert_in-false (s.envs j).env_pgdir pg dstva perm m m' q
              ∙ g (some (pg, slot)) m refl)
            (sym (rw x refl) ∙ h)
    ]

-- Whenever `sys_page_map` returns an error, the kernel's state is what it was.
pub sys_page_map-err :
    (s t : Kernel) (srcenvid srcva dstenvid dstva perm : ℕ) (e : Error)
    → sys_page_map srcenvid srcva dstenvid dstva perm s ≡ some (err e, t)
    → t ≡ s
unfolding sys_page_map
sys_page_map-err s t srcenvid srcva dstenvid dstva perm e h =
    on_env-err s t _ (envid2env srcenvid true s) e
      (λ i. on_env-err s t _ (envid2env dstenvid true s) e (λ j g.
        elim (Bool-cases (good_map srcva dstva perm)) [
          | inl x ↦
              map_found-err dstva perm j s t (lookup_in (s.envs i).env_pgdir srcva s.phys) e
                (λ o m. lookup_in-keeps (s.envs i).env_pgdir srcva s.phys m o) (sym (rw x refl) ∙ g)
          | inr x ↦ ground (arith, x, g)
        ]))
      h
