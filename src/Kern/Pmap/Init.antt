-- ===== src/Kern/Pmap/Init.antt =====
-- What `page_init` leaves on the free list.
use oscourse.Base.{
  ℕ, zero, suc, ◌+◌, ◌-◌, ◌≤◌, ◌<◌, ◌≡◌, refl, true, false, ◌&&◌, ◌||◌, none, List, [], ◌∷◌, arith,
  ltb, leb, ◌==◌, if◌then◌else◌, Bool-cases, inl, inr, update, update_self,
}
use oscourse.Kern.Pmap.{Phys, is_usable, push_free, init_free, mark_used, init_used, page_init}
use oscourse.Kern.Pmap.FreeList.{has, IsChain-update, IsFreeList}

-- Before round `i` the list holds exactly the usable pages from 1 to `i - 1`.
record Built (npages_basemem ext_mem i : ℕ) (s : Phys) (xs : List ℕ) : Type 0 where
  free : IsFreeList s xs
  exact : (q : ℕ) → has q xs ≡ (ltb 0 q && (ltb q i && is_usable npages_basemem ext_mem q))

module _ (npages_basemem ext_mem : ℕ) where
  push_free-Built :
      (i : ℕ) (s : Phys) (xs : List ℕ)
      → 0 < i
      → i < s.npages
      → is_usable npages_basemem ext_mem i ≡ true
      → Built npages_basemem ext_mem i s xs
      → Built npages_basemem ext_mem (i + 1) (push_free i s) (i ∷ xs)
  unfolding push_free
  push_free-Built i s xs pos inside usable b =
      let out : has i xs ≡ false = ground (arith, b.exact i) in
      record {
        free = record {
          chain = (
            refl,
            rw update_self refl,
            out,
            rw update_self (IsChain-update s.pages i _ s.page_free_list xs out b.free.chain),
          );
          bounded = (inside, b.free.bounded);
        };
        exact = λ q. ground (arith, b.exact q);
      }

  skip-Built :
      (i : ℕ) (s : Phys) (xs : List ℕ)
      → is_usable npages_basemem ext_mem i ≡ false
      → Built npages_basemem ext_mem i s xs
      → Built npages_basemem ext_mem (i + 1) s xs
  skip-Built i s xs reserved b = record { free = b.free; exact = λ q. ground (arith, b.exact q) }

  npages-push_free : (i : ℕ) (s : Phys) → (push_free i s).npages ≡ s.npages
  unfolding push_free
  npages-push_free i s = refl

  init_free-Built :
      (n i j : ℕ) (s : Phys) (xs : List ℕ)
      → 0 < i
      → i + n ≡ j
      → j ≤ s.npages
      → Built npages_basemem ext_mem i s xs
      → (ys : List ℕ) × Built npages_basemem ext_mem j (init_free npages_basemem ext_mem n i s) ys
  unfolding init_free
  init_free-Built zero i j s xs pos e inside b = (xs, let e' : j ≡ i = omega arith in rw e' b)
  init_free-Built (suc n) i j s xs pos e inside b =
      elim (Bool-cases (is_usable npages_basemem ext_mem i)) [
        | inl usable ↦ rw usable (
            init_free-Built n (i + 1) j (push_free i s) (i ∷ xs) (omega arith) (omega arith)
              (omega (arith, npages-push_free i s))
              (push_free-Built i s xs pos (omega arith) usable b))
        | inr reserved ↦ rw reserved (
            init_free-Built n (i + 1) j s xs (omega arith) (omega arith) inside
              (skip-Built i s xs reserved b))
      ]

mark_used-IsFreeList :
    (i : ℕ) (s : Phys) (xs : List ℕ)
    → has i xs ≡ false
    → IsFreeList s xs
    → IsFreeList (mark_used i s) xs
mark_used-IsFreeList i s xs out f = record {
  chain = IsChain-update s.pages i _ s.page_free_list xs out f.chain;
  bounded = f.bounded;
}

-- The second loop leaves the list alone, as long as none of its pages is free, and it marks each.
init_used-IsFreeList :
    (n i : ℕ) (s : Phys) (xs : List ℕ)
    → ((q : ℕ) → i ≤ q → q < i + n → has q xs ≡ false)
    → IsFreeList s xs
    → IsFreeList (init_used n i s) xs
unfolding init_used
init_used-IsFreeList zero i s xs out f = f
init_used-IsFreeList (suc n) i s xs out f =
    init_used-IsFreeList n (i + 1) (mark_used i s) xs (λ q h k. out q (omega arith) (omega arith))
      (mark_used-IsFreeList i s xs (out i (omega arith) (omega arith)) f)

init_used-pp_ref :
    (n i q : ℕ) (s : Phys)
    → ((init_used n i s).pages q).pp_ref
      ≡ (if leb i q && ltb q (i + n) then 1 else (s.pages q).pp_ref)
unfolding init_used update
init_used-pp_ref zero i q s = ground arith
init_used-pp_ref (suc n) i q s = ground (arith, init_used-pp_ref n (i + 1) q (mark_used i s))

marked-pp_ref :
    (npages_basemem ext_mem q : ℕ) (t : Phys)
    → npages_basemem ≤ ext_mem
    → (if (q == 0) || (leb npages_basemem q && ltb q ext_mem)
        then ((init_used (ext_mem - npages_basemem) npages_basemem (mark_used 0 t)).pages q).pp_ref
        else 1)
      ≡ 1
unfolding update
marked-pp_ref npages_basemem ext_mem q t below =
    ground (arith, init_used-pp_ref (ext_mem - npages_basemem) npages_basemem q (mark_used 0 t))

-- what boot leaves: the free list `xs` and the counts of the pages that are not on it
pub record Booted (npages_basemem ext_mem : ℕ) (s s' : Phys) (xs : List ℕ) : Type 0 where
  pub free : IsFreeList s' xs
  pub exact :
      (q : ℕ) → has q xs ≡ (ltb 0 q && (ltb q s.npages && is_usable npages_basemem ext_mem q))
  pub reserved :
      (q : ℕ)
      → (if (q == 0) || (leb npages_basemem q && ltb q ext_mem) then (s'.pages q).pp_ref else 1) ≡ 1

-- Let the free list be empty, and the base memory be neither empty nor beyond `ext_mem`, where the
-- memory taken by the kernel ends. Then `page_init` leaves a well-formed list of exactly the pages
-- that are neither page 0, nor in the I/O hole, nor taken, and gives those a reference.
pub page_init-Booted :
    (npages_basemem ext_mem : ℕ) (s : Phys)
    → s.page_free_list ≡ none
    → 0 < npages_basemem
    → npages_basemem ≤ ext_mem
    → 0 < s.npages
    → (xs : List ℕ) × Booted npages_basemem ext_mem s (page_init npages_basemem ext_mem s) xs
unfolding page_init
page_init-Booted npages_basemem ext_mem s empty pos below room =
    let (xs, b) =
      init_free-Built npages_basemem ext_mem (s.npages - 1) 1 s.npages s [] (omega arith)
        (omega arith) (omega arith)
        (record { free = record { chain = empty; bounded = tt }; exact = λ q. ground arith }) in
    (
      xs,
      record {
        free =
            init_used-IsFreeList (ext_mem - npages_basemem) npages_basemem _ xs
              (λ q h k. ground (arith, b.exact q))
              (mark_used-IsFreeList 0 _ xs (ground (arith, b.exact 0)) b.free);
        exact = b.exact;
        reserved = λ q. marked-pp_ref npages_basemem ext_mem q _ below;
      },
    )
