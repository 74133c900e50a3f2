-- ===== src/Kern/Pmap/DoubleFree.antt =====
-- How far the double-free check of `page_free` reaches.
use oscourse.Base.{
  ℕ, ◌≡◌, refl, fun_ext, true, false, Option, none, some, List, [], ◌∷◌, arith, ◌==◌, Bool-cases,
  ==_iff, inl, inr, update, update_self,
}
use oscourse.Kern.Pmap.{PageInfo, Phys, page_alloc, page_free, take_page}
use oscourse.Kern.Pmap.FreeList.{has, IsChain, IsFreeList}

-- every page of a chain is unreferenced
has-pp_ref :
    (pages : ℕ → PageInfo) (p : ℕ) (head : Option ℕ) (xs : List ℕ)
    → IsChain pages head xs
    → has p xs ≡ true
    → (pages p).pp_ref ≡ 0
has-pp_ref pages p head [] c h = cc
has-pp_ref pages p head (q ∷ xs) c h = elim (Bool-cases (p == q)) [
  | inl same ↦ rw ((==_iff p q).0 same) c.1
  | inr other ↦ has-pp_ref pages p (pages q).pp_link xs c.3 (ground arith)
]

-- The link that `page_free` writes goes with the page that `page_alloc` takes.
unlink_again :
    (pages : ℕ → PageInfo) (p : ℕ) (i : PageInfo)
    → (pages p).pp_link ≡ none
    → update (update pages p i) p (record { pp_link = none; pp_ref = (pages p).pp_ref }) ≡ pages
unfolding update
unlink_again pages p i last = fun_ext λ q. ground (arith, ==_iff q p)

-- Let a page be on a well-formed free list with a NULL link. Then `page_free` accepts it again,
-- and the next `page_alloc` hands it out while the list holds it as before.
pub page_free_last_twice :
    (s : Phys) (p : ℕ) (xs : List ℕ)
    → IsFreeList s xs
    → has p xs ≡ true
    → (s.pages p).pp_link ≡ none
    → (s' s'' : Phys) × (page_free p s ≡ some (tt, s'))
      × (page_alloc false s' ≡ some (some p, s''))
      × IsFreeList s'' xs
unfolding page_free page_alloc
page_free_last_twice s p xs f on last =
    let unused = has-pp_ref s.pages p s.page_free_list xs f.chain on in
    let s' : Phys = record s {
      pages = update s.pages p (record (s.pages p) { pp_link = s.page_free_list });
      page_free_list = some p;
    } in
    (
      s',
      take_page p s',
      rw (unused, last),
      refl,
      record {
        chain = rw (update_self, unlink_again s.pages p _ last) f.chain;
        bounded = f.bounded;
      },
    )
