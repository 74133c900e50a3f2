-- ===== src/Kern/Pmap/FreeList.antt =====
-- The free list of kern/pmap.c: what `page_alloc`, `page_free` and `page_decref` do to it.
use oscourse.Base.{
  ℕ, ◌-◌, ◌<◌, ◌≡◌, refl, ap, ap₂, ==_iff, ◌∙◌, Bool, true, false, ◌||◌, Option, none, some, List,
  [], ◌∷◌, arith, ◌==◌, lt→ltb, Bool-cases, if◌then◌else◌, ◌&&◌, ◌^◌, inl, inr, update, update_self,
  All,
}
use oscourse.Kern.Pmap.{
  PageInfo, Phys, dec16, zero_page, page_alloc, alloc_from, page_free, page_decref, take_page,
  drop_ref, push_list,
}

abbrev pub has : ℕ → List ℕ → Bool
has p [] = false
has p (q ∷ xs) = (p == q) || has p xs

-- The links lead from `head` through the distinct unreferenced pages `xs` to NULL.
abbrev pub IsChain : (ℕ → PageInfo) → Option ℕ → List ℕ → Type 0
IsChain pages head [] = head ≡ none
IsChain pages head (p ∷ xs) =
    (head ≡ some p)
    × ((pages p).pp_ref ≡ 0)
    × (has p xs ≡ false)
    × IsChain pages (pages p).pp_link xs

pub record IsFreeList (s : Phys) (xs : List ℕ) : Type 0 where
  pub chain : IsChain s.pages s.page_free_list xs
  pub bounded : All (λ p. p < s.npages) xs

pub IsChain-update :
    (pages : ℕ → PageInfo) (p : ℕ) (i : PageInfo) (head : Option ℕ) (xs : List ℕ)
    → has p xs ≡ false
    → IsChain pages head xs
    → IsChain (update pages p i) head xs
unfolding update
IsChain-update pages p i head [] h c = c
IsChain-update pages p i head (q ∷ xs) h c =
    let e : (q == p) ≡ false = ground arith in
    rw e (c.0, c.1, c.2, IsChain-update pages p i (pages q).pp_link xs (ground arith) c.3)

-- a page that nothing refers to, off the list
abbrev page_info : Option ℕ → ℕ → PageInfo
page_info l n = record { pp_link = l; pp_ref = n }

abbrev pub idle : PageInfo
idle = record { pp_link = none; pp_ref = 0 }

-- What an allocation of `p` leaves: the other free pages, `p` idle and off the list, nothing else
-- changed but the contents of `p`, which are zero if that was asked for.
pub record Allocated (s s' : Phys) (zeroed : Bool) (p : ℕ) (xs : List ℕ) : Type 0 where
  pub rest : IsFreeList s' xs
  pub out : has p xs ≡ false
  pub pages_after : (q : ℕ) → s'.pages q ≡ update s.pages p idle q
  pub words_after : (q i : ℕ) → s'.words q i ≡ (if zeroed && (q == p) then 0 else s.words q i)
  pub npages_kept : s'.npages ≡ s.npages

take_page-rest :
    (s : Phys) (p : ℕ) (xs : List ℕ) → IsFreeList s (p ∷ xs) → IsFreeList (take_page p s) xs
unfolding take_page
take_page-rest s p xs f = record {
  chain = IsChain-update s.pages p _ (s.pages p).pp_link xs f.chain.2 f.chain.3;
  bounded = f.bounded.1;
}

take_page-pages :
    (s : Phys) (p : ℕ) (xs : List ℕ)
    → IsFreeList s (p ∷ xs)
    → (q : ℕ) → (take_page p s).pages q ≡ update s.pages p idle q
unfolding take_page update
take_page-pages s p xs f q = ground (arith, f.chain.1)

-- `page_alloc` on a well-formed free list that is not empty takes its first page, leaves a well-
-- formed list of the others, unlinks the page, clears its memory on request, and changes nothing
-- else.
pub page_alloc-cons :
    (s : Phys) (p : ℕ) (xs : List ℕ) (zeroed : Bool)
    → IsFreeList s (p ∷ xs)
    → (s' : Phys) × (page_alloc zeroed s ≡ some (some p, s')) × Allocated s s' zeroed p xs
unfolding page_alloc update
page_alloc-cons s p xs false f = (
  take_page p s,
  ap (alloc_from false s) f.chain.0,
  record {
    rest = take_page-rest s p xs f;
    out = f.chain.2;
    pages_after = take_page-pages s p xs f;
    words_after = λ q i. refl;
    npages_kept = refl;
  },
)
page_alloc-cons s p xs true f = (
  zero_page p (take_page p s),
  ap (alloc_from true s) f.chain.0 ∙ rw (lt→ltb p s.npages f.bounded.0),
  record {
    rest = record { chain = (take_page-rest s p xs f).chain; bounded = f.bounded.1 };
    out = f.chain.2;
    pages_after = take_page-pages s p xs f;
    words_after = λ q i. ground arith;
    npages_kept = refl;
  },
)

pub page_alloc-nil :
    (s : Phys) (zeroed : Bool) → IsFreeList s [] → page_alloc zeroed s ≡ some (none, s)
unfolding page_alloc
page_alloc-nil s zeroed f = ap (alloc_from zeroed s) f.chain

-- A page that no one refers to, and that is off the list, goes to the front.
pub page_free-cons :
    (s : Phys) (p : ℕ) (xs : List ℕ)
    → IsFreeList s xs
    → p < s.npages
    → has p xs ≡ false
    → s.pages p ≡ idle
    → (page_free p s ≡ some (tt, push_list p s)) × IsFreeList (push_list p s) (p ∷ xs)
unfolding page_free
page_free-cons s p xs f inside out unused = (
  rw unused,
  record {
    chain = (
      refl,
      rw update_self (ap (λ (i : PageInfo). i.pp_ref) unused),
      out,
      rw update_self (IsChain-update s.pages p _ s.page_free_list xs out f.chain),
    );
    bounded = (inside, f.bounded);
  },
)

drop_ref-pages :
    (s : Phys) (p : ℕ) (xs : List ℕ)
    → IsFreeList s xs
    → has p xs ≡ false
    → IsFreeList (drop_ref p s) xs
drop_ref-pages s p xs f out = record {
  chain = IsChain-update s.pages p _ s.page_free_list xs out f.chain;
  bounded = f.bounded;
}

page_decref-last :
    (s : Phys) (p : ℕ) → (s.pages p).pp_ref ≡ 1 → page_decref p s ≡ page_free p (drop_ref p s)
unfolding page_decref
page_decref-last s p e =
    let z : dec16 (s.pages p).pp_ref == 0 ≡ true = ground arith in
    ap (λ b. if b then page_free p (drop_ref p s) else some (tt, drop_ref p s)) z

page_decref-more :
    (s : Phys) (p : ℕ)
    → 1 < (s.pages p).pp_ref
    → (s.pages p).pp_ref < 2 ^ 16
    → page_decref p s ≡ some (tt, drop_ref p s)
unfolding page_decref
page_decref-more s p h k =
    let z : dec16 (s.pages p).pp_ref == 0 ≡ false = ground arith in
    ap (λ b. if b then page_free p (drop_ref p s) else some (tt, drop_ref p s)) z

drop_ref-idle :
    (s : Phys) (p : ℕ)
    → (s.pages p).pp_link ≡ none
    → (s.pages p).pp_ref ≡ 1
    → (drop_ref p s).pages p ≡ idle
drop_ref-idle s p unlinked e = update_self _ _ _ ∙ ap₂ page_info unlinked (omega arith)

-- one reference to `p` less, and `p` on the free list if that was the last
abbrev pub released : ℕ → Phys → Phys
released p s = if (s.pages p).pp_ref == 1 then push_list p (drop_ref p s) else drop_ref p s

-- a page that mappings refer to, and that is off the free list `xs`
pub record IsInUse (s : Phys) (xs : List ℕ) (p : ℕ) : Type 0 where
  pub inside : p < s.npages
  pub out : has p xs ≡ false
  pub unlinked : (s.pages p).pp_link ≡ none
  pub counted : 0 < (s.pages p).pp_ref
  pub fits : (s.pages p).pp_ref < 2 ^ 16

-- What `page_decref` leaves: one reference to `p` less, `p` on the free list exactly when that was
-- the last one, and every other count, the contents of memory and its size as before.
pub record Released (s : Phys) (p : ℕ) (xs : List ℕ) (s' : Phys) : Type 0 where
  pub free : IsFreeList s' (if (s.pages p).pp_ref == 1 then p ∷ xs else xs)
  pub counts :
      (q : ℕ)
      → (s'.pages q).pp_ref ≡ (if q == p then (s.pages p).pp_ref - 1 else (s.pages q).pp_ref)
  pub words_kept : s'.words ≡ s.words
  pub npages_kept : s'.npages ≡ s.npages

released-counts :
    (s : Phys) (p q : ℕ)
    → 0 < (s.pages p).pp_ref
    → (s.pages p).pp_ref < 2 ^ 16
    → ((released p s).pages q).pp_ref
      ≡ (if q == p then (s.pages p).pp_ref - 1 else (s.pages q).pp_ref)
unfolding push_list update
released-counts s p q used fits = ground (arith, ==_iff q p)

released-words : (s : Phys) (p : ℕ) → (released p s).words ≡ s.words
unfolding push_list
released-words s p = ground arith

released-npages : (s : Phys) (p : ℕ) → (released p s).npages ≡ s.npages
unfolding push_list
released-npages s p = ground arith

-- For a well-formed free list and a page in use, `page_decref` takes one reference of the page,
-- puts it on the list exactly if that was the last, keeps the list well formed, and changes no
-- other count and no memory.
pub page_decref-Released :
    (s : Phys) (p : ℕ) (xs : List ℕ)
    → IsFreeList s xs
    → IsInUse s xs p
    → (page_decref p s ≡ some (tt, released p s)) × Released s p xs (released p s)
page_decref-Released s p xs f u =
    let kept = drop_ref-pages s p xs f u.out in
    let rest =
      λ (free : IsFreeList (released p s) (if (s.pages p).pp_ref == 1 then p ∷ xs else xs)).
        let r : Released s p xs (released p s) = record {
          free = free;
          counts = λ q. released-counts s p q u.counted u.fits;
          words_kept = released-words s p;
          npages_kept = released-npages s p;
        } in
        r in
    elim (Bool-cases ((s.pages p).pp_ref == 1)) [
      | inl last ↦
          let one = (==_iff (s.pages p).pp_ref 1).0 last in
          let freed =
            page_free-cons (drop_ref p s) p xs kept u.inside u.out
              (drop_ref-idle s p u.unlinked one) in
          (page_decref-last s p one ∙ freed.0 ∙ rw last, rest (rw last freed.1))
      | inr more ↦ (page_decref-more s p (ground arith) u.fits ∙ rw more, rest (rw more kept))
    ]
