-- ===== src/Kern/Paging/NewTable.antt =====
-- Mapping a page where the directory has no table yet: `pgdir_walk` allocates one, and
-- `page_insert` reports -E_NO_MEM when no page is left for it.
use oscourse.Base.{
  ℕ, ◌+◌, ◌^◌, ◌≤◌, ◌<◌, ◌≡◌, ap, ◌∙◌, ◌≢◌, true, false, some, List, [], ◌∷◌, arith, ==_iff,
  ==_refl, lt→ltb, update, update_self, update_ne,
}
use oscourse.Base.Bits.{test_bit}
use oscourse.Kern.Pmap.{Phys, ◌>>=◌, >>=-ok, set_word, add_ref, page_alloc}
use oscourse.Kern.Pmap.FreeList.{
  IsFreeList, IsChain-update, Allocated, page_alloc-cons, page_alloc-nil,
}
use oscourse.Kern.Paging.{
  pdx, ptx, page_entry, table_entry, pgdir_walk, page_lookup, page_insert, walk_new, walk_table,
  insert_at,
}
use oscourse.Kern.Paging.Lookup.{
  HasTable, page_lookup-IsMapped, pgnum-table_entry, test_bit-table_entry,
}
use oscourse.Kern.Paging.Insert.{CanRefer, insert_at-free, written-IsMapped, add_ref-HasTable}

-- the state after a new table `p` has been entered in the directory
abbrev entered : (pd va p : ℕ) → Phys → Phys
entered pd va p s = set_word (add_ref p s) pd (pdx va) (table_entry p)

entered-HasTable :
    (s : Phys) (pd va p : ℕ)
    → p < s.npages
    → s.npages ≤ 2 ^ 20
    → HasTable (entered pd va p s) pd va p
entered-HasTable s pd va p inside small =
    let wrote =
      ap (λ w. w (pdx va)) (update_self s.words pd (update (s.words pd) (pdx va) (table_entry p)))
      ∙ update_self (s.words pd) (pdx va) (table_entry p) in
    record {
      present = rw wrote (test_bit-table_entry p (omega arith));
      frame = rw wrote (pgnum-table_entry p (omega arith));
      inside = inside;
    }

walk_new-entered :
    (s : Phys) (pd va p : ℕ)
    → p < s.npages
    → s.npages ≤ 2 ^ 20
    → walk_new pd va (some p) s ≡ some (some (p, ptx va), entered pd va p s)
unfolding walk_new walk_table
walk_new-entered s pd va p inside small =
    let t = entered-HasTable s pd va p inside small in rw (t.frame, lt→ltb p s.npages inside)

pgdir_walk-create :
    (s : Phys) (pd va : ℕ)
    → test_bit (s.words pd (pdx va)) 0 ≡ false
    → pgdir_walk pd va true s ≡ (page_alloc true >>= walk_new pd va) s
unfolding pgdir_walk
pgdir_walk-create s pd va absent = rw absent

-- the counts of the table and of the page after both have been given a reference
table_counts :
    (s s1 : Phys) (p pp : ℕ) (xs : List ℕ)
    → IsFreeList s (p ∷ xs)
    → Allocated s s1 true p xs
    → CanRefer s (p ∷ xs) pp
    → let s2 = add_ref pp (add_ref p s1) in
      ((s2.pages p).pp_ref ≡ 1) × ((s2.pages pp).pp_ref ≡ (s.pages pp).pp_ref + 1)
unfolding update
table_counts s s1 p pp xs free a can =
    ground (arith, a.pages_after p, a.pages_after pp, can.out, can.room, ==_iff pp p)

-- Let the directory have no table for `va`, `p` be the first page of a well-formed free list and
-- not the directory, and `pp` be off the list with room for one more reference. Then `page_insert`
-- of `pp` succeeds: `p` is entered as a cleared table with one reference, a lookup finds `pp`, and
-- `pp` has one reference more.
pub page_insert-new_table :
    (s : Phys) (pd pp va perm p : ℕ) (xs : List ℕ)
    → test_bit (s.words pd (pdx va)) 0 ≡ false
    → IsFreeList s (p ∷ xs)
    → CanRefer s (p ∷ xs) pp
    → p ≢ pd
    → s.npages ≤ 2 ^ 20
    → perm < 2 ^ 12
    → (s' : Phys) × (page_insert pd pp va perm s ≡ some (true, s'))
      × (page_lookup pd va s' ≡ some (some (pp, (p, ptx va)), s'))
      × (s'.words p (ptx va) ≡ page_entry pp perm)
      × ((s'.pages p).pp_ref ≡ 1)
      × ((s'.pages pp).pp_ref ≡ (s.pages pp).pp_ref + 1)
      × IsFreeList s' xs
unfolding page_insert test_bit
page_insert-new_table s pd pp va perm p xs absent free can apart small fits =
    let got = page_alloc-cons s p xs true free in
    let s1 = got.0 in
    let a = got.2 in
    let t = entered pd va p s1 in
    let s' = set_word (add_ref pp t) p (ptx va) (page_entry pp perm) in
    let in1 : p < s1.npages = rw a.npages_kept free.bounded.0 in
    let small1 : s1.npages ≤ 2 ^ 20 = rw a.npages_kept small in
    let table = entered-HasTable s1 pd va p in1 small1 in
    let walked =
      pgdir_walk-create s pd va absent
      ∙ >>=-ok (page_alloc true) (walk_new pd va) s got.1
      ∙ walk_new-entered s1 pd va p in1 small1 in
    let blank : t.words p (ptx va) ≡ 0 =
      ap (λ w. w (ptx va)) (update_ne s1.words pd p _ apart)
      ∙ a.words_after p (ptx va)
      ∙ rw (==_refl p) in
    let counts = table_counts s s1 p pp xs free a can in
    (
      s',
      >>=-ok (pgdir_walk pd va true) (insert_at pd pp va perm) s walked
          ∙ insert_at-free t pd pp va perm p (rw blank),
      page_lookup-IsMapped s' pd va p pp (
          written-IsMapped (add_ref pp t) pd pp va perm p (add_ref-HasTable t pp pd va p table)
            apart (rw a.npages_kept can.inside) small1 fits),
      ap (λ w. w (ptx va)) (update_self t.words p _) ∙ update_self (t.words p) (ptx va) _,
      counts.0,
      counts.1,
      record {
        chain =
            IsChain-update (add_ref p s1).pages pp _ s1.page_free_list xs (ground (arith, can.out))
              (IsChain-update s1.pages p _ s1.page_free_list xs a.out a.rest.chain);
        bounded = a.rest.bounded;
      },
    )

-- With no table for `va` and no free page, `page_insert` reports -E_NO_MEM and changes nothing.
pub page_insert-no_mem :
    (s : Phys) (pd pp va perm : ℕ)
    → test_bit (s.words pd (pdx va)) 0 ≡ false
    → IsFreeList s []
    → page_insert pd pp va perm s ≡ some (false, s)
unfolding page_insert walk_new
page_insert-no_mem s pd pp va perm absent free =
    >>=-ok (pgdir_walk pd va true) (insert_at pd pp va perm) s (
      pgdir_walk-create s pd va absent
      ∙ >>=-ok (page_alloc true) (walk_new pd va) s (page_alloc-nil s true free))
