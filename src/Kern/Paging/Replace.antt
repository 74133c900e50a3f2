-- ===== src/Kern/Paging/Replace.antt =====
-- Mapping a page over another one, the same page at the same address included.
use oscourse.Base.{
  ℕ, ◌+◌, ◌^◌, ◌≤◌, ◌<◌, ◌≡◌, ap, subst, ◌∙◌, sym, ◌≢◌, true, false, ◌&&◌, some, List, ◌∷◌, arith,
  ◌==◌, ==_iff, if◌then◌else◌, update, update_ne,
}
use oscourse.Kern.Pmap.{Phys, set_word, add_ref}
use oscourse.Kern.Pmap.FreeList.{
  has, IsFreeList, IsChain-update, IsInUse, Released, released, page_decref-Released,
}
use oscourse.Kern.Paging.{ptx, page_entry, page_insert}
use oscourse.Kern.Paging.Lookup.{HasTable, IsMapped, page_lookup-IsMapped}
use oscourse.Kern.Paging.Insert.{
  CanRefer, Inserted, one_if, insert_over, written-IsMapped, add_ref-counts,
}

add_ref-IsFreeList :
    (s : Phys) (pp : ℕ) (xs : List ℕ)
    → has pp xs ≡ false
    → IsFreeList s xs
    → IsFreeList (add_ref pp s) xs
add_ref-IsFreeList s pp xs out free = record {
  chain = IsChain-update s.pages pp _ s.page_free_list xs out free.chain;
  bounded = free.bounded;
}

add_ref-pp_link : (s : Phys) (pp q : ℕ) → ((add_ref pp s).pages q).pp_link ≡ (s.pages q).pp_link
unfolding update
add_ref-pp_link s pp q = ground (arith, ==_iff q pp)

add_ref-IsInUse :
    (s : Phys) (pp q : ℕ) (xs : List ℕ)
    → CanRefer s xs pp
    → IsInUse s xs q
    → IsInUse (add_ref pp s) xs q
add_ref-IsInUse s pp q xs can used = record {
  inside = used.inside;
  out = used.out;
  unlinked = add_ref-pp_link s pp q ∙ used.unlinked;
  counted = ground (arith, add_ref-counts s pp q can.room, used.counted);
  fits = ground (arith, add_ref-counts s pp q can.room, used.fits, can.room, ==_iff q pp);
}

-- A write beside the directory keeps the table of `va`.
set_word-HasTable :
    (t : Phys) (pd va f i w : ℕ) → HasTable t pd va f → f ≢ pd → HasTable (set_word t f i w) pd va f
set_word-HasTable t pd va f i w table apart =
    let dir = update_ne t.words f pd (update (t.words f) i w) (λ e. apart (sym e)) in
    record { present = rw dir table.present; frame = rw dir table.frame; inside = table.inside }

HasTable-of_words :
    (s t : Phys) (pd va f : ℕ)
    → t.words ≡ s.words
    → t.npages ≡ s.npages
    → HasTable s pd va f
    → HasTable t pd va f
HasTable-of_words s t pd va f e n table = record {
  present = rw e table.present;
  frame = rw e table.frame;
  inside = rw n table.inside;
}

rewritten-entries :
    (words : ℕ → ℕ → ℕ) (f i v w g j : ℕ)
    → update
        (update words f (update (words f) i v))
        f
        (update (update words f (update (words f) i v) f) i w)
        g
        j
      ≡ (if (g == f) && (j == i) then w else words g j)
unfolding update
rewritten-entries words f i v w g j = ground (arith, ==_iff g f)

set_word-IsFreeList :
    (t : Phys) (f i w : ℕ) (xs : List ℕ) → IsFreeList t xs → IsFreeList (set_word t f i w) xs
set_word-IsFreeList t f i w xs free = record { chain = free.chain; bounded = free.bounded }

-- The reference given to `pp` and the one taken from `old`, together.
moved-counts :
    (s t : Phys) (pp old q : ℕ) (xs : List ℕ)
    → CanRefer s xs pp
    → IsInUse s xs old
    → Released (add_ref pp s) old xs t
    → (t.pages q).pp_ref + one_if (q == old) ≡ (s.pages q).pp_ref + one_if (q == pp)
moved-counts s t pp old q xs can used r = ground (
  arith,
  r.counts q,
  add_ref-counts s pp q can.room,
  add_ref-counts s pp old can.room,
  used.counted,
  ==_iff q old,
)

-- Let a present table map `va` to the page `old` in use, the table be apart from the directory,
-- and `pp` be off the free list with room for one more reference. Then `page_insert` of `pp`
-- succeeds: `page_lookup` finds `pp`, no other entry changes, `pp` has one reference more and
-- `old` one less (none changes if they are the same), and `old` joins the free list exactly if
-- that was its last reference.
pub page_insert-replaces :
    (s : Phys) (pd pp va perm f old : ℕ) (xs : List ℕ)
    → IsMapped s pd va f old
    → f ≢ pd
    → s.npages ≤ 2 ^ 20
    → perm < 2 ^ 12
    → IsFreeList s xs
    → CanRefer s xs pp
    → IsInUse s xs old
    → (s' : Phys) × (page_insert pd pp va perm s ≡ some (true, s'))
      × Inserted s s' pd pp va perm f (some old)
      × IsFreeList s' (if (s.pages old).pp_ref + one_if (old == pp) == 1 then old ∷ xs else xs)
page_insert-replaces s pd pp va perm f old xs m apart small fits free can used =
    let free' = add_ref-IsFreeList s pp xs can.out free in
    let used' = add_ref-IsInUse s pp old xs can used in
    let t = released old (add_ref pp s) in
    let r = (page_decref-Released (add_ref pp s) old xs free' used').1 in
    let t1 = set_word t f (ptx va) 0 in
    let s' = set_word t1 f (ptx va) (page_entry pp perm) in
    let table = HasTable-of_words s t pd va f r.words_kept r.npages_kept m.table in
    (
      s',
      insert_over s pd pp va perm f old xs m free' used',
      record {
        found = page_lookup-IsMapped s' pd va f pp (
            written-IsMapped t1 pd pp va perm f (set_word-HasTable t pd va f (ptx va) 0 table apart)
              apart (rw r.npages_kept can.inside) (rw r.npages_kept small) fits);
        entries = λ g j.
            rewritten-entries t.words f (ptx va) 0 (page_entry pp perm) g j
            ∙ ap
                (λ (words : ℕ → ℕ → ℕ).
                  if (g == f) && (j == ptx va) then page_entry pp perm else words g j)
                r.words_kept;
        counts = λ q. moved-counts s t pp old q xs can used r;
      },
      subst (λ n. IsFreeList s' (if n == 1 then old ∷ xs else xs))
          (add_ref-counts s pp old can.room)
          (set_word-IsFreeList t1 f (ptx va) (page_entry pp perm) _
            (set_word-IsFreeList t f (ptx va) 0 _ r.free)),
    )
