-- ===== src/Kern/Paging/Failure.antt =====
-- What `page_lookup` and a `page_insert` that fails leave: the memory as it was.
use oscourse.Base.{
  ℕ, ◌≡◌, inl, inr, refl, sym, ap, ◌∙◌, ◌≢◌, true, false, Option, none, some, arith, Bool-cases,
}
use oscourse.Base.Bits.{test_bit}
use oscourse.Kern.Pmap.{Phys, ◌>>◌, pure, page_alloc, alloc_from, add_ref, set_word}
use oscourse.Kern.Paging.{
  pdx, Slot, pgdir_walk, walk_table, walk_new, page_lookup, lookup_slot, page_insert, insert_at,
  clear_present, table_entry, store_slot, page_entry,
}

walk_table-keeps :
    (pd va : ℕ) (s t : Phys) (o : Option Slot) → walk_table pd va s ≡ some (o, t) → t ≡ s
unfolding walk_table
walk_table-keeps pd va s t o h = ground arith

walk_table-found : (pd va : ℕ) (s t : Phys) → walk_table pd va s ≢ some (none, t)
unfolding walk_table
walk_table-found pd va s t h = ground arith

walk_new-none :
    (pd va : ℕ) (s : Phys) (r : Option (Option ℕ × Phys)) (t : Phys)
    → ((m : Phys) → r ≡ some (none, m) → m ≡ s)
    → elim r [ none ↦ none | some (o, m) ↦ walk_new pd va o m ] ≡ some (none, t)
    → t ≡ s
unfolding walk_new
walk_new-none pd va s none t k h = ground arith
walk_new-none pd va s (some (none, m)) t k h = ground (arith, k m refl)
walk_new-none pd va s (some (some p, m)) t k h =
    absurd (walk_table-found pd va (set_word (add_ref p m) pd (pdx va) (table_entry p)) t h)

alloc_from-null :
    (s : Phys) (head : Option ℕ) (m : Phys) → alloc_from true s head ≡ some (none, m) → m ≡ s
unfolding alloc_from
alloc_from-null s none m h = ground arith
alloc_from-null s (some p) m h = ground arith

pgdir_walk-null : (pd va : ℕ) (s t : Phys) → pgdir_walk pd va true s ≡ some (none, t) → t ≡ s
unfolding pgdir_walk page_alloc
pgdir_walk-null pd va s t h = elim (Bool-cases (test_bit (s.words pd (pdx va)) 0)) [
  | inl e ↦ absurd (walk_table-found pd va s t (sym (rw e refl) ∙ h))
  | inr e ↦
      walk_new-none pd va s (page_alloc true s) t (λ m g. alloc_from-null s s.page_free_list m g)
        (sym (rw e refl) ∙ h)
]

pgdir_walk-read :
    (pd va : ℕ) (s t : Phys) (o : Option Slot) → pgdir_walk pd va false s ≡ some (o, t) → t ≡ s
unfolding pgdir_walk
pgdir_walk-read pd va s t o h = elim (Bool-cases (test_bit (s.words pd (pdx va)) 0)) [
  | inl e ↦ walk_table-keeps pd va s t o (sym (rw e refl) ∙ h)
  | inr e ↦ ground arith
]

lookup_slot-keeps :
    (s t : Phys) (slot : Option Slot) (o : Option (ℕ × Slot))
    → lookup_slot slot s ≡ some (o, t)
    → t ≡ s
unfolding lookup_slot
lookup_slot-keeps s t none o h = ground arith
lookup_slot-keeps s t (some (f, i)) o h = ground arith

looked_up :
    (s t : Phys) (r : Option (Option Slot × Phys)) (o : Option (ℕ × Slot))
    → ((slot : Option Slot) (m : Phys) → r ≡ some (slot, m) → m ≡ s)
    → elim r [ none ↦ none | some (slot, m) ↦ lookup_slot slot m ] ≡ some (o, t)
    → t ≡ s
looked_up s t none o k h = ground arith
looked_up s t (some (slot, m)) o k h = lookup_slot-keeps m t slot o h ∙ k slot m refl

-- A lookup only reads.
pub page_lookup-keeps :
    (pd va : ℕ) (s t : Phys) (o : Option (ℕ × Slot)) → page_lookup pd va s ≡ some (o, t) → t ≡ s
unfolding page_lookup
page_lookup-keeps pd va s t o h =
    looked_up s t (pgdir_walk pd va false s) o (λ slot m. pgdir_walk-read pd va s m slot) h

cleared-true :
    (slot : Slot) (w : ℕ) (r : Option (Unit {0} × Phys)) (t : Phys)
    → elim r [ none ↦ none | some (u, m) ↦ (store_slot slot w >> pure true) m ] ≢ some (false, t)
cleared-true (f, i) w none t h = ground arith
cleared-true (f, i) w (some (u, m)) t h = ground arith

insert_at-false :
    (pd pp va perm : ℕ) (slot : Option Slot) (m t : Phys)
    → insert_at pd pp va perm slot m ≡ some (false, t)
    → (slot ≡ none) × (t ≡ m)
unfolding insert_at
insert_at-false pd pp va perm none m t h = (refl, ground arith)
insert_at-false pd pp va perm (some slot) m t h =
    absurd (cleared-true slot (page_entry pp perm) (clear_present pd va slot (add_ref pp m)) t h)

inserted :
    (pd pp va perm : ℕ) (s t : Phys) (r : Option (Option Slot × Phys))
    → ((m : Phys) → r ≡ some (none, m) → m ≡ s)
    → elim r [ none ↦ none | some (slot, m) ↦ insert_at pd pp va perm slot m ] ≡ some (false, t)
    → t ≡ s
inserted pd pp va perm s t none k h = ground arith
inserted pd pp va perm s t (some (slot, m)) k h =
    let c = insert_at-false pd pp va perm slot m t h in c.1 ∙ k m (ap (λ o. some (o, m)) c.0)

-- `page_insert` changes nothing when it fails.
pub page_insert-false :
    (pd pp va perm : ℕ) (s t : Phys) → page_insert pd pp va perm s ≡ some (false, t) → t ≡ s
unfolding page_insert
page_insert-false pd pp va perm s t h =
    inserted pd pp va perm s t (pgdir_walk pd va true s) (λ m. pgdir_walk-null pd va s m) h
