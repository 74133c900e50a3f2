-- ===== src/User/Fork/Isolation.antt =====
-- After a page is duplicated, neither program sees what the other stores there.
use oscourse.Base.{
  ℕ, ◌≢◌, true, false, ◌||◌, some, List, ◌∷◌, if◌then◌else◌, update, update_self, update_ne, ◌≡◌,
  refl, sym, ap, ◌∙◌,
}
use oscourse.User.Fork.{
  Program, parent, child, Pte, Machine, uvpt, map_at, as_cow, dup_entry, copy_page, pgfault,
  can_write, store_word, store_in, store, page_of, seen, other,
}

uvpt-map_at : (e : Program) (pn : ℕ) (p : Pte) (m : Machine) → uvpt e (map_at e pn p m) pn ≡ some p
uvpt-map_at parent pn p m = update_self m.of_parent pn (some p)
uvpt-map_at child pn p m = update_self m.of_child pn (some p)

uvpt-other :
    (e : Program) (pn : ℕ) (p : Pte) (m : Machine)
    → uvpt (other e) (map_at e pn p m) pn ≡ uvpt (other e) m pn
uvpt-other parent pn p m = refl
uvpt-other child pn p m = refl

-- the writable entry of a copy
abbrev fresh_entry : ℕ → Pte
fresh_entry q = record { frame = q; writable = true; cow = false; shared = false }

abbrev with_copy : (q : ℕ) → List ℕ → Pte → Machine → Machine
with_copy q qs p m = record m { memory = update m.memory q (m.memory p.frame); free_pages = qs }

-- the machine when `pgfault` has copied the page
abbrev copied : (pn q : ℕ) → List ℕ → Pte → Program → Machine → Machine
copied pn q qs p e m = map_at e pn (fresh_entry q) (with_copy q qs p m)

-- what a copy of a page holds after a store, and what the page that was copied does
copy-stored :
    (memory : ℕ → ℕ → ℕ) (q f i v : ℕ)
    → update (update memory q (memory f)) q (update (update memory q (memory f) q) i v) q
      ≡ update (memory f) i v
copy-stored memory q f i v =
    update_self (update memory q (memory f)) q (update (update memory q (memory f) q) i v)
    ∙ ap (λ c. update c i v) (update_self memory q (memory f))

original-kept :
    (memory : ℕ → ℕ → ℕ) (q f i v : ℕ)
    → q ≢ f
    → update (update memory q (memory f)) q (update (update memory q (memory f) q) i v) f ≡ memory f
original-kept memory q f i v apart =
    update_ne (update memory q (memory f)) q f (update (update memory q (memory f) q) i v)
      (λ e. apart (sym e))
    ∙ update_ne memory q f (memory f) (λ e. apart (sym e))

seen-stored :
    (pn i v q : ℕ) (qs : List ℕ) (p : Pte) (e : Program) (m : Machine)
    → seen e pn (store_word (some (fresh_entry q)) i v (copied pn q qs p e m))
      ≡ some (update (m.memory p.frame) i v)
unfolding store_word
seen-stored pn i v q qs p parent m =
    ap (λ o. page_of o (store_word (some (fresh_entry q)) i v (copied pn q qs p parent m)))
      (update_self m.of_parent pn (some (fresh_entry q)))
    ∙ ap some (copy-stored m.memory q p.frame i v)
seen-stored pn i v q qs p child m =
    ap (λ o. page_of o (store_word (some (fresh_entry q)) i v (copied pn q qs p child m)))
      (update_self m.of_child pn (some (fresh_entry q)))
    ∙ ap some (copy-stored m.memory q p.frame i v)

seen-other :
    (pn i v q : ℕ) (qs : List ℕ) (p : Pte) (e : Program) (m : Machine)
    → uvpt (other e) m pn ≡ some p
    → q ≢ p.frame
    → seen (other e) pn (store_word (some (fresh_entry q)) i v (copied pn q qs p e m))
      ≡ some (m.memory p.frame)
unfolding store_word
seen-other pn i v q qs p parent m at apart =
    ap (λ o. page_of o (store_word (some (fresh_entry q)) i v (copied pn q qs p parent m))) at
    ∙ ap some (original-kept m.memory q p.frame i v apart)
seen-other pn i v q qs p child m at apart =
    ap (λ o. page_of o (store_word (some (fresh_entry q)) i v (copied pn q qs p child m))) at
    ∙ ap some (original-kept m.memory q p.frame i v apart)

-- A store to a copy-on-write page goes to the copy.
store-copied :
    (pn i v q : ℕ) (qs : List ℕ) (p : Pte) (e : Program) (m : Machine)
    → m.free_pages ≡ q ∷ qs
    → uvpt e m pn ≡ some (as_cow p)
    → store e pn i v m ≡ some (store_word (some (fresh_entry q)) i v (copied pn q qs p e m))
unfolding store store_in pgfault copy_page
store-copied pn i v q qs p e m next at =
    ap (λ o. store_in e pn i v (if can_write o then some m else pgfault e pn o m)) at
    ∙ ap (λ l. store_in e pn i v (copy_page e pn (as_cow p) l m)) next
    ∙ ap (λ o. some (store_word o i v (copied pn q qs p e m)))
        (uvpt-map_at e pn (fresh_entry q) (with_copy q qs p m))

both_mapped :
    (e : Program) (pn : ℕ) (p : Pte) (m : Machine)
    → uvpt e (map_at parent pn p (map_at child pn p m)) pn ≡ some p
both_mapped parent pn p m = update_self m.of_parent pn (some p)
both_mapped child pn p m = update_self m.of_child pn (some p)

-- Take an entry that is not shared and that is writable or copy-on-write, and let the kernel have
-- memory for the child's page table and the next free page be another than the entry's. Then
-- `duppage` on that entry of the parent succeeds, and so does a store by either program after it: the
-- program sees its store, and the other one sees what the page held before.
pub dup_entry-isolates :
    (e : Program) (pn i v q : ℕ) (qs : List ℕ) (p : Pte) (m : Machine)
    → p.shared ≡ false
    → (p.writable || p.cow) ≡ true
    → m.free_pages ≡ q ∷ qs
    → q ≢ p.frame
    → (m' m'' : Machine) × (dup_entry false pn p m ≡ some m')
      × (store e pn i v m' ≡ some m'')
      × (seen e pn m'' ≡ some (update (m.memory p.frame) i v))
      × (seen (other e) pn m'' ≡ some (m.memory p.frame))
unfolding dup_entry
dup_entry-isolates e pn i v q qs p m unshared copies next apart =
    let m' = map_at parent pn (as_cow p) (map_at child pn (as_cow p) m) in
    (
      m',
      store_word (some (fresh_entry q)) i v (copied pn q qs p e m'),
      rw (unshared, copies) refl,
      store-copied pn i v q qs p e m' next (both_mapped e pn (as_cow p) m),
      seen-stored pn i v q qs p e m',
      seen-other pn i v q qs (as_cow p) e m' (both_mapped (other e) pn (as_cow p) m) apart,
    )
