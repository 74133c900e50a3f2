-- ===== src/Kern/Paging/Insert.antt =====
-- Mapping and unmapping a page: `page_remove` and `page_insert` in an address space whose table for
-- `va` is present.
use oscourse.Base.{
  ℕ, ◌+◌, ◌^◌, ◌≤◌, ◌<◌, ◌≡◌, ap, sym, ◌∙◌, ◌≢◌, Bool, true, false, ◌&&◌, Option, ==_iff, none,
  some, List, arith, ◌==◌, if◌then◌else◌, update, update_self, update_ne,
}
use oscourse.Base.Bits.{test_bit}
use oscourse.Kern.Pmap.{Phys, >>=-ok, set_word, add_ref, page_decref}
use oscourse.Kern.Pmap.FreeList.{
  has, IsFreeList, IsChain-update, IsInUse, released, page_decref-Released,
}
use oscourse.Kern.Paging.{
  ptx, page_entry, pgdir_walk, page_lookup, page_remove, page_insert, remove_found, insert_at,
  clear_present,
}
use oscourse.Kern.Paging.Lookup.{
  HasTable, pgdir_walk-HasTable, IsMapped, page_lookup-IsMapped, pgnum-page_entry,
  test_bit-page_entry,
}

pub page_remove-IsMapped :
    (s : Phys) (pd va f pg : ℕ) (xs : List ℕ)
    → IsMapped s pd va f pg
    → IsFreeList s xs
    → IsInUse s xs pg
    → page_remove pd va s ≡ some (tt, set_word (released pg s) f (ptx va) 0)
unfolding page_remove
page_remove-IsMapped s pd va f pg xs m free used =
    >>=-ok (page_lookup pd va) remove_found s (page_lookup-IsMapped s pd va f pg m)
    ∙ >>=-ok (page_decref pg) _ s (page_decref-Released s pg xs free used).0

pub add_ref-HasTable :
    (s : Phys) (pp pd va f : ℕ) → HasTable s pd va f → HasTable (add_ref pp s) pd va f
add_ref-HasTable s pp pd va f t = record { present = t.present; frame = t.frame; inside = t.inside }

add_ref-IsMapped :
    (s : Phys) (pp pd va f pg : ℕ) → IsMapped s pd va f pg → IsMapped (add_ref pp s) pd va f pg
add_ref-IsMapped s pp pd va f pg m = record {
  table = add_ref-HasTable s pp pd va f m.table;
  present = m.present;
  page = m.page;
  inside = m.inside;
}

pub insert_at-free :
    (t : Phys) (pd pp va perm f : ℕ)
    → test_bit (t.words f (ptx va)) 0 ≡ false
    → insert_at pd pp va perm (some (f, ptx va)) t
      ≡ some (true, set_word (add_ref pp t) f (ptx va) (page_entry pp perm))
unfolding page_insert
insert_at-free t pd pp va perm f e =
    >>=-ok (clear_present pd va (f, ptx va)) _ (add_ref pp t) (rw e)

insert_free :
    (s : Phys) (pd pp va perm f : ℕ)
    → HasTable s pd va f
    → test_bit (s.words f (ptx va)) 0 ≡ false
    → page_insert pd pp va perm s
      ≡ some (true, set_word (add_ref pp s) f (ptx va) (page_entry pp perm))
unfolding page_insert
insert_free s pd pp va perm f t e =
    >>=-ok (pgdir_walk pd va true) (insert_at pd pp va perm) s
      (pgdir_walk-HasTable s pd va f true t)
    ∙ insert_at-free s pd pp va perm f e

pub insert_over :
    (s : Phys) (pd pp va perm f old : ℕ) (xs : List ℕ)
    → IsMapped s pd va f old
    → IsFreeList (add_ref pp s) xs
    → IsInUse (add_ref pp s) xs old
    → page_insert pd pp va perm s
      ≡ some (
        true,
        set_word
            (set_word (released old (add_ref pp s)) f (ptx va) 0)
            f
            (ptx va)
            (page_entry pp perm),
      )
unfolding page_insert
insert_over s pd pp va perm f old xs m free used =
    >>=-ok (pgdir_walk pd va true) (insert_at pd pp va perm) s
      (pgdir_walk-HasTable s pd va f true m.table)
    ∙ >>=-ok (clear_present pd va (f, ptx va)) _ (add_ref pp s) (
        rw m.present (
          page_remove-IsMapped (add_ref pp s) pd va f old xs (add_ref-IsMapped s pp pd va f old m)
            free used))

-- a page that a new reference may be given to
pub record CanRefer (s : Phys) (xs : List ℕ) (pp : ℕ) : Type 0 where
  pub inside : pp < s.npages
  pub out : has pp xs ≡ false
  pub room : (s.pages pp).pp_ref + 1 < 2 ^ 16

-- one reference if the test holds
abbrev pub one_if : Bool → ℕ
one_if b = if b then 1 else 0

abbrev pub is_old : ℕ → Option ℕ → Bool
is_old q none = false
is_old q (some old) = q == old

-- What mapping `pp` at `va` leaves, where the slot mapped `old` before: a lookup finds `pp`, only
-- that one entry is written, `pp` gains a reference and `old` loses one (none does if they are the
-- same page), and `old` joins the free pages `xs` if that was its last.
pub record Inserted (s s' : Phys) (pd pp va perm f : ℕ) (old : Option ℕ) : Type 0 where
  pub found : page_lookup pd va s' ≡ some (some (pp, (f, ptx va)), s')
  pub entries :
      (g j : ℕ)
      → s'.words g j ≡ (if (g == f) && (j == ptx va) then page_entry pp perm else s.words g j)
  pub counts :
      (q : ℕ) → (s'.pages q).pp_ref + one_if (is_old q old) ≡ (s.pages q).pp_ref + one_if (q == pp)

pub written-IsMapped :
    (t : Phys) (pd pp va perm f : ℕ)
    → HasTable t pd va f
    → f ≢ pd
    → pp < t.npages
    → t.npages ≤ 2 ^ 20
    → perm < 2 ^ 12
    → IsMapped (set_word t f (ptx va) (page_entry pp perm)) pd va f pp
written-IsMapped t pd pp va perm f table apart inside small fits =
    let dir =
      update_ne t.words f pd (update (t.words f) (ptx va) (page_entry pp perm))
        (λ e. apart (sym e)) in
    let wrote =
      ap (λ w. w (ptx va))
        (update_self t.words f (update (t.words f) (ptx va) (page_entry pp perm)))
      ∙ update_self (t.words f) (ptx va) (page_entry pp perm) in
    record {
      table = record {
        present = rw dir table.present;
        frame = rw dir table.frame;
        inside = table.inside;
      };
      present = rw wrote (test_bit-page_entry pp perm (omega arith) fits);
      page = rw wrote (pgnum-page_entry pp perm (omega arith) fits);
      inside = inside;
    }

pub written-entries :
    (words : ℕ → ℕ → ℕ) (f i w g j : ℕ)
    → update words f (update (words f) i w) g j ≡ (if (g == f) && (j == i) then w else words g j)
unfolding update
written-entries words f i w g j = ground (arith, ==_iff g f)

pub add_ref-counts :
    (s : Phys) (pp q : ℕ)
    → (s.pages pp).pp_ref + 1 < 2 ^ 16
    → ((add_ref pp s).pages q).pp_ref ≡ (s.pages q).pp_ref + one_if (q == pp)
unfolding update
add_ref-counts s pp q room = ground (arith, ==_iff q pp)

-- Let a present table, apart from the directory, not map `va`, and `pp` be off a well-formed free
-- list with room for one more reference. Then `page_insert` of `pp` succeeds: a lookup finds `pp`,
-- only that entry changes, only `pp` gains a reference, and the free list stays.
pub page_insert-unmapped :
    (s : Phys) (pd pp va perm f : ℕ) (xs : List ℕ)
    → HasTable s pd va f
    → test_bit (s.words f (ptx va)) 0 ≡ false
    → f ≢ pd
    → s.npages ≤ 2 ^ 20
    → perm < 2 ^ 12
    → IsFreeList s xs
    → CanRefer s xs pp
    → (s' : Phys) × (page_insert pd pp va perm s ≡ some (true, s'))
      × Inserted s s' pd pp va perm f none
      × IsFreeList s' xs
page_insert-unmapped s pd pp va perm f xs t e apart small fits free can =
    let s' = set_word (add_ref pp s) f (ptx va) (page_entry pp perm) in
    (
      s',
      insert_free s pd pp va perm f t e,
      record {
        found = page_lookup-IsMapped s' pd va f pp (
            written-IsMapped (add_ref pp s) pd pp va perm f (add_ref-HasTable s pp pd va f t) apart
              can.inside small fits);
        entries = written-entries s.words f (ptx va) (page_entry pp perm);
        counts = λ q. omega (arith, add_ref-counts s pp q can.room);
      },
      record {
        chain = IsChain-update s.pages pp _ s.page_free_list xs can.out free.chain;
        bounded = free.bounded;
      },
    )
