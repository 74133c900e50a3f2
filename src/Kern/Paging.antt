-- ===== src/Kern/Paging.antt =====
-- kern/pmap.c: two-level page tables. A directory is named by the frame that holds it, and a
-- `pte_t *` by its frame and index. Flushing the TLB has no counterpart in the state.
pub mod Lookup
pub mod Failure
pub mod Insert
pub mod Replace
pub mod NewTable
mod Tests
use oscourse.Base.{
  ℕ, ◌+◌, ◌*◌, ◌/◌, ◌%◌, ◌^◌, bit_or, Bool, true, false, Option, none, some, ltb, ◌==◌,
  if◌then◌else◌,
}
use oscourse.Base.Bits.{test_bit, set_bit}
use oscourse.Kern.Pmap.{Phys, M, ◌>>=◌, ◌>>◌, pure, set_word, page_alloc, page_decref, add_ref}

-- `PDX`, `PTX`, `PGNUM` and `PGOFF` of inc/mmu.h
abbrev pub pdx : ℕ → ℕ
pdx va = va / 2 ^ 22 % 2 ^ 10

abbrev pub ptx : ℕ → ℕ
ptx va = va / 2 ^ 12 % 2 ^ 10

abbrev pub pgnum : ℕ → ℕ
pgnum pa = pa / 2 ^ 12

abbrev pub pgoff : ℕ → ℕ
pgoff va = va % 2 ^ 12

-- the places of `PTE_P`, `PTE_W` and `PTE_U`
abbrev pub pte_p : ℕ
pte_p = 0

abbrev pub pte_w : ℕ
pte_w = 1

abbrev pub pte_u : ℕ
pte_u = 2

-- `page2pa`
abbrev pub page2pa : ℕ → ℕ
page2pa p = p * 2 ^ 12 % 2 ^ 32

-- frame and index of a page-table entry
abbrev pub Slot : Type 0
Slot = ℕ × ℕ

-- `KADDR(PTE_ADDR(pde)) + PTX(va)`, with the panic of `KADDR`
walk_table : (pd va : ℕ) → M (Option Slot)
walk_table pd va s =
    if ltb (pgnum (s.words pd (pdx va))) s.npages
    then some (some (pgnum (s.words pd (pdx va)), ptx va), s)
    else none

-- The entry for a new page table: `page2pa(pg) | PTE_P | PTE_W | PTE_U`, whose flags are 7.
abbrev pub table_entry : ℕ → ℕ
table_entry pg = bit_or (page2pa pg) 7

-- what `pgdir_walk` does with the page that it asked for
pub walk_new : (pd va : ℕ) → Option ℕ → M (Option Slot)
unfolding walk_table
walk_new pd va none s = some (none, s)
walk_new pd va (some pg) s = walk_table pd va (set_word (add_ref pg s) pd (pdx va) (table_entry pg))

-- `pgdir_walk`; the inner `none` is NULL.
unfoldable pub pgdir_walk : (pd va : ℕ) → (create : Bool) → M (Option Slot)
unfolding walk_new
pgdir_walk pd va create s =
    if test_bit (s.words pd (pdx va)) pte_p
    then walk_table pd va s
    else if create
    then (page_alloc true >>= walk_new pd va) s
    else some (none, s)

-- `page_lookup` on the slot that `pgdir_walk` finds: the page mapped there, with the panic of
-- `pa2page`
lookup_slot : Option Slot → M (Option (ℕ × Slot))
lookup_slot none s = some (none, s)
lookup_slot (some (f, i)) s =
    if test_bit (s.words f i) pte_p
    then if ltb (pgnum (s.words f i)) s.npages
      then some (some (pgnum (s.words f i), (f, i)), s)
      else none
    else some (none, s)

-- `page_lookup`: the page at `va` and its slot, if there is one
unfoldable pub page_lookup : (pd va : ℕ) → M (Option (ℕ × Slot))
unfolding lookup_slot
page_lookup pd va = do slot ← pgdir_walk pd va false; lookup_slot slot

-- `*pte = w`
abbrev pub store_slot : Slot → ℕ → M (Unit {0})
store_slot (f, i) w s = some (tt, set_word s f i w)

-- the body of `page_remove` for what `page_lookup` finds; its second test of `PTE_P` repeats that
-- of `page_lookup`
remove_found : Option (ℕ × Slot) → M (Unit {0})
remove_found none = pure tt
remove_found (some (pg, slot)) = do page_decref pg; store_slot slot 0

-- `page_remove`
unfoldable pub page_remove : (pd va : ℕ) → M (Unit {0})
unfolding remove_found
page_remove pd va = do found ← page_lookup pd va; remove_found found

-- `page2pa(pp) | perm | PTE_P`
abbrev pub page_entry : (pp perm : ℕ) → ℕ
page_entry pp perm = bit_or (page2pa pp) (set_bit perm pte_p)

-- Unmaps what is at `va`, if the entry there is present.
clear_present : (pd va : ℕ) → Slot → M (Unit {0})
clear_present pd va (f, i) s =
    if test_bit (s.words f i) pte_p then page_remove pd va s else some (tt, s)

-- the part of `page_insert` behind the walk; `false` is -E_NO_MEM
pub insert_at : (pd pp va perm : ℕ) → Option Slot → M Bool
unfolding clear_present
insert_at pd pp va perm none = pure false
insert_at pd pp va perm (some slot) = λ s.
    (do clear_present pd va slot; store_slot slot (page_entry pp perm); pure true) (add_ref pp s)

-- `page_insert`
unfoldable pub page_insert : (pd pp va perm : ℕ) → M Bool
unfolding insert_at
page_insert pd pp va perm = do slot ← pgdir_walk pd va true; insert_at pd pp va perm slot
