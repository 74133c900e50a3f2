-- ===== src/User/Fork.antt =====
-- lib/fork.c: copy-on-write. Two programs, the one that forks and its child, map user pages by their
-- number; what physical pages hold is kept by page and index. A panic is `none`.
pub mod Isolation
mod Tests
use oscourse.Base.{
  ℕ, zero, suc, ◌+◌, Bool, true, false, not, ◌||◌, Option, none, some, List, [], ◌∷◌, if◌then◌else◌,
  update,
}

pub data Program : Type 0 where
  parent child : Program

-- an entry that is present and the user's: its page, and PTE_W, PTE_COW and PTE_SHARE
pub record Pte : Type 0 where
  pub frame : ℕ
  pub writable : Bool
  pub cow : Bool
  pub shared : Bool

-- `uvpt` of both programs, physical memory, and the pages that `sys_page_alloc` hands out next
pub record Machine : Type 0 where
  pub of_parent : ℕ → Option Pte
  pub of_child : ℕ → Option Pte
  pub memory : ℕ → ℕ → ℕ
  pub free_pages : List ℕ

abbrev pub uvpt : Program → Machine → ℕ → Option Pte
uvpt parent m = m.of_parent
uvpt child m = m.of_child

-- `sys_page_map` of a page that is mapped already, at `pn` of a program
abbrev pub map_at : Program → (pn : ℕ) → Pte → Machine → Machine
map_at parent pn p m = record m { of_parent = update m.of_parent pn (some p) }
map_at child pn p m = record m { of_child = update m.of_child pn (some p) }

-- PTE_COW | PTE_U | PTE_P, and PTE_U | PTE_P
abbrev pub as_cow : Pte → Pte
as_cow p = record { frame = p.frame; writable = false; cow = true; shared = false }

abbrev pub as_read : Pte → Pte
as_read p = record { frame = p.frame; writable = false; cow = false; shared = false }

-- `duppage` on the entry `p` of the parent. `refused`: the kernel has no memory for the child's page
-- table, on which the code panics but for a page that is only read.
unfoldable pub dup_entry : (refused : Bool) → (pn : ℕ) → Pte → Machine → Option Machine
dup_entry refused pn p m =
    if p.shared
    then if refused then none else some (map_at child pn p m)
    else if p.writable || p.cow
    then if refused then none else some (map_at parent pn (as_cow p) (map_at child pn (as_cow p) m))
    else some (if refused then m else map_at child pn (as_read p) m)

dup_mapped : (refused : Bool) → (pn : ℕ) → Option Pte → Machine → Option Machine
dup_mapped refused pn none m = some m
dup_mapped refused pn (some p) m = dup_entry refused pn p m

-- the rounds `pn`, `pn + 1`, ... of the loop of `fork`, `n` of them
pub dup_pages : (refuses : ℕ → Bool) → (n pn : ℕ) → Machine → Option Machine
unfolding dup_mapped
dup_pages refuses zero pn m = some m
dup_pages refuses (suc n) pn m = elim (dup_mapped (refuses pn) pn (m.of_parent pn) m) [
  | none ↦ none
  | some m' ↦ dup_pages refuses n (pn + 1) m'
]

-- `pgfault` on a write to the page `pn`, whose entry is `p`: the first free page becomes a copy
copy_page : Program → (pn : ℕ) → Pte → List ℕ → Machine → Option Machine
copy_page e pn p [] m = none
copy_page e pn p (q ∷ qs) m = some (
    map_at e pn (record { frame = q; writable = true; cow = false; shared = false })
      (record m { memory = update m.memory q (m.memory p.frame); free_pages = qs }))

unfoldable pub pgfault : Program → (pn : ℕ) → Option Pte → Machine → Option Machine
unfolding copy_page
pgfault e pn none m = none
pgfault e pn (some p) m = if not p.cow then none else copy_page e pn p m.free_pages m

abbrev pub can_write : Option Pte → Bool
can_write none = false
can_write (some p) = p.writable

store_word : Option Pte → (i v : ℕ) → Machine → Machine
store_word none i v m = m
store_word (some p) i v m = record m {
  memory = update m.memory p.frame (update (m.memory p.frame) i v);
}

store_in : Program → (pn i v : ℕ) → Option Machine → Option Machine
unfolding store_word
store_in e pn i v none = none
store_in e pn i v (some m) = some (store_word (uvpt e m pn) i v m)

-- a program's store to index `i` of the page `pn`, which faults first where the page is not writable
unfoldable pub store : Program → (pn i v : ℕ) → Machine → Option Machine
unfolding store_in pgfault
store e pn i v m =
    store_in e pn i v (if can_write (uvpt e m pn) then some m else pgfault e pn (uvpt e m pn) m)

-- what a program reads in the page `pn`
abbrev pub page_of : Option Pte → Machine → Option (ℕ → ℕ)
page_of none m = none
page_of (some p) m = some (m.memory p.frame)

abbrev pub seen : Program → (pn : ℕ) → Machine → Option (ℕ → ℕ)
seen e pn m = page_of (uvpt e m pn) m

abbrev pub other : Program → Program
other parent = child
other child = parent
