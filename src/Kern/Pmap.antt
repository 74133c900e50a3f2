-- ===== src/Kern/Pmap.antt =====
-- kern/pmap.c: physical pages with their reference counts and free list, and two-level page
-- tables. A `struct PageInfo *` is its index in `pages`, which is also the frame's number; a page
-- directory or table is the frame that holds it. `none` as an outcome is a kernel panic.
pub mod FreeList
pub mod Init
pub mod DoubleFree
mod Tests
use oscourse.Base.{
  ℕ, zero, suc, ◌+◌, ◌-◌, ◌*◌, ◌/◌, ◌%◌, ◌^◌, bit_or, Bool, true, false, not, ◌&&◌, ◌||◌, Option,
  ◌≡◌, ap, none, some, ltb, leb, ◌==◌, if◌then◌else◌, update,
}
use oscourse.Base.Bits.{test_bit}

-- `struct PageInfo`
pub record PageInfo : Type 0 where
  pub pp_link : Option ℕ
  pub pp_ref : ℕ

-- the globals of pmap.c, and the words of physical memory by frame and index
pub record Phys : Type 0 where
  pub npages : ℕ
  pub pages : ℕ → PageInfo
  pub page_free_list : Option ℕ
  pub words : ℕ → ℕ → ℕ

abbrev pub M : Type 0 → Type 0
M A = Phys → Option (A × Phys)

infixl 5 ◌>>=◌ ◌>>◌
abbrev pub ◌>>=◌ : {A B : Type 0} → M A → (A → M B) → M B
◌>>=◌ m f s = elim (m s) [ none ↦ none | some (a, s') ↦ f a s' ]

abbrev pub ◌>>◌ : {B : Type 0} → M (Unit {0}) → M B → M B
m >> k = m >>= λ _. k

-- what follows a step that succeeds
abbrev continue_with : {A B : Type 0} → (A → M B) → Option (A × Phys) → Option (B × Phys)
continue_with f r = elim r [ none ↦ none | some (a, s') ↦ f a s' ]

pub >>=-ok :
    {A B : Type 0} (m : M A) (f : A → M B) (s : Phys) {a : A} {s' : Phys}
    → m s ≡ some (a, s')
    → (m >>= f) s ≡ f a s'
>>=-ok m f s e = ap (continue_with f) e

abbrev pub pure : {A : Type 0} → A → M A
pure a s = some (a, s)

abbrev pub panic : {A : Type 0} → M A
panic s = none

-- `pages[p] = i`
abbrev pub set_page : Phys → ℕ → PageInfo → Phys
set_page s p i = record s { pages = update s.pages p i }

-- the word at index `i` of frame `f`
abbrev pub set_word : Phys → ℕ → ℕ → ℕ → Phys
set_word s f i w = record s { words = update s.words f (update (s.words f) i w) }

-- `memset(page2kva(p), 0, PGSIZE)`
abbrev pub zero_page : ℕ → Phys → Phys
zero_page p s = record s { words = update s.words p (λ _. 0) }

-- The page taken off the list, its link cleared.
take_page : ℕ → Phys → Phys
take_page p s = record s {
  page_free_list = (s.pages p).pp_link;
  pages = update s.pages p (record (s.pages p) { pp_link = none });
}

-- The body of `page_alloc` for the head of the free list; the inner `none` is NULL.
-- `page2kva` panics on a frame that does not exist.
unfoldable pub alloc_from : Bool → Phys → Option ℕ → Option (Option ℕ × Phys)
unfolding take_page
alloc_from alloc_zero s none = some (none, s)
alloc_from false s (some p) = some (some p, take_page p s)
alloc_from true s (some p) =
    if ltb p s.npages then some (some p, zero_page p (take_page p s)) else none

-- `page_alloc`: the flag is `alloc_flags & ALLOC_ZERO`.
unfoldable pub page_alloc : Bool → M (Option ℕ)
unfolding alloc_from
page_alloc alloc_zero s = alloc_from alloc_zero s s.page_free_list

abbrev pub is_null : Option ℕ → Bool
is_null none = true
is_null (some p) = false

-- `pp->pp_link = page_free_list; page_free_list = pp`
unfoldable pub push_list : ℕ → Phys → Phys
push_list p s = record s {
  pages = update s.pages p (record (s.pages p) { pp_link = s.page_free_list });
  page_free_list = some p;
}

-- `page_free`
unfoldable pub page_free : ℕ → M (Unit {0})
unfolding push_list
page_free p s =
    if not ((s.pages p).pp_ref == 0) || not (is_null (s.pages p).pp_link)
    then none
    else some (tt, push_list p s)

-- `uint16_t` arithmetic of the reference count
abbrev pub inc16 : ℕ → ℕ
inc16 n = (n + 1) % 2 ^ 16

abbrev pub dec16 : ℕ → ℕ
dec16 n = (n + (2 ^ 16 - 1)) % 2 ^ 16

-- `--pp->pp_ref`
abbrev pub drop_ref : ℕ → Phys → Phys
drop_ref p s = set_page s p (record (s.pages p) { pp_ref = dec16 (s.pages p).pp_ref })

-- `pp->pp_ref++`
abbrev pub add_ref : ℕ → Phys → Phys
add_ref p s = set_page s p (record (s.pages p) { pp_ref = inc16 (s.pages p).pp_ref })

-- `page_decref`
unfoldable pub page_decref : ℕ → M (Unit {0})
page_decref p s =
    if dec16 (s.pages p).pp_ref == 0 then page_free p (drop_ref p s) else some (tt, drop_ref p s)

-- One round of the first loop of `page_init`: page `i` is free below the I/O hole and from the
-- first page that `boot_alloc` has not given out.
abbrev pub is_usable : (npages_basemem ext_mem i : ℕ) → Bool
is_usable npages_basemem ext_mem i = ltb i npages_basemem || leb ext_mem i

push_free : ℕ → Phys → Phys
push_free i s = record s {
  pages = update s.pages i (record { pp_link = s.page_free_list; pp_ref = 0 });
  page_free_list = some i;
}

-- the rounds `i`, `i + 1`, ... of that loop, `n` of them
init_free : (npages_basemem ext_mem n i : ℕ) → Phys → Phys
unfolding push_free
init_free npages_basemem ext_mem zero i s = s
init_free npages_basemem ext_mem (suc n) i s =
    init_free npages_basemem ext_mem n (i + 1)
      (if is_usable npages_basemem ext_mem i then push_free i s else s)

-- `pages[i].pp_ref = 1`
abbrev pub mark_used : ℕ → Phys → Phys
mark_used i s = set_page s i (record (s.pages i) { pp_ref = 1 })

-- the rounds `i`, `i + 1`, ... of the second loop
init_used : (n i : ℕ) → Phys → Phys
init_used zero i s = s
init_used (suc n) i s = init_used n (i + 1) (mark_used i s)

-- `page_init`, given `npages_basemem` and `PGNUM(PADDR(boot_alloc(0)))`
unfoldable pub page_init : (npages_basemem ext_mem : ℕ) → Phys → Phys
unfolding init_free init_used
page_init npages_basemem ext_mem s =
    init_used (ext_mem - npages_basemem) npages_basemem
      (mark_used 0 (init_free npages_basemem ext_mem (s.npages - 1) 1 s))
