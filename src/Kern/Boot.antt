-- ===== src/Kern/Boot.antt =====
-- kern/pmap.c and kern/env.c: memory that is handed out and mapped before the first environment runs.
pub mod Chunks
mod Tests
use oscourse.Base.{
  ℕ, zero, suc, ◌+◌, ◌-◌, ◌*◌, ◌/◌, ◌%◌, ◌^◌, bit_or, Bool, true, false, ◌&&◌, Option, none, some,
  ltb, leb, ◌==◌, if◌then◌else◌,
}
use oscourse.Base.Bits.{set_bit}
use oscourse.Kern.Pmap.{Phys, set_word, page_alloc}
use oscourse.Kern.Paging.{Slot, pte_p, pgdir_walk, page_insert}
use oscourse.Kern.UserMem.{round_down, round_up}
use oscourse.Kern.EntryPgdir.{kernbase}

-- `nextfree` at its first use, where the linker put `end` at `kernel_end`
abbrev pub first_free : (kernel_end nextfree : ℕ) → ℕ
first_free kernel_end nextfree = if nextfree == 0 then round_up kernel_end else nextfree

-- `boot_alloc`: the chunk, and `nextfree` after it; `none` is the panic. The addresses and the limit
-- are words.
unfoldable pub boot_alloc : (kernel_end npages n nextfree : ℕ) → Option (ℕ × ℕ)
boot_alloc kernel_end npages n nextfree =
    let f = first_free kernel_end nextfree in
    let next = (f + round_up n) % 2 ^ 32 in
    if n == 0
    then some (f, f)
    else if leb ((kernbase + npages * 2 ^ 12) % 2 ^ 32) next
    then none
    else some (f, next)

-- a store through the `pte_t *` that `pgdir_walk` returns, which faults on NULL, and what follows
map_slot : (entry : ℕ) → Option (Option Slot × Phys) → (Phys → Option Phys) → Option Phys
map_slot entry none k = none
map_slot entry (some (none, s)) k = none
map_slot entry (some (some (f, i), s)) k = k (set_word s f i entry)

-- the rounds of `boot_map_region` from the offset `i` on, `n` of them
pub map_pages : (pd va pa perm n i : ℕ) → Phys → Option Phys
unfolding map_slot
map_pages pd va pa perm zero i s = some s
map_pages pd va pa perm (suc n) i s =
    map_slot (bit_or ((pa + i) % 2 ^ 32) (set_bit perm pte_p))
      (pgdir_walk pd ((va + i) % 2 ^ 32) true s) (map_pages pd va pa perm n (i + 2 ^ 12))

-- `boot_map_region`, for a size up to the last page of the address space
unfoldable pub boot_map_region : (pd va size pa perm : ℕ) → Phys → Option Phys
unfolding map_pages
boot_map_region pd va size pa perm s = map_pages pd va pa perm ((size + 2 ^ 12 - 1) / 2 ^ 12) 0 s

-- the result of `page_insert`, which is not looked at, and what follows
inserted : Option (Bool × Phys) → (Phys → Option Phys) → Option Phys
inserted none k = none
inserted (some (b, s)) k = k s

-- a round of `region_alloc` with what `page_alloc` returned
alloc_one : (pd va : ℕ) → Option (Option ℕ × Phys) → (Phys → Option Phys) → Option Phys
unfolding inserted
alloc_one pd va none k = none
alloc_one pd va (some (none, s)) k = none
alloc_one pd va (some (some p, s)) k = inserted (page_insert pd p va 6 s) k

-- the rounds of `region_alloc` from `va` on, `n` of them
pub alloc_pages : (pd n va : ℕ) → Phys → Option Phys
unfolding alloc_one
alloc_pages pd zero va s = some s
alloc_pages pd (suc n) va s = alloc_one pd va (page_alloc false s) (alloc_pages pd n (va + 2 ^ 12))

-- `region_alloc` for an environment with the directory `pd`; `none` is the panic
unfoldable pub region_alloc : (pd va len : ℕ) → Phys → Option Phys
unfolding alloc_pages
region_alloc pd va len s =
    alloc_pages pd ((round_up (va + len) - round_down va) / 2 ^ 12) (round_down va) s
