-- ===== src/Kern/UserMem.antt =====
-- kern/pmap.c: user_mem_check, by which the kernel tests an address range that a user program
-- hands to it before it reads or writes there.
pub mod Range
mod Tests
use oscourse.Base.{
  ℕ, zero, suc, ◌+◌, ◌-◌, ◌*◌, ◌/◌, ◌%◌, ◌^◌, bit_and, Bool, true, false, ◌&&◌, Option, none, some,
  ltb, ◌==◌, if◌then◌else◌,
}
use oscourse.Base.Bits.{test_bit}
use oscourse.Kern.Pmap.{Phys}
use oscourse.Kern.Paging.{Slot, pte_p, pgdir_walk}

-- `ULIM`, above which addresses are the kernel's
abbrev pub ulim : ℕ
ulim = 0xef800000

-- `ROUNDDOWN(a, PGSIZE)` and `ROUNDUP(a, PGSIZE)` on 32 bits
abbrev pub round_down : ℕ → ℕ
round_down a = a % 2 ^ 32 / 2 ^ 12 * 2 ^ 12

abbrev pub round_up : ℕ → ℕ
round_up a = round_down (a + 2 ^ 12 - 1)

-- the negation of the condition under which `user_mem_check` reports an error
unfoldable pub allows : (perm i : ℕ) → Option Slot → Phys → Bool
allows perm i none s = false
allows perm i (some (f, k)) s =
    ltb i ulim && (test_bit (s.words f k) pte_p && (bit_and (s.words f k) perm == perm))

pub tested : (perm i : ℕ) → Option (Option Slot × Phys) → Option Bool
tested perm i none = none
tested perm i (some (slot, s)) = some (allows perm i slot s)

-- the test of one round; `none` is a panic of `pgdir_walk`
pub test_page : (pd perm i : ℕ) → Phys → Option Bool
unfolding tested
test_page pd perm i s = tested perm i (pgdir_walk pd i false s)

-- what a round at `i` ends with, given the rounds after it
pub end_round : (va i : ℕ) → Option (Option ℕ) → Option Bool → Option (Option ℕ)
end_round va i rest none = none
end_round va i rest (some true) = rest
end_round va i rest (some false) = some (some (if ltb i va then va else i))

-- the rounds `i`, `i + PGSIZE`, ... of the loop, `n` of them
pub check_from : (pd va perm n i : ℕ) → Phys → Option (Option ℕ)
unfolding test_page end_round
check_from pd va perm zero i s = some none
check_from pd va perm (suc n) i s =
    end_round va i (check_from pd va perm n (i + 2 ^ 12) s) (test_page pd perm i s)

-- `user_mem_check`: the inner `none` is 0, and `some a` is -E_FAULT with `user_mem_check_addr` set
-- to `a`. The loop goes from `begin` up to `end`, both multiples of PGSIZE below 2^32, so that its
-- counter does not wrap and it has `(end - begin) / PGSIZE` rounds.
unfoldable pub user_mem_check : (pd va len perm : ℕ) → Phys → Option (Option ℕ)
unfolding check_from
user_mem_check pd va len perm s =
    check_from pd va perm ((round_up (va + len) - round_down va) / 2 ^ 12) (round_down va) s
