-- ===== src/Kern/UserMem/Tests.antt =====
-- user_mem_check at a memory of sixteen pages: frame 1 is a directory whose first entry names the
-- table in frame 2, which maps page 4 at 0x1000 for user programs.
use oscourse.Base.{ℕ, ◌≡◌, refl, ◌&&◌, none, some, arith, ◌==◌, if◌then◌else◌}
use oscourse.Base.Bits.{test_bit}
use oscourse.Kern.Pmap.{PageInfo, Phys}
use oscourse.Kern.Paging.{pgdir_walk}
use oscourse.Kern.UserMem.{allows, user_mem_check}
use oscourse.Kern.UserMem.Range.{Accessible, user_mem_check-Accessible}

abbrev pages : ℕ → PageInfo
pages i = record { pp_link = none; pp_ref = 2 }

abbrev words : ℕ → ℕ → ℕ
words f i = if (f == 1) && (i == 0) then 0x2007 else if (f == 2) && (i == 1) then 0x4007 else 0

abbrev memory : Phys
memory = record { npages = 16; pages = pages; page_free_list = none; words = words }

inside : user_mem_check 1 0x1234 0x100 4 memory ≡ some none
unfolding user_mem_check test_bit pgdir_walk allows
inside = refl

across : user_mem_check 1 0x1ff0 0x20 4 memory ≡ some (some 0x2000)
unfolding user_mem_check test_bit pgdir_walk allows
across = refl

user_mem_check-Accessible_example : Accessible memory 1 4 0x1300
user_mem_check-Accessible_example =
    user_mem_check-Accessible memory 1 0x1234 0x100 4 0x1300 none (omega arith) inside (omega arith)
      (omega arith)
