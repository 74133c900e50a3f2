-- ===== src/Kern/Boot/Tests.antt =====
-- Memory at boot: a machine of 128 MB and one of 256 MB, and a region of two pages.
use oscourse.Base.{ℕ, ◌==◌, if◌then◌else◌, ◌≡◌, refl, Bool, Option, none, some}
use oscourse.Base.Bits.{test_bit, set_bit}
use oscourse.Kern.Pmap.{Phys}
use oscourse.Kern.Paging.{pgdir_walk}
use oscourse.Kern.Boot.{boot_alloc, boot_map_region}

first_chunk : boot_alloc 0xf011_2345 32768 0x1001 0 ≡ some (0xf011_3000, 0xf011_5000)
unfolding boot_alloc
first_chunk = refl

-- With 65536 pages or more the limit wraps to 0.
large_machine : boot_alloc 0xf011_2345 65536 0x1001 0 ≡ none
unfolding boot_alloc
large_machine = refl

-- directory in frame 1, its first table in frame 2
abbrev memory : Phys
memory = record {
  npages = 16;
  pages = λ i. record { pp_link = none; pp_ref = 1 };
  page_free_list = none;
  words = λ f i. if f == 1 then 0x2007 else 0;
}

abbrev word_of : Option Phys → (f i : ℕ) → ℕ
word_of none f i = 0
word_of (some s) f i = s.words f i

second_page : word_of (boot_map_region 1 0x3000 0x2000 0x8000 2 memory) 2 4 ≡ 0x9003
unfolding boot_map_region pgdir_walk test_bit set_bit oscourse.Base.update
second_page = refl
