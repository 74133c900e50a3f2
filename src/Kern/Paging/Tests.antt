-- ===== src/Kern/Paging/Tests.antt =====
-- The theorems on page tables at a memory of sixteen pages: frame 1 is a directory whose first
-- entry names the table in frame 2, which maps page 4 at 0x1000.
use oscourse.Base.{ℕ, ◌≡◌, refl, true, ◌&&◌, none, some, [], ◌∷◌, arith, ◌==◌, if◌then◌else◌}
use oscourse.Base.Bits.{test_bit}
use oscourse.Kern.Pmap.{PageInfo, Phys}
use oscourse.Kern.Pmap.FreeList.{IsFreeList}
use oscourse.Kern.Paging.{page_insert}
use oscourse.Kern.Paging.Lookup.{HasTable, IsMapped}
use oscourse.Kern.Paging.Insert.{CanRefer, Inserted}
use oscourse.Kern.Paging.Replace.{page_insert-replaces}

-- page 9 is free, page 4 has one reference, the others two
abbrev pages : ℕ → PageInfo
pages i =
    if i == 9
    then record { pp_link = none; pp_ref = 0 }
    else record { pp_link = none; pp_ref = if i == 4 then 1 else 2 }

abbrev words : ℕ → ℕ → ℕ
words f i = if (f == 1) && (i == 0) then 0x2007 else if (f == 2) && (i == 1) then 0x4007 else 0

abbrev memory : Phys
memory = record { npages = 16; pages = pages; page_free_list = some 9; words = words }

abbrev full : Phys
full = record { npages = 16; pages = pages; page_free_list = none; words = words }

memory-IsFreeList : IsFreeList memory (9 ∷ [])
memory-IsFreeList = record { chain = (refl, refl, refl, refl); bounded = omega arith }

full-IsFreeList : IsFreeList full []
full-IsFreeList = record { chain = refl; bounded = tt }

memory-CanRefer : CanRefer memory (9 ∷ []) 4
memory-CanRefer = record { inside = omega arith; out = refl; room = omega arith }

low-HasTable : (va : ℕ) → va ≡ 0x5000 → HasTable memory 1 va 2
unfolding test_bit
low-HasTable va e = rw e (record { present = refl; frame = refl; inside = omega arith })

low-IsMapped : IsMapped memory 1 0x1000 2 4
unfolding test_bit
low-IsMapped = record {
  table = record { present = refl; frame = refl; inside = omega arith };
  present = refl;
  page = refl;
  inside = omega arith;
}

-- Page 4 at its own address again: its count stays 1.
page_insert-replaces_example :
    (s' : Phys) × (page_insert 1 4 0x1000 5 memory ≡ some (true, s'))
    × Inserted memory s' 1 4 0x1000 5 2 (some 4)
    × IsFreeList s' (9 ∷ [])
page_insert-replaces_example =
    page_insert-replaces memory 1 4 0x1000 5 2 4 (9 ∷ []) low-IsMapped (omega arith) (omega arith)
      (omega arith) memory-IsFreeList memory-CanRefer
      (record {
        inside = omega arith;
        out = refl;
        unlinked = refl;
        counted = omega arith;
        fits = omega arith;
      })
