-- ===== src/Kern/Pmap/Tests.antt =====
-- Runs of the page allocator, and its theorems at a memory of eight pages.
use oscourse.Base.{ℕ, ◌+◌, ◌≡◌, refl, none, some, List, [], ◌∷◌, arith, ◌==◌, if◌then◌else◌}
use oscourse.Kern.Pmap.{Phys, page_decref, page_init}
use oscourse.Kern.Pmap.FreeList.{IsFreeList, Released, released, page_decref-Released}
use oscourse.Kern.Pmap.Init.{Booted, page_init-Booted}

-- pages 3 and 5 are free, page 6 has one reference, the others two
abbrev memory : Phys
memory = record {
  npages = 8;
  pages = λ i.
      if i == 3
      then record { pp_link = some 5; pp_ref = 0 }
      else if i == 5
      then record { pp_link = none; pp_ref = 0 }
      else if i == 6
      then record { pp_link = none; pp_ref = 1 }
      else record { pp_link = none; pp_ref = 2 };
  page_free_list = some 3;
  words = λ f i. f + i;
}

memory-IsFreeList : IsFreeList memory (3 ∷ 5 ∷ [])
memory-IsFreeList = record {
  chain = (refl, refl, refl, (refl, refl, refl, refl));
  bounded = omega arith;
}

page_decref-Released_example :
    (page_decref 6 memory ≡ some (tt, released 6 memory))
    × Released memory 6 (3 ∷ 5 ∷ []) (released 6 memory)
page_decref-Released_example =
    page_decref-Released memory 6 (3 ∷ 5 ∷ []) memory-IsFreeList (record {
      inside = omega arith;
      out = refl;
      unlinked = refl;
      counted = omega arith;
      fits = omega arith;
    })

abbrev blank : Phys
blank = record {
  npages = 8;
  pages = λ i. record { pp_link = none; pp_ref = 0 };
  page_free_list = none;
  words = λ f i. 0;
}

page_init-Booted_example : (xs : List ℕ) × Booted 3 6 blank (page_init 3 6 blank) xs
page_init-Booted_example = page_init-Booted 3 6 blank refl (omega arith) (omega arith) (omega arith)

page_init_list : (page_init 3 6 blank).page_free_list ≡ some 7
unfolding page_init
page_init_list = refl
