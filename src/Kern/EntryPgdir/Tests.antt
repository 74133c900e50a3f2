-- ===== src/Kern/EntryPgdir/Tests.antt =====
-- The first page tables, loaded into the frames 1, 2 and 3.
use oscourse.Base.{ℕ, ◌+◌, ◌/◌, ◌^◌, ◌≡◌, refl, none, some, arith, ◌==◌, if◌then◌else◌}
use oscourse.Kern.Pmap.{Phys}
use oscourse.Kern.Paging.{page_lookup, ptx}
use oscourse.Kern.EntryPgdir.{kernbase, entry_pgdir, entry_pgtable0, entry_pgtable1}
use oscourse.Kern.EntryPgdir.Mapping.{IsLoaded, page_lookup-entry_pgdir}

abbrev memory : Phys
memory = record {
  npages = 2048;
  pages = λ i. record { pp_link = none; pp_ref = 0 };
  page_free_list = none;
  words = λ f i.
      if f == 1
      then entry_pgdir 2 3 i
      else if f == 2
      then entry_pgtable0 i
      else if f == 3
      then entry_pgtable1 i
      else 0;
}

memory-IsLoaded : IsLoaded memory 1 2 3
memory-IsLoaded = record {
  directory = λ d. refl;
  table0 = λ i. refl;
  table1 = λ i. refl;
  tables_inside = omega arith;
  size = omega arith;
}

-- an address in the second table
page_lookup-entry_pgdir_example :
    (f : ℕ) × (page_lookup 1 (kernbase + 0x41_2345) memory
      ≡ some (some (0x41_2345 / 2 ^ 12, (f, ptx (kernbase + 0x41_2345))), memory))
page_lookup-entry_pgdir_example =
    page_lookup-entry_pgdir memory 1 2 3 0x41_2345 memory-IsLoaded (omega arith) (omega arith)
