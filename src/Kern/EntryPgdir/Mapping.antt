-- ===== src/Kern/EntryPgdir/Mapping.antt =====
-- What the first page tables map.
use oscourse.Base.{
  ℕ, ◌+◌, ◌*◌, ◌/◌, ◌^◌, ◌≤◌, ◌<◌, ◌≡◌, false, some, arith, Bool-cases, inl, inr, ltb,
}
use oscourse.Base.Bits.{test_bit}
use oscourse.Kern.Pmap.{Phys}
use oscourse.Kern.Paging.{pdx, ptx, page_lookup}
use oscourse.Kern.Paging.Lookup.{IsMapped, page_lookup-IsMapped}
use oscourse.Kern.EntryPgdir.{kernbase, entry_pgdir, entry_pgtable0, entry_pgtable1}

-- The directory lies in the frame `pd`, the tables lie in `f0` and `f1`.
pub record IsLoaded (s : Phys) (pd f0 f1 : ℕ) : Type 0 where
  pub directory : (d : ℕ) → s.words pd d ≡ entry_pgdir f0 f1 d
  pub table0 : (i : ℕ) → s.words f0 i ≡ entry_pgtable0 i
  pub table1 : (i : ℕ) → s.words f1 i ≡ entry_pgtable1 i
  pub tables_inside : (f0 < s.npages) × (f1 < s.npages)
  pub size : 2048 ≤ s.npages

module _ (s : Phys) (pd f0 f1 : ℕ) (l : IsLoaded s pd f0 f1) where
  low-IsMapped : (va : ℕ) → 2 ^ 12 ≤ va → va < 2 ^ 22 → IsMapped s pd va f0 (va / 2 ^ 12)
  unfolding entry_pgdir entry_pgtable0 test_bit
  low-IsMapped va a b =
      let d : pdx va ≡ 0 = omega arith in
      let i : ptx va ≡ va / 2 ^ 12 = omega arith in
      let e : s.words pd (pdx va) ≡ f0 * 2 ^ 12 + 1 = ground (arith, l.directory (pdx va)) in
      let t : s.words f0 (ptx va) ≡ va / 2 ^ 12 * 2 ^ 12 + 3 = ground (arith, l.table0 (ptx va)) in
      record {
        table = record {
          present = rw e (ground arith);
          frame = rw e (omega arith);
          inside = l.tables_inside.0;
        };
        present = rw t (ground arith);
        page = rw t (omega arith);
        inside = omega (arith, l.size);
      }

  kernel_low-IsMapped :
      (pa : ℕ) → 2 ^ 12 ≤ pa → pa < 2 ^ 22 → IsMapped s pd (kernbase + pa) f0 (pa / 2 ^ 12)
  unfolding entry_pgdir entry_pgtable0 test_bit
  kernel_low-IsMapped pa a b =
      let d : pdx (kernbase + pa) ≡ 960 = omega arith in
      let i : ptx (kernbase + pa) ≡ pa / 2 ^ 12 = omega arith in
      let e : s.words pd (pdx (kernbase + pa)) ≡ f0 * 2 ^ 12 + 3 =
        ground (arith, l.directory (pdx (kernbase + pa))) in
      let t : s.words f0 (ptx (kernbase + pa)) ≡ pa / 2 ^ 12 * 2 ^ 12 + 3 =
        ground (arith, l.table0 (ptx (kernbase + pa))) in
      record {
        table = record {
          present = rw e (ground arith);
          frame = rw e (omega arith);
          inside = l.tables_inside.0;
        };
        present = rw t (ground arith);
        page = rw t (omega arith);
        inside = omega (arith, l.size);
      }

  kernel_high-IsMapped :
      (pa : ℕ) → 2 ^ 22 ≤ pa → pa < 2 ^ 23 → IsMapped s pd (kernbase + pa) f1 (pa / 2 ^ 12)
  unfolding entry_pgdir entry_pgtable1 test_bit
  kernel_high-IsMapped pa a b =
      let d : pdx (kernbase + pa) ≡ 961 = omega arith in
      let i : 1024 + ptx (kernbase + pa) ≡ pa / 2 ^ 12 = omega arith in
      let e : s.words pd (pdx (kernbase + pa)) ≡ f1 * 2 ^ 12 + 3 =
        ground (arith, l.directory (pdx (kernbase + pa))) in
      let t : s.words f1 (ptx (kernbase + pa)) ≡ pa / 2 ^ 12 * 2 ^ 12 + 3 =
        ground (arith, l.table1 (ptx (kernbase + pa))) in
      record {
        table = record {
          present = rw e (ground arith);
          frame = rw e (omega arith);
          inside = l.tables_inside.1;
        };
        present = rw t (ground arith);
        page = rw t (omega arith);
        inside = omega (arith, l.size);
      }

-- The first page of the kernel's addresses is not mapped.
page_lookup-first :
    (s : Phys) (pd f0 f1 : ℕ) → IsLoaded s pd f0 f1 → test_bit (s.words f0 (ptx kernbase)) 0 ≡ false
unfolding entry_pgtable0 test_bit
page_lookup-first s pd f0 f1 l = ground (arith, l.table0 0)

-- Through the directory that the kernel starts with, the addresses from KERNBASE + 4 KB up to
-- KERNBASE + 8 MB lead to the physical pages from 4 KB up to 8 MB, in this order.
pub page_lookup-entry_pgdir :
    (s : Phys) (pd f0 f1 pa : ℕ)
    → IsLoaded s pd f0 f1
    → 2 ^ 12 ≤ pa
    → pa < 2 ^ 23
    → (f : ℕ) × (page_lookup pd (kernbase + pa) s
        ≡ some (some (pa / 2 ^ 12, (f, ptx (kernbase + pa))), s))
page_lookup-entry_pgdir s pd f0 f1 pa l a b = elim (Bool-cases (ltb pa (2 ^ 22))) [
  | inl low ↦ (
    f0,
    page_lookup-IsMapped s pd (kernbase + pa) f0 (pa / 2 ^ 12)
        (kernel_low-IsMapped s pd f0 f1 l pa a (ground arith)),
  )
  | inr high ↦ (
    f1,
    page_lookup-IsMapped s pd (kernbase + pa) f1 (pa / 2 ^ 12)
        (kernel_high-IsMapped s pd f0 f1 l pa (ground arith) b),
  )
]

-- The addresses from 4 KB up to 4 MB lead to themselves.
pub page_lookup-low :
    (s : Phys) (pd f0 f1 pa : ℕ)
    → IsLoaded s pd f0 f1
    → 2 ^ 12 ≤ pa
    → pa < 2 ^ 22
    → page_lookup pd pa s ≡ some (some (pa / 2 ^ 12, (f0, ptx pa)), s)
page_lookup-low s pd f0 f1 pa l a b =
    page_lookup-IsMapped s pd pa f0 (pa / 2 ^ 12) (low-IsMapped s pd f0 f1 l pa a b)
