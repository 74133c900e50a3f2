-- ===== src/Kern/Paging/Lookup.antt =====
-- Reading page tables: `pgdir_walk` without allocation, `page_lookup` and what entries decode to.
use oscourse.Base.{
  ℕ, ◌+◌, ◌*◌, ◌^◌, ◌<◌, ◌≡◌, ◌∙◌, Bool, true, false, none, some, arith, lt→ltb, ltb, ltb→lt, ◌⊎◌,
  inl, inr, refl, Bool-cases,
}
use oscourse.Base.Bits.{test_bit, set_bit}
use oscourse.Base.BitOr.{bit_or-fields}
use oscourse.Kern.Pmap.{Phys, >>=-ok}
use oscourse.Kern.Paging.{
  pdx, ptx, pgnum, page2pa, page_entry, table_entry, walk_table, pgdir_walk, page_lookup,
  lookup_slot,
}

-- The directory entry for `va` is present and names the table in frame `f`.
pub record HasTable (s : Phys) (pd va f : ℕ) : Type 0 where
  pub present : test_bit (s.words pd (pdx va)) 0 ≡ true
  pub frame : pgnum (s.words pd (pdx va)) ≡ f
  pub inside : f < s.npages

pub pgdir_walk-HasTable :
    (s : Phys) (pd va f : ℕ) (create : Bool)
    → HasTable s pd va f
    → pgdir_walk pd va create s ≡ some (some (f, ptx va), s)
unfolding pgdir_walk walk_table
pgdir_walk-HasTable s pd va f create t = rw (t.present, t.frame, lt→ltb f s.npages t.inside)

-- What `pgdir_walk` that does not create comes to: a panic, no table, or the slot.
abbrev pub Walked : Phys → ℕ → ℕ → Type 0
Walked s pd va =
    (pgdir_walk pd va false s ≡ none)
    ⊎ ((pgdir_walk pd va false s ≡ some (none, s)) × (test_bit (s.words pd (pdx va)) 0 ≡ false))
    ⊎ ((f : ℕ) × HasTable s pd va f × (pgdir_walk pd va false s ≡ some (some (f, ptx va), s)))

pub pgdir_walk-Walked : (s : Phys) (pd va : ℕ) → Walked s pd va
unfolding pgdir_walk walk_table
pgdir_walk-Walked s pd va = elim (Bool-cases (test_bit (s.words pd (pdx va)) 0)) [
  | inl e ↦ elim (Bool-cases (ltb (pgnum (s.words pd (pdx va))) s.npages)) [
    | inl l ↦
        let t : HasTable s pd va (pgnum (s.words pd (pdx va))) = record {
          present = e;
          frame = refl;
          inside = ltb→lt _ _ l;
        } in
        inr (inr (pgnum (s.words pd (pdx va)), t, pgdir_walk-HasTable s pd va _ false t))
    | inr l ↦ inl (rw (e, l) refl)
  ]
  | inr e ↦ inr (inl (rw e refl, e))
]

-- The entry for `va` in that table is present and names the page `pg`.
pub record IsMapped (s : Phys) (pd va f pg : ℕ) : Type 0 where
  pub table : HasTable s pd va f
  pub present : test_bit (s.words f (ptx va)) 0 ≡ true
  pub page : pgnum (s.words f (ptx va)) ≡ pg
  pub inside : pg < s.npages

pub page_lookup-IsMapped :
    (s : Phys) (pd va f pg : ℕ)
    → IsMapped s pd va f pg
    → page_lookup pd va s ≡ some (some (pg, (f, ptx va)), s)
unfolding page_lookup
page_lookup-IsMapped s pd va f pg m =
    >>=-ok (pgdir_walk pd va false) lookup_slot s (pgdir_walk-HasTable s pd va f false m.table)
    ∙ (rw (m.present, m.page, lt→ltb pg s.npages m.inside))

pub page_lookup-unmapped :
    (s : Phys) (pd va f : ℕ)
    → HasTable s pd va f
    → test_bit (s.words f (ptx va)) 0 ≡ false
    → page_lookup pd va s ≡ some (none, s)
unfolding page_lookup
page_lookup-unmapped s pd va f t e =
    >>=-ok (pgdir_walk pd va false) lookup_slot s (pgdir_walk-HasTable s pd va f false t) ∙ rw e

set_bit-zero-lt : (w : ℕ) → w < 2 ^ 12 → set_bit w 0 < 2 ^ 12
unfolding set_bit
set_bit-zero-lt w h = omega arith

-- An entry that `page_insert` writes, as a sum.
pub page_entry-sum :
    (pp perm : ℕ) → pp < 2 ^ 20 → perm < 2 ^ 12 → page_entry pp perm ≡ pp * 2 ^ 12 + set_bit perm 0
page_entry-sum pp perm inside fits =
    let e : page2pa pp ≡ pp * 2 ^ 12 = omega arith in
    rw e (bit_or-fields 12 pp (set_bit perm 0) (set_bit-zero-lt perm fits))

table_entry-sum : (pg : ℕ) → pg < 2 ^ 20 → table_entry pg ≡ pg * 2 ^ 12 + 7
table_entry-sum pg inside =
    let e : page2pa pg ≡ pg * 2 ^ 12 = omega arith in rw e (bit_or-fields 12 pg 7 (omega arith))

pub pgnum-page_entry : (pp perm : ℕ) → pp < 2 ^ 20 → perm < 2 ^ 12 → pgnum (page_entry pp perm) ≡ pp
pgnum-page_entry pp perm inside fits =
    omega (arith, page_entry-sum pp perm inside fits, set_bit-zero-lt perm fits)

pub test_bit-page_entry :
    (pp perm : ℕ) → pp < 2 ^ 20 → perm < 2 ^ 12 → test_bit (page_entry pp perm) 0 ≡ true
unfolding test_bit set_bit
test_bit-page_entry pp perm inside fits = ground (arith, page_entry-sum pp perm inside fits)

pub pgnum-table_entry : (pg : ℕ) → pg < 2 ^ 20 → pgnum (table_entry pg) ≡ pg
pgnum-table_entry pg inside = omega (arith, table_entry-sum pg inside)

pub test_bit-table_entry : (pg : ℕ) → pg < 2 ^ 20 → test_bit (table_entry pg) 0 ≡ true
unfolding test_bit
test_bit-table_entry pg inside = ground (arith, table_entry-sum pg inside)
