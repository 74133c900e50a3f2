-- ===== src/Kern/UserMem/Range.antt =====
-- What user_mem_check shows of a range: its addresses up to the one reported are accessible.
use oscourse.Base.{
  ℕ, zero, suc, ◌+◌, ◌-◌, ◌*◌, ◌/◌, ◌%◌, ◌^◌, ◌≤◌, ◌<◌, bit_and, Bool, true, false, Option, none,
  some, ltb, if◌then◌else◌, ◌≡◌, inl, inr, sym, ap, subst, ◌∙◌, arith, Bool-cases, Option-cases,
  ltb→le, ltb→lt,
}
use oscourse.Base.Bits.{test_bit}
use oscourse.Kern.Pmap.{Phys}
use oscourse.Kern.Paging.{pdx, ptx, pgnum, pgdir_walk}
use oscourse.Kern.Paging.Lookup.{HasTable, pgdir_walk-HasTable, pgdir_walk-Walked}
use oscourse.Kern.UserMem.{
  ulim, round_down, round_up, allows, tested, test_page, end_round, check_from, user_mem_check,
}

-- A user program may access the address `a` with permissions `perm`: it lies below ULIM, and a
-- present entry of a present table has them.
pub record Accessible (s : Phys) (pd perm a : ℕ) : Type 0 where
  pub table : ℕ
  pub below : a < ulim
  pub has_table : HasTable s pd a table
  pub present : test_bit (s.words table (ptx a)) 0 ≡ true
  pub permits : bit_and (s.words table (ptx a)) perm ≡ perm

-- the addresses that are shown to be accessible end here
abbrev pub stop : ℕ → Option ℕ → ℕ
stop last none = last
stop last (some a) = a

allows-split :
    (s : Phys) (perm i f k : ℕ)
    → allows perm i (some (f, k)) s ≡ true
    → (i < ulim) × (test_bit (s.words f k) 0 ≡ true) × (bit_and (s.words f k) perm ≡ perm)
unfolding allows
allows-split s perm i f k h = (ground arith, ground arith, ground arith)

-- the test of a page that has a table
test_page-HasTable :
    (s : Phys) (pd perm i f : ℕ)
    → pgdir_walk pd i false s ≡ some (some (f, ptx i), s)
    → test_page pd perm i s ≡ some (allows perm i (some (f, ptx i)) s)
unfolding test_page tested
test_page-HasTable s pd perm i f e = ap (tested perm i) e

test_page-Accessible :
    (s : Phys) (pd perm i : ℕ) → test_page pd perm i s ≡ some true → Accessible s pd perm i
unfolding test_page tested allows
test_page-Accessible s pd perm i h = elim (pgdir_walk-Walked s pd i) [
  | inl e ↦ absurd (ground (arith, sym (ap (tested perm i) e) ∙ h))
  | inr (inl (e, b)) ↦ absurd (ground (arith, sym (ap (tested perm i) e) ∙ h))
  | inr (inr (f, t, e)) ↦
      let g : allows perm i (some (f, ptx i)) s ≡ true =
        ground (arith, sym (test_page-HasTable s pd perm i f e) ∙ h) in
      let (below, present, permits) = allows-split s perm i f (ptx i) g in
      record { table = f; below = below; has_table = t; present = present; permits = permits }
]

-- a test that does not panic and fails
test_page-refuses :
    (s : Phys) (pd perm i : ℕ) → test_page pd perm i s ≡ some false → ¬ Accessible s pd perm i
unfolding allows
test_page-refuses s pd perm i h r =
    let e = pgdir_walk-HasTable s pd i r.table false r.has_table in
    let g = sym (test_page-HasTable s pd perm i r.table e) ∙ h in
    ground (arith, r.below, r.present, r.permits)

-- All addresses of a page have the same entries.
Accessible-same_page :
    (s : Phys) (pd perm i a : ℕ)
    → i / 2 ^ 12 ≡ a / 2 ^ 12
    → Accessible s pd perm i
    → Accessible s pd perm a
Accessible-same_page s pd perm i a e r =
    let d : pdx i ≡ pdx a = omega arith in
    let t : ptx i ≡ ptx a = omega arith in
    record {
      table = r.table;
      below = omega (arith, r.below);
      has_table = record {
        present = subst (λ k. test_bit (s.words pd k) 0 ≡ true) d r.has_table.present;
        frame = subst (λ k. pgnum (s.words pd k) ≡ r.table) d r.has_table.frame;
        inside = r.has_table.inside;
      };
      present = subst (λ k. test_bit (s.words r.table k) 0 ≡ true) t r.present;
      permits = subst (λ k. bit_and (s.words r.table k) perm ≡ perm) t r.permits;
    }

-- what a round does when its test gives `b`
check_from-suc :
    (s : Phys) (pd va perm n i : ℕ) (b : Option Bool)
    → test_page pd perm i s ≡ b
    → check_from pd va perm (suc n) i s ≡ end_round va i (check_from pd va perm n (i + 2 ^ 12) s) b
unfolding check_from
check_from-suc s pd va perm n i b e = ap (end_round va i (check_from pd va perm n (i + 2 ^ 12) s)) e

check_from-Accessible :
    (s : Phys) (pd va perm n i a : ℕ) (r : Option ℕ)
    → check_from pd va perm n i s ≡ some r
    → i % 2 ^ 12 ≡ 0
    → va ≤ a
    → i ≤ a
    → a < stop (i + n * 2 ^ 12) r
    → Accessible s pd perm a
unfolding check_from end_round
check_from-Accessible s pd va perm zero i a none h aligned from le lt = absurd (omega arith)
check_from-Accessible s pd va perm zero i a (some e) h aligned from le lt = absurd (ground arith)
check_from-Accessible s pd va perm (suc n) i a r h aligned from le lt =
    elim (Option-cases (test_page pd perm i s)) [
      | inl e ↦ absurd (ground (arith, sym (check_from-suc s pd va perm n i none e) ∙ h))
      | inr (true, e) ↦ elim (Bool-cases (ltb a (i + 2 ^ 12))) [
        | inl l ↦
            let same : i / 2 ^ 12 ≡ a / 2 ^ 12 = omega (arith, ltb→lt a (i + 2 ^ 12) l) in
            Accessible-same_page s pd perm i a same (test_page-Accessible s pd perm i e)
        | inr l ↦
            let last : i + suc n * 2 ^ 12 ≡ i + 2 ^ 12 + n * 2 ^ 12 = omega arith in
            check_from-Accessible s pd va perm n (i + 2 ^ 12) a r
              (sym (check_from-suc s pd va perm n i (some true) e) ∙ h) (omega arith) from
              (ltb→le a (i + 2 ^ 12) l) (subst (λ k. a < stop k r) last lt)
      ]
      | inr (false, e) ↦
          absurd (ground (arith, sym (check_from-suc s pd va perm n i (some false) e) ∙ h))
    ]

-- The test fails at `a`, whose page starts at `i`.
refused :
    (s : Phys) (pd perm i a : ℕ)
    → test_page pd perm i s ≡ some false
    → a / 2 ^ 12 ≡ i / 2 ^ 12
    → ¬ Accessible s pd perm a
refused s pd perm i a h e r =
    test_page-refuses s pd perm i h (Accessible-same_page s pd perm a i e r)

check_from-refused :
    (s : Phys) (pd va len perm n i e : ℕ)
    → check_from pd va perm n i s ≡ some (some e)
    → i % 2 ^ 12 ≡ 0
    → 0 < len
    → va < i + 2 ^ 12
    → i + n * 2 ^ 12 < va + len + 2 ^ 12
    → (va ≤ e) × (e < va + len) × (¬ Accessible s pd perm e)
unfolding check_from end_round
check_from-refused s pd va len perm zero i e h aligned some_bytes low high = absurd (ground arith)
check_from-refused s pd va len perm (suc n) i e h aligned some_bytes low high =
    elim (Option-cases (test_page pd perm i s)) [
      | inl t ↦ absurd (ground (arith, sym (check_from-suc s pd va perm n i none t) ∙ h))
      | inr (true, t) ↦
          check_from-refused s pd va len perm n (i + 2 ^ 12) e
            (sym (check_from-suc s pd va perm n i (some true) t) ∙ h) (omega arith) some_bytes
            (omega arith) (omega arith)
      | inr (false, t) ↦
          let g = sym (check_from-suc s pd va perm n i (some false) t) ∙ h in
          let at : e ≡ (if ltb i va then va else i) = ground (arith, g) in
          let page : e / 2 ^ 12 ≡ i / 2 ^ 12 = ground arith in
          (ground arith, ground arith, refused s pd perm i e t page)
    ]

-- If `va + len` rounded up to pages stays below 2^32 and `user_mem_check` does not panic, then every
-- address of the range, up to the first erroneous one if it reports one, is below ULIM and mapped
-- with the permissions asked for.
pub user_mem_check-Accessible :
    (s : Phys) (pd va len perm a : ℕ) (r : Option ℕ)
    → va + len + 2 ^ 12 ≤ 2 ^ 32
    → user_mem_check pd va len perm s ≡ some r
    → va ≤ a
    → a < stop (va + len) r
    → Accessible s pd perm a
unfolding user_mem_check
user_mem_check-Accessible s pd va len perm a none fits h from lt =
    check_from-Accessible s pd va perm _ (round_down va) a none h (omega arith) from (omega arith)
      (omega arith)
user_mem_check-Accessible s pd va len perm a (some e) fits h from lt =
    check_from-Accessible s pd va perm _ (round_down va) a (some e) h (omega arith) from
      (omega arith) lt

-- If a nonempty range, rounded up to pages, stays below 2^32 and `user_mem_check` reports an error,
-- then the address that it stores lies in the range and is not accessible.
pub user_mem_check-refused :
    (s : Phys) (pd va len perm e : ℕ)
    → 0 < len
    → va + len + 2 ^ 12 ≤ 2 ^ 32
    → user_mem_check pd va len perm s ≡ some (some e)
    → (va ≤ e) × (e < va + len) × (¬ Accessible s pd perm e)
unfolding user_mem_check
user_mem_check-refused s pd va len perm e some_bytes fits h =
    check_from-refused s pd va len perm _ (round_down va) e h (omega arith) some_bytes (omega arith)
      (omega arith)

-- If `va + len` reaches 2^32 and the range leaves at least a page, then `user_mem_check` permits it
-- whatever is mapped and whatever permissions are asked for, the kernel's memory included.
pub user_mem_check-wraps :
    (s : Phys) (pd va len perm : ℕ)
    → va < 2 ^ 32
    → 2 ^ 32 ≤ va + len
    → len + 2 ^ 12 ≤ 2 ^ 32
    → user_mem_check pd va len perm s ≡ some none
unfolding user_mem_check check_from
user_mem_check-wraps s pd va len perm inside over short =
    let n : (round_up (va + len) - round_down va) / 2 ^ 12 ≡ 0 = omega arith in
    ap (λ k. check_from pd va perm k (round_down va) s) n
