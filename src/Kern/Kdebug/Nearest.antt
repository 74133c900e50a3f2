-- ===== src/Kern/Kdebug/Nearest.antt =====
-- What `stab_binsearch` finds: the last entry of the type at or below the address.
use oscourse.Base.{
  ℕ, zero, suc, ◌+◌, ◌-◌, ◌*◌, ◌^◌, ◌≤◌, ◌<◌, ◌≡◌, ◌≢◌, refl, ap, ◌∙◌, false, ◌&&◌, some, arith,
  ltb, leb, ◌==◌, inl, inr,
}
use oscourse.Kern.Kdebug.{Stab, Region, Search, last_of, finished, finish, initial, stab_binsearch}
use oscourse.Kern.Kdebug.Progress.{Progress, search-Progress, initial-Progress}

-- `m` is the last entry of the type at or below the address, and `g` ends where the next entry of the
-- type begins, or with the region.
pub record Brackets (stabs : ℕ → Stab) (type addr e0 : ℕ) (g : Region) : Type 0 where
  pub left : ℕ
  pub at : g.left_next ≡ left + 1
  pub has_type : (stabs left).n_type ≡ type
  pub reached : (stabs left).n_value ≤ addr
  pub not_empty : (left < g.right_next) × (g.right_next ≤ e0)
  pub none_between :
      (j : ℕ) → (ltb left j && ltb j g.right_next && ((stabs j).n_type == type)) ≡ false
  pub beyond :
      (j : ℕ)
      → (leb g.right_next j && ltb j e0 && ((stabs j).n_type == type) && leb (stabs j).n_value addr)
        ≡ false

module _ (stabs : ℕ → Stab) (type addr l0 e0 : ℕ)
    (sorted : (i j : ℕ)
      → l0 ≤ i
      → i < j
      → j < e0
      → (stabs i).n_type ≡ type
      → (stabs j).n_type ≡ type
      → (stabs i).n_value ≤ (stabs j).n_value)
    (gap : (j : ℕ) → l0 ≤ j → j < e0 → (stabs j).n_type ≡ type → (stabs j).n_value ≢ addr + 1)
    (small : addr + 1 < 2 ^ 32) where
  last_of-none :
      (left_next k : ℕ)
      → ((j : ℕ) → left_next ≤ j → j < left_next + k → (stabs j).n_type ≢ type)
      → last_of stabs type left_next k ≡ left_next
  unfolding last_of
  last_of-none left_next zero n = refl
  last_of-none left_next (suc k) n =
      let e : ((stabs (left_next + k)).n_type == type) ≡ false =
        ground (arith, n (left_next + k)) in
      rw e (last_of-none left_next k (λ j a b. n j a (omega arith)))

  finished-Brackets :
      (t : Search) (k : ℕ)
      → l0 ≤ k
      → k < e0
      → (stabs k).n_type ≡ type
      → (stabs k).n_value ≤ addr
      → Progress stabs type addr l0 e0 sorted gap small t
      → t.r_next ≤ t.l
      → Brackets stabs type addr e0 (finished stabs type t)
  unfolding finished
  finished-Brackets t k a b c d p e = elim p.left_end [
    | inl n ↦ ground (arith, p.above k, n k a)
    | inr (m, at, has_type, low, from, to, any) ↦
        let inside : m < t.r_next = ground (arith, p.above m) in
        let u : ltb t.region.right_next t.region.left_next ≡ false = ground (arith, p.same_end) in
        let still : last_of stabs type t.region.left_next (t.region.right_next - t.region.left_next)
            ≡ t.region.left_next =
          last_of-none t.region.left_next (t.region.right_next - t.region.left_next)
            (λ j x y z. ground (arith, p.below j, p.same_end)) in
        rw (any, u)
          (record {
            left = m;
            at = still ∙ at;
            has_type = has_type;
            reached = low;
            not_empty = omega (arith, p.same_end, p.inside);
            none_between = λ j. ground (arith, p.below j, p.same_end);
            beyond = λ j. ground (arith, p.above j, p.same_end);
          })
  ]

-- In a region whose entries of the type are sorted by their addresses, none of which is addr + 1, if
-- an entry of the type is at or below addr, then `stab_binsearch` ends with the last such entry on
-- the left, and on the right before the next entry of the type or at the end of the region.
pub stab_binsearch-Brackets :
    (stabs : ℕ → Stab) (type addr l0 e0 k : ℕ)
    → ((i j : ℕ)
        → l0 ≤ i
        → i < j
        → j < e0
        → (stabs i).n_type ≡ type
        → (stabs j).n_type ≡ type
        → (stabs i).n_value ≤ (stabs j).n_value)
    → ((j : ℕ) → l0 ≤ j → j < e0 → (stabs j).n_type ≡ type → (stabs j).n_value ≢ addr + 1)
    → addr + 1 < 2 ^ 32
    → l0 ≤ k
    → k < e0
    → (stabs k).n_type ≡ type
    → (stabs k).n_value ≤ addr
    → (g : Region) × (stab_binsearch stabs type l0 e0 addr ≡ some g) × Brackets stabs type addr e0 g
unfolding stab_binsearch finish
stab_binsearch-Brackets stabs type addr l0 e0 k sorted gap small a b c d =
    let r =
      search-Progress stabs type addr l0 e0 sorted gap small (2 * (e0 - l0)) (initial l0 e0 addr)
        (omega arith) (initial-Progress stabs type addr l0 e0 sorted gap small) in
    (
      finished stabs type r.0,
      ap (finish stabs type) r.1,
      finished-Brackets stabs type addr l0 e0 sorted gap small r.0 k a b c d r.2 r.3,
    )
