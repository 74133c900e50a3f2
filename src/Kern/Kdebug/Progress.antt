-- ===== src/Kern/Kdebug/Progress.antt =====
-- What holds at each test of the loop of `stab_binsearch`.
use oscourse.Base.{
  ℕ, zero, suc, ◌+◌, ◌-◌, ◌^◌, ◌≤◌, ◌<◌, ◌≡◌, ◌≢◌, ◌⊎◌, refl, true, false, Option, none, some,
  arith, ltb, Bool-cases, inl, inr,
}
use oscourse.Kern.Kdebug.{
  Stab, Search, find_back, true_m, compared, round, search, initial, go_above, go_below, go_on,
}
use oscourse.Kern.Kdebug.Rounds.{IsLast, find_back-IsLast, rounds_left, compared-less}

module _ (stabs : ℕ → Stab) (type addr l0 e0 : ℕ)
    (sorted : (i j : ℕ)
      → l0 ≤ i
      → i < j
      → j < e0
      → (stabs i).n_type ≡ type
      → (stabs j).n_type ≡ type
      → (stabs i).n_value ≤ (stabs j).n_value)
    (gap : (j : ℕ) → l0 ≤ j → j < e0 → (stabs j).n_type ≡ type → (stabs j).n_value ≢ addr + 1)
    (small : addr + 1 < 2 ^ 32) where
  -- the left end is the start of the region, or an entry at or below the address
  abbrev pub LeftEnd : Search → Type 0
  LeftEnd s =
      ((j : ℕ) → l0 ≤ j → j < s.l → (stabs j).n_type ≢ type)
      ⊎ ((m : ℕ) × (s.region.left_next ≡ m + 1)
          × ((stabs m).n_type ≡ type)
          × ((stabs m).n_value ≤ addr)
          × (l0 ≤ m)
          × (m < e0)
          × (s.any_matches ≡ true))

  -- What holds at each test of the loop.
  pub record Progress (s : Search) : Type 0 where
    pub below :
        (j : ℕ)
        → l0 ≤ j
        → j < s.l
        → (stabs j).n_type ≡ type
        → ((stabs j).n_value ≤ addr) × (j < s.region.left_next)
    pub above : (j : ℕ) → s.r_next ≤ j → j < e0 → (stabs j).n_type ≡ type → addr < (stabs j).n_value
    pub same_end : s.region.right_next ≡ s.r_next
    pub inside : (l0 ≤ s.l) × (s.r_next ≤ e0)
    pub goal : (s.sought ≡ addr) ⊎ (s.sought ≡ addr + 1)
    pub left_end : LeftEnd s

  sorted_le :
      (i j : ℕ)
      → l0 ≤ i
      → i ≤ j
      → j < e0
      → (stabs i).n_type ≡ type
      → (stabs j).n_type ≡ type
      → (stabs i).n_value ≤ (stabs j).n_value
  sorted_le i j a b c t u = ground (arith, sorted i j a)

  nothing-Progress :
      (s : Search)
      → s.l < s.r_next
      → IsLast stabs type s.l (true_m s + 1 - s.l) none
      → Progress s
      → Progress (record s { l = true_m s + 1 })
  nothing-Progress s h f p = record {
    below = λ j a b t. ground (arith, p.below j a, f j);
    above = p.above;
    same_end = p.same_end;
    inside = omega (arith, p.inside);
    goal = p.goal;
    left_end = elim p.left_end [
      | inl n ↦ inl (λ j a b t. ground (arith, n j a, f j))
      | inr x ↦ inr x
    ];
  }

  go_above-Progress :
      (s : Search) (m : ℕ)
      → s.l < s.r_next
      → IsLast stabs type s.l (true_m s + 1 - s.l) (some m)
      → (stabs m).n_value < s.sought
      → Progress s
      → Progress (go_above m s)
  go_above-Progress s m h f k p =
      let low : (stabs m).n_value ≤ addr = omega (arith, k, p.goal) in
      record {
        below = λ j a b t. ground (arith, f.3 j, sorted_le j m a);
        above = p.above;
        same_end = p.same_end;
        inside = omega (arith, p.inside);
        goal = p.goal;
        left_end =
            inr
              (m, refl, f.2, low, omega (arith, f.0, p.inside), omega (arith, f.1, p.inside), refl);
      }

  go_below-Progress :
      (s : Search) (m : ℕ)
      → s.l < s.r_next
      → IsLast stabs type s.l (true_m s + 1 - s.l) (some m)
      → s.sought < (stabs m).n_value
      → Progress s
      → Progress (go_below m s)
  go_below-Progress s m h f k p =
      let high : addr < (stabs m).n_value = omega (arith, k, p.goal) in
      record {
        below = p.below;
        above = λ j b c t. omega (arith, sorted_le m j (omega (arith, f.0, p.inside)) b c f.2 t);
        same_end = refl;
        inside = omega (arith, p.inside, f.1);
        goal = p.goal;
        left_end = elim p.left_end [
          | inl n ↦ inl n
          | inr x ↦ inr (x.0, x.1, x.2, x.3, x.4, x.5, refl)
        ];
      }

  go_on-Progress :
      (s : Search) (m : ℕ)
      → s.l < s.r_next
      → IsLast stabs type s.l (true_m s + 1 - s.l) (some m)
      → (stabs m).n_value ≡ s.sought
      → Progress s
      → Progress (go_on m s)
  go_on-Progress s m h f k p =
      let first : s.sought ≡ addr = elim p.goal [
        | inl g ↦ g
        | inr g ↦ absurd (
            gap m (omega (arith, f.0, p.inside)) (omega (arith, f.1, p.inside)) f.2
              (omega (arith, k, g)))
      ] in
      record {
        below = λ j a b t. ground (arith, sorted_le j m a);
        above = p.above;
        same_end = p.same_end;
        inside = omega (arith, p.inside, f.0);
        goal = inr (omega arith);
        left_end = inr (
          m,
          refl,
          f.2,
          omega arith,
          omega (arith, f.0, p.inside),
          omega (arith, f.1, p.inside),
          refl,
        );
      }

  compared-Progress :
      (s : Search) (o : Option ℕ)
      → s.l < s.r_next
      → IsLast stabs type s.l (true_m s + 1 - s.l) o
      → Progress s
      → Progress (compared stabs o s)
  unfolding compared
  compared-Progress s none h f p = nothing-Progress s h f p
  compared-Progress s (some m) h f p = elim (Bool-cases (ltb (stabs m).n_value s.sought)) [
    | inl e ↦ rw e (go_above-Progress s m h f (ground arith) p)
    | inr e ↦ elim (Bool-cases (ltb s.sought (stabs m).n_value)) [
      | inl u ↦ rw (e, u) (go_below-Progress s m h f (ground arith) p)
      | inr u ↦ rw (e, u) (go_on-Progress s m h f (ground arith) p)
    ]
  ]

  pub search-Progress :
      (fuel : ℕ) (s : Search)
      → rounds_left stabs type s ≤ fuel
      → Progress s
      → (t : Search) × (search fuel stabs type s ≡ some t) × Progress t × (t.r_next ≤ t.l)
  unfolding search
  search-Progress zero s h p =
      let e : ltb s.l s.r_next ≡ false = ground arith in (s, rw e refl, p, ground arith)
  search-Progress (suc fuel) s h p = elim (Bool-cases (ltb s.l s.r_next)) [
    | inl e ↦
        let found = find_back-IsLast stabs type s.l (true_m s + 1 - s.l) in
        let o = find_back stabs type s.l (true_m s + 1 - s.l) in
        let less = compared-less stabs type s o (ground arith) found in
        let rest =
          search-Progress fuel (round stabs type s) (omega arith)
            (compared-Progress s o (ground arith) found p) in
        (rest.0, rw e rest.1, rest.2, rest.3)
    | inr e ↦ (s, rw e refl, p, ground arith)
  ]

  pub initial-Progress : Progress (initial l0 e0 addr)
  initial-Progress = record {
    below = λ j a b c. absurd (omega arith);
    above = λ j a b c. absurd (omega arith);
    same_end = refl;
    inside = omega arith;
    goal = inl refl;
    left_end = inl (λ j a b c. absurd (omega arith));
  }
