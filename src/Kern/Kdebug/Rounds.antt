-- ===== src/Kern/Kdebug/Rounds.antt =====
-- The rounds of `stab_binsearch`: how many there are, and what the scan for a type finds.
use oscourse.Base.{
  ℕ, zero, suc, ◌+◌, ◌-◌, ◌*◌, ◌≤◌, ◌<◌, ◌≡◌, ◌≢◌, refl, ap, Bool, false, not, ◌&&◌, Option, none,
  some, arith, ltb, ◌==◌, if◌then◌else◌, Bool-cases, inl, inr,
}
use oscourse.Kern.Kdebug.{
  Stab, Search, Region, find_back, true_m, compared, round, search, initial, finish, finished,
  stab_binsearch,
}

-- what `find_back` finds among the `k` entries from `l` on
abbrev pub IsLast : (ℕ → Stab) → (type l k : ℕ) → Option ℕ → Type 0
IsLast stabs type l k none = (j : ℕ) → l ≤ j → j < l + k → (stabs j).n_type ≢ type
IsLast stabs type l k (some m) =
    (l ≤ m)
    × (m < l + k)
    × ((stabs m).n_type ≡ type)
    × ((j : ℕ) → m < j → j < l + k → (stabs j).n_type ≢ type)

pub find_back-IsLast :
    (stabs : ℕ → Stab) (type l k : ℕ) → IsLast stabs type l k (find_back stabs type l k)
unfolding find_back
find_back-IsLast stabs type l zero = λ j h g. absurd (omega arith)
find_back-IsLast stabs type l (suc k) = elim (Bool-cases ((stabs (l + k)).n_type == type)) [
  | inl e ↦ rw e (omega arith, omega arith, ground arith, λ j h g. absurd (omega arith))
  | inr e ↦ rw e (skip (find_back stabs type l k) (find_back-IsLast stabs type l k) (ground arith))
]
  where
    skip :
        (o : Option ℕ)
        → IsLast stabs type l k o
        → (stabs (l + k)).n_type ≢ type
        → IsLast stabs type l (suc k) o
    skip none f n = λ j h g. ground (arith, f j)
    skip (some m) f n = (f.0, omega (arith, f.1), f.2, λ j h g. ground (arith, f.3 j))

-- the entry at `l` has the type and another address than the sought one
abbrev is_passed : (ℕ → Stab) → (type : ℕ) → Search → Bool
is_passed stabs type s = ((stabs s.l).n_type == type) && not ((stabs s.l).n_value == s.sought)

-- the rounds that are left are at most these
abbrev pub rounds_left : (ℕ → Stab) → (type : ℕ) → Search → ℕ
rounds_left stabs type s = 2 * (s.r_next - s.l) - (if is_passed stabs type s then 1 else 0)

pub compared-less :
    (stabs : ℕ → Stab) (type : ℕ) (s : Search) (o : Option ℕ)
    → s.l < s.r_next
    → IsLast stabs type s.l (true_m s + 1 - s.l) o
    → rounds_left stabs type (compared stabs o s) < rounds_left stabs type s
unfolding compared
compared-less stabs type s none h f = ground arith
compared-less stabs type s (some m) h f = ground (arith, f.0, f.1, f.2)

-- the loop ends within that many rounds
pub search-ends :
    (fuel : ℕ) (stabs : ℕ → Stab) (type : ℕ) (s : Search)
    → rounds_left stabs type s ≤ fuel
    → (t : Search) × (search fuel stabs type s ≡ some t)
unfolding search
search-ends zero stabs type s h = let e : ltb s.l s.r_next ≡ false = ground arith in (s, rw e refl)
search-ends (suc fuel) stabs type s h = elim (Bool-cases (ltb s.l s.r_next)) [
  | inl e ↦
      let less =
        compared-less stabs type s (find_back stabs type s.l (true_m s + 1 - s.l)) (ground arith)
          (find_back-IsLast stabs type s.l (true_m s + 1 - s.l)) in
      let rest = search-ends fuel stabs type (round stabs type s) (omega arith) in
      (rest.0, rw e rest.1)
  | inr e ↦ (s, rw e refl)
]

-- The loop of `stab_binsearch` ends within twice as many rounds as the region has entries, on every
-- table.
pub stab_binsearch-ends :
    (stabs : ℕ → Stab) (type left right_next addr : ℕ)
    → (g : Region) × (stab_binsearch stabs type left right_next addr ≡ some g)
unfolding stab_binsearch finish
stab_binsearch-ends stabs type left right_next addr =
    let r =
      search-ends (2 * (right_next - left)) stabs type (initial left right_next addr)
        (omega arith) in
    (finished stabs type r.0, ap (finish stabs type) r.1)
