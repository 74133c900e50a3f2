-- ===== src/Kern/Kdebug.antt =====
-- kern/kdebug.c, inc/stab.h: the search in the table of debugging entries. An `int` index that may
-- be -1 is kept as the index behind it.
pub mod Rounds
pub mod Progress
pub mod Nearest
pub mod Info
mod Tests
use oscourse.Base.{
  ℕ, zero, suc, ◌+◌, ◌-◌, ◌*◌, ◌/◌, ◌%◌, ◌^◌, Bool, true, false, Option, none, some, ltb, ◌==◌,
  if◌then◌else◌,
}

-- `struct Stab`
pub record Stab : Type 0 where
  pub n_strx : ℕ
  pub n_type : ℕ
  pub n_other : ℕ
  pub n_desc : ℕ
  pub n_value : ℕ

-- `*region_left` and `*region_right`, each as the index behind it
pub record Region : Type 0 where
  pub left_next : ℕ
  pub right_next : ℕ

-- the variables of `stab_binsearch`: `r_next` is the index behind `r`
pub record Search : Type 0 where
  pub l : ℕ
  pub r_next : ℕ
  pub sought : ℕ
  pub any_matches : Bool
  pub region : Region

-- the last of the `k` entries from `l` on that has the type
unfoldable pub find_back : (ℕ → Stab) → (type l k : ℕ) → Option ℕ
find_back stabs type l zero = none
find_back stabs type l (suc k) =
    let rest = find_back stabs type l k in
    if (stabs (l + k)).n_type == type then some (l + k) else rest

-- `true_m`
abbrev pub true_m : Search → ℕ
true_m s = (s.l + s.r_next - 1) / 2

-- the three cases for the entry `m` that a round found: below the address, above it, or at it
abbrev pub go_above : (m : ℕ) → Search → Search
go_above m s = record s {
  any_matches = true;
  region = record s.region { left_next = m + 1 };
  l = true_m s + 1;
}

abbrev pub go_below : (m : ℕ) → Search → Search
go_below m s = record s {
  any_matches = true;
  region = record s.region { right_next = m };
  r_next = m;
}

abbrev pub go_on : (m : ℕ) → Search → Search
go_on m s = record s {
  any_matches = true;
  region = record s.region { left_next = m + 1 };
  l = m;
  sought = (s.sought + 1) % 2 ^ 32;
}

-- what a round does with what it found
unfoldable pub compared : (ℕ → Stab) → Option ℕ → Search → Search
compared stabs none s = record s { l = true_m s + 1 }
compared stabs (some m) s =
    if ltb (stabs m).n_value s.sought
    then go_above m s
    else if ltb s.sought (stabs m).n_value
    then go_below m s
    else go_on m s

-- a round of the loop
abbrev pub round : (ℕ → Stab) → (type : ℕ) → Search → Search
round stabs type s = compared stabs (find_back stabs type s.l (true_m s + 1 - s.l)) s

-- the loop; `none` if it runs on
unfoldable pub search : (fuel : ℕ) → (ℕ → Stab) → (type : ℕ) → Search → Option Search
search zero stabs type s = if ltb s.l s.r_next then none else some s
search (suc fuel) stabs type s =
    let rest = search fuel stabs type (round stabs type s) in
    if ltb s.l s.r_next then rest else some s

-- the loop at the end, over the `k` entries behind the left end
unfoldable pub last_of : (ℕ → Stab) → (type left_next k : ℕ) → ℕ
last_of stabs type left_next zero = left_next
last_of stabs type left_next (suc k) =
    let rest = last_of stabs type left_next k in
    if (stabs (left_next + k)).n_type == type then left_next + k + 1 else rest

unfoldable pub finished : (ℕ → Stab) → (type : ℕ) → Search → Region
unfolding last_of
finished stabs type s =
    let g = s.region in
    if s.any_matches
    then record g {
      left_next =
          if ltb g.right_next g.left_next
          then g.right_next
          else last_of stabs type g.left_next (g.right_next - g.left_next);
    }
    else record g { right_next = g.left_next - 1 }

unfoldable pub finish : (ℕ → Stab) → (type : ℕ) → Option Search → Option Region
unfolding finished
finish stabs type none = none
finish stabs type (some s) = some (finished stabs type s)

-- the state before the loop
abbrev pub initial : (left right_next addr : ℕ) → Search
initial left right_next addr = record {
  l = left;
  r_next = right_next;
  sought = addr;
  any_matches = false;
  region = record { left_next = left + 1; right_next = right_next };
}

-- `stab_binsearch` from a left end that is not -1
unfoldable pub stab_binsearch : (ℕ → Stab) → (type left right_next addr : ℕ) → Option Region
unfolding finish search
stab_binsearch stabs type left right_next addr =
    finish stabs type (search (2 * (right_next - left)) stabs type (initial left right_next addr))
