-- ===== src/User/Strings.antt =====
-- lib/string.c: strings that end in a NUL, in memory as a function of the address. A loop that only
-- a byte can end runs on fuel; `none` stands for one that runs on. Results that are `int`s are words.
pub mod Copy
mod Tests
use oscourse.Base.{
  ℕ, zero, suc, ◌+◌, ◌-◌, ◌%◌, ◌^◌, Bool, true, false, not, ◌&&◌, ◌||◌, Option, none, some, List,
  [], ◌∷◌, ltb, ◌==◌, if◌then◌else◌, update,
}
use oscourse.User.Memory.{Memory}

-- `strlen`
unfoldable pub strlen : (fuel s : ℕ) → Memory → Option ℕ
strlen zero s mem = none
strlen (suc fuel) s mem =
    let rest = strlen fuel (s + 1) mem in
    if mem s == 0 then some 0 else elim rest [ none ↦ none | some n ↦ some (n + 1) ]

-- `strcpy`
unfoldable pub strcpy : (fuel dst src : ℕ) → Memory → Option Memory
strcpy zero dst src mem = none
strcpy (suc fuel) dst src mem =
    let rest = strcpy fuel (dst + 1) (src + 1) (update mem dst (mem src)) in
    if mem src == 0 then some (update mem dst (mem src)) else rest

copied_at : (fuel dst src : ℕ) → Memory → Option ℕ → Option Memory
copied_at fuel dst src mem none = none
copied_at fuel dst src mem (some len) = strcpy fuel (dst + len) src mem

-- `strcat`
unfoldable pub strcat : (fuel dst src : ℕ) → Memory → Option Memory
unfolding copied_at
strcat fuel dst src mem = copied_at fuel dst src mem (strlen fuel dst mem)

-- `strncpy`: `src` stays at the NUL that it reaches
unfoldable pub strncpy : (size dst src : ℕ) → Memory → Memory
strncpy zero dst src mem = mem
strncpy (suc size) dst src mem =
    strncpy size (dst + 1) (if mem src == 0 then src else src + 1) (update mem dst (mem src))

-- the loop of `strlcpy` for `n` more bytes, and the NUL: how far `dst` moved, and the memory
unfoldable pub copy_bounded : (n dst src : ℕ) → Memory → ℕ × Memory
copy_bounded zero dst src mem = (0, update mem dst 0)
copy_bounded (suc n) dst src mem =
    let rest = copy_bounded n (dst + 1) (src + 1) (update mem dst (mem src)) in
    if mem src == 0 then (0, update mem dst 0) else (rest.0 + 1, rest.1)

-- `strlcpy`
unfoldable pub strlcpy : (dst src size : ℕ) → Memory → ℕ × Memory
unfolding copy_bounded
strlcpy dst src zero mem = (0, mem)
strlcpy dst src (suc size) mem = copy_bounded size dst src mem

-- `(int) ((unsigned char) *p - (unsigned char) *q)`
abbrev pub byte_diff : (a b : ℕ) → ℕ
byte_diff a b = (a % 2 ^ 8 + (2 ^ 32 - b % 2 ^ 8)) % 2 ^ 32

-- `strncmp`
unfoldable pub strncmp : (n p q : ℕ) → Memory → ℕ
strncmp zero p q mem = 0
strncmp (suc n) p q mem =
    let rest = strncmp n (p + 1) (q + 1) mem in
    if not (mem p == 0) && (mem p == mem q) then rest else byte_diff (mem p) (mem q)

-- `memcmp`
unfoldable pub memcmp : (n p q : ℕ) → Memory → ℕ
memcmp zero p q mem = 0
memcmp (suc n) p q mem =
    let rest = memcmp n (p + 1) (q + 1) mem in
    if not (mem p == mem q) then byte_diff (mem p) (mem q) else rest

-- `strfind`
unfoldable pub strfind : (fuel s c : ℕ) → Memory → Option ℕ
strfind zero s c mem = none
strfind (suc fuel) s c mem =
    let rest = strfind fuel (s + 1) c mem in if (mem s == 0) || (mem s == c) then some s else rest

-- `strchr`; the inner `none` is NULL
unfoldable pub strchr : (fuel s c : ℕ) → Memory → Option (Option ℕ)
strchr zero s c mem = none
strchr (suc fuel) s c mem =
    let rest = strchr fuel (s + 1) c mem in
    if mem s == 0 then some none else if mem s == c then some (some s) else rest

-- `strcmp` on strings as the lists of their bytes before the NUL
unfoldable pub strcmp : (p q : List ℕ) → ℕ
strcmp [] [] = 0
strcmp [] (b ∷ q) = byte_diff 0 b
strcmp (a ∷ p) [] = byte_diff a 0
strcmp (a ∷ p) (b ∷ q) = let rest = strcmp p q in if a == b then rest else byte_diff a b
