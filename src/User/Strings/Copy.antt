-- ===== src/User/Strings/Copy.antt =====
-- What the bounded copies and the comparisons of strings do.
use oscourse.Base.{
  ℕ, zero, suc, ◌+◌, ◌^◌, ◌≤◌, ◌<◌, ◌≡◌, refl, ap, ◌∙◌, ap₂, ◌↔◌, inl, inr, Bool, true, false, ◌&&◌,
  ◌||◌, List, [], ◌∷◌, arith, ltb, leb, ◌==◌, ==_iff, if◌then◌else◌, Bool-cases, update, All,
}
use oscourse.User.Memory.{Memory, strnlen}
use oscourse.User.Memory.Move.{moved}
use oscourse.User.Strings.{copy_bounded, strlcpy, strcmp, byte_diff}

-- A byte outside the range does not count.
strnlen-update :
    (n s d v : ℕ) (mem : Memory)
    → (leb s d && ltb d (s + n)) ≡ false
    → strnlen n s (update mem d v) ≡ strnlen n s mem
unfolding strnlen update
strnlen-update zero s d v mem out = refl
strnlen-update (suc n) s d v mem out =
    ground (arith, strnlen-update n (s + 1) d v mem (ground (arith, out)), out)

-- The two ranges of `n` bytes have no byte in common.
abbrev pub apart : (n s d : ℕ) → Bool
apart n s d = leb (s + n) d || leb (d + n) s

copy_bounded-length :
    (n d s : ℕ) (mem : Memory)
    → apart (suc n) s d ≡ true
    → (copy_bounded n d s mem).0 ≡ strnlen n s mem
unfolding copy_bounded strnlen
copy_bounded-length zero d s mem far = refl
copy_bounded-length (suc n) d s mem far =
    let i = copy_bounded-length n (d + 1) (s + 1) (update mem d (mem s)) (ground (arith, far)) in
    let e = strnlen-update n (s + 1) d (mem s) mem (ground (arith, far)) in ground (arith, i, e)

-- The bytes that `strlcpy` leaves: `k` copied ones and a NUL.
abbrev pub copied : (k s d : ℕ) → Memory → Memory
copied k s d mem j = if j == d + k then 0 else moved k s d mem j

copied-step :
    (k s d : ℕ) (mem : Memory) (j : ℕ)
    → (ltb s d && leb d (s + k)) ≡ false
    → copied k (s + 1) (d + 1) (update mem d (mem s)) j ≡ copied (k + 1) s d mem j
unfolding update
copied-step k s d mem j far = ground (arith, far)

strnlen-le : (n s : ℕ) (mem : Memory) → strnlen n s mem ≤ n
unfolding strnlen
strnlen-le zero s mem = omega arith
strnlen-le (suc n) s mem = ground (arith, strnlen-le n (s + 1) mem)

copy_bounded-copied :
    (n d s : ℕ) (mem : Memory) (j : ℕ)
    → apart (suc n) s d ≡ true
    → (copy_bounded n d s mem).1 j ≡ copied (strnlen n s mem) s d mem j
unfolding copy_bounded strnlen update
copy_bounded-copied zero d s mem j far = ground arith
copy_bounded-copied (suc n) d s mem j far = elim (Bool-cases (mem s == 0)) [
  | inl end ↦ rw end (ground arith)
  | inr more ↦
      let t = update mem d (mem s) in
      let k = strnlen n (s + 1) mem in
      let same = strnlen-update n (s + 1) d (mem s) mem (ground (arith, far)) in
      let short = strnlen-le n (s + 1) mem in
      rw more (
        copy_bounded-copied n (d + 1) (s + 1) t j (ground (arith, far))
        ∙ ap (λ k. copied k (s + 1) (d + 1) t j) same
        ∙ copied-step k s d mem j (ground (arith, far, short)))
]

-- For ranges of `n + 1` bytes with none in common `strlcpy` returns the number of bytes before the
-- NUL at `src`, but at most `n`, copies that many, ends them with a NUL, and changes nothing else.
pub strlcpy-copied :
    (n dst src : ℕ) (mem : Memory)
    → apart (n + 1) src dst ≡ true
    → ((strlcpy dst src (suc n) mem).0 ≡ strnlen n src mem)
      × ((j : ℕ) → (strlcpy dst src (suc n) mem).1 j ≡ copied (strnlen n src mem) src dst mem j)
unfolding strlcpy
strlcpy-copied n dst src mem far =
    let far' : apart (suc n) src dst ≡ true = ground (arith, far) in
    (copy_bounded-length n dst src mem far', λ j. copy_bounded-copied n dst src mem j far')

-- the bytes that a string may have
abbrev pub IsString : List ℕ → Type 0
IsString = All (λ c. (0 < c) × (c < 2 ^ 8))

byte_diff-zero : (a b : ℕ) → a < 2 ^ 8 → b < 2 ^ 8 → byte_diff a b ≡ 0 → a ≡ b
byte_diff-zero a b h k e = omega arith

strcmp-same : (p : List ℕ) → strcmp p p ≡ 0
unfolding strcmp
strcmp-same [] = refl
strcmp-same (a ∷ p) = ground (arith, strcmp-same p)

strcmp-equal : (p q : List ℕ) → IsString p → IsString q → strcmp p q ≡ 0 → p ≡ q
unfolding strcmp
strcmp-equal [] [] h k e = refl
strcmp-equal [] (b ∷ q) h k e =
    absurd (omega (arith, k.0, byte_diff-zero 0 b (omega arith) k.0.1 e))
strcmp-equal (a ∷ p) [] h k e =
    absurd (omega (arith, h.0, byte_diff-zero a 0 h.0.1 (omega arith) e))
strcmp-equal (a ∷ p) (b ∷ q) h k e = elim (Bool-cases (a == b)) [
  | inl same ↦
      let rest : strcmp p q ≡ 0 = ground (arith, same, e) in
      ap₂ (λ c l. c ∷ l) ((==_iff a b).0 same) (strcmp-equal p q h.1 k.1 rest)
  | inr other ↦
      let d : byte_diff a b ≡ 0 = ground (arith, other, e) in
      absurd (ground (arith, byte_diff-zero a b h.0.1 k.0.1 d, other))
]

-- `strcmp` is 0 for equal strings and for no others.
pub strcmp_iff : (p q : List ℕ) → IsString p → IsString q → (strcmp p q ≡ 0) ↔ (p ≡ q)
strcmp_iff p q h k = (strcmp-equal p q h k, λ e. ap (λ l. strcmp l q) e ∙ strcmp-same q)
