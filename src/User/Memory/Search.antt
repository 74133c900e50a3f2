-- ===== src/User/Memory/Search.antt =====
-- What `memfind` and `strnlen` find.
use oscourse.Base.{
  ℕ, zero, suc, ◌+◌, ◌%◌, ◌^◌, ◌≤◌, ◌≡◌, ap, inl, inr, false, ◌&&◌, arith, ltb, leb, ◌==◌, ==_iff,
  if◌then◌else◌, Bool-cases,
}
use oscourse.User.Memory.{Memory, memfind, strnlen}

memfind-range : (n s c : ℕ) (mem : Memory) → (s ≤ memfind n s c mem) × (memfind n s c mem ≤ s + n)
unfolding memfind
memfind-range zero s c mem = ground arith
memfind-range (suc n) s c mem = ground (arith, memfind-range n (s + 1) c mem)

memfind-skips :
    (n s c : ℕ) (mem : Memory) (j : ℕ)
    → (leb s j && (ltb j (memfind n s c mem) && (mem j == c % 2 ^ 8))) ≡ false
unfolding memfind
memfind-skips zero s c mem j = ground arith
memfind-skips (suc n) s c mem j = elim (Bool-cases (j == s)) [
  | inl same ↦ let e = (==_iff j s).0 same in ground (arith, ap mem e)
  | inr other ↦ ground (arith, memfind-skips n (s + 1) c mem j, other)
]

memfind-hit :
    (n s c : ℕ) (mem : Memory)
    → (if ltb (memfind n s c mem) (s + n) then mem (memfind n s c mem) else c % 2 ^ 8) ≡ c % 2 ^ 8
unfolding memfind
memfind-hit zero s c mem = ground arith
memfind-hit (suc n) s c mem = elim (Bool-cases (mem s == c % 2 ^ 8)) [
  | inl here ↦ rw here (ground (arith, here))
  | inr on ↦ rw on (ground (arith, memfind-hit n (s + 1) c mem))
]

-- `memfind` returns an address from `s` up to `s + n`: that of the first byte equal to the low byte
-- of `c`, or `s + n` if there is none.
pub memfind-first :
    (n s c : ℕ) (mem : Memory)
    → let r = memfind n s c mem in
      (s ≤ r)
      × (r ≤ s + n)
      × ((j : ℕ) → (leb s j && (ltb j r && (mem j == c % 2 ^ 8))) ≡ false)
      × ((if ltb r (s + n) then mem r else c % 2 ^ 8) ≡ c % 2 ^ 8)
memfind-first n s c mem =
    let range = memfind-range n s c mem in
    (range.0, range.1, memfind-skips n s c mem, memfind-hit n s c mem)

-- `strnlen` is the distance to the first zero byte that `memfind` finds in the same range.
pub strnlen-memfind : (n s : ℕ) (mem : Memory) → s + strnlen n s mem ≡ memfind n s 0 mem
unfolding memfind strnlen
strnlen-memfind zero s mem = omega arith
strnlen-memfind (suc n) s mem = ground (arith, strnlen-memfind n (s + 1) mem)
