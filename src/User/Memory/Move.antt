-- ===== src/User/Memory/Move.antt =====
-- What `memmove` and `memset` leave in memory.
use oscourse.Base.{
  ℕ, zero, suc, ◌+◌, ◌-◌, ◌*◌, ◌/◌, ◌%◌, ◌^◌, ◌≤◌, ◌<◌, ◌≡◌, sym, ap, subst, ◌∙◌, inl, inr, true,
  false, ◌&&◌, arith, ltb, leb, ◌==◌, if◌then◌else◌, update, Bool-cases,
}
use oscourse.User.Memory.{
  Memory, fill, fill_words, store_bytes, four_copies, memset, copy_up, copy_down, move_word,
  words_up, words_down, in_words, memmove,
}

-- The `n` bytes at `d` are those that stood at `s`.
abbrev pub moved : (n s d : ℕ) → Memory → Memory
moved n s d mem j = if leb d j && ltb j (d + n) then mem (s + (j - d)) else mem j

copy_up-moved :
    (n s d : ℕ) (mem : Memory) (j : ℕ)
    → (ltb s d && ltb d (s + n)) ≡ false
    → copy_up n s d mem j ≡ moved n s d mem j
unfolding copy_up update
copy_up-moved zero s d mem j apart = ground arith
copy_up-moved (suc n) s d mem j apart =
    let rest = copy_up-moved n (s + 1) (d + 1) (update mem d (mem s)) j (ground (arith, apart)) in
    rest ∙ up_step n s d mem j apart
  where
    up_step :
        (n s d : ℕ) (mem : Memory) (j : ℕ)
        → (ltb s d && ltb d (s + suc n)) ≡ false
        → moved n (s + 1) (d + 1) (update mem d (mem s)) j ≡ moved (suc n) s d mem j
    up_step n s d mem j apart = ground (arith, apart)

down_step :
    (n s d : ℕ) (mem : Memory) (j : ℕ)
    → s < d
    → moved n s d (update mem (d + n) (mem (s + n))) j ≡ moved (suc n) s d mem j
unfolding update
down_step n s d mem j below = ground arith

copy_down-moved :
    (n s d : ℕ) (mem : Memory) (j : ℕ) → s < d → copy_down n s d mem j ≡ moved n s d mem j
unfolding copy_down
copy_down-moved zero s d mem j below = ground arith
copy_down-moved (suc n) s d mem j below =
    copy_down-moved n s d (update mem (d + n) (mem (s + n))) j below ∙ down_step n s d mem j below

-- The bytes that one `movsl` moves.
move_word-moved : (s d : ℕ) (mem : Memory) (j : ℕ) → move_word s d mem j ≡ moved 4 s d mem j
unfolding move_word store_bytes update
move_word-moved s d mem j = ground arith

-- A byte of the words behind the first one is not touched when that is moved upwards.
later_byte :
    (n s d j : ℕ) (mem : Memory)
    → (ltb s d && ltb d (s + suc n * 4)) ≡ false
    → d + 4 ≤ j
    → j < d + suc n * 4
    → move_word s d mem (s + 4 + (j - (d + 4))) ≡ mem (s + (j - d))
later_byte n s d j mem apart low high =
    let i = s + 4 + (j - (d + 4)) in
    let place : i ≡ s + (j - d) = omega arith in
    let clear : (leb d i && ltb i (d + 4)) ≡ false = ground (arith, apart) in
    move_word-moved s d mem i ∙ rw clear (ap mem place)

words_up_step :
    (n s d : ℕ) (mem : Memory) (j : ℕ)
    → (ltb s d && ltb d (s + suc n * 4)) ≡ false
    → moved (n * 4) (s + 4) (d + 4) (move_word s d mem) j ≡ moved (suc n * 4) s d mem j
words_up_step n s d mem j apart = elim (Bool-cases (leb (d + 4) j && ltb j (d + 4 + n * 4))) [
  | inl inside ↦
      let low : d + 4 ≤ j = ground (arith, inside) in
      let high : j < d + suc n * 4 = ground (arith, inside) in
      let all : (leb d j && ltb j (d + suc n * 4)) ≡ true = ground arith in
      rw (inside, all) (later_byte n s d j mem apart low high)
  | inr outside ↦
      let same : (leb d j && ltb j (d + suc n * 4)) ≡ (leb d j && ltb j (d + 4)) =
        ground (arith, outside) in
      rw (outside, same) (move_word-moved s d mem j)
]

words_up-moved :
    (n s d : ℕ) (mem : Memory) (j : ℕ)
    → (ltb s d && ltb d (s + n * 4)) ≡ false
    → words_up n s d mem j ≡ moved (n * 4) s d mem j
unfolding words_up
words_up-moved zero s d mem j apart = ground arith
words_up-moved (suc n) s d mem j apart =
    words_up-moved n (s + 4) (d + 4) (move_word s d mem) j (ground (arith, apart))
    ∙ words_up_step n s d mem j apart

words_down-moved :
    (n s d : ℕ) (mem : Memory) (j : ℕ) → s < d → words_down n s d mem j ≡ moved (n * 4) s d mem j
unfolding words_down
words_down-moved zero s d mem j below = ground arith
words_down-moved (suc n) s d mem j below =
    words_down-moved n s d (move_word (s + n * 4) (d + n * 4) mem) j below
    ∙ ground (
      arith,
      below,
      move_word-moved (s + n * 4) (d + n * 4) mem j,
      move_word-moved (s + n * 4) (d + n * 4) mem (s + (j - d)),
    )

-- After `memmove` the `n` bytes at `dst` are those that stood at `src` before, however the two
-- ranges overlap, and no other byte changes; whether it moves words or bytes makes no difference.
pub memmove-moved :
    (dst src n : ℕ) (mem : Memory) (j : ℕ) → memmove dst src n mem j ≡ moved n src dst mem j
unfolding memmove
memmove-moved dst src n mem j = elim (Bool-cases (ltb src dst && ltb dst (src + n))) [
  | inl over ↦
      let below : src < dst = ground (arith, over) in
      elim (Bool-cases (in_words (src + n) (dst + n) n)) [
        | inl words ↦
            let count : n / 4 * 4 ≡ n = ground (arith, words) in
            rw (over, words) (words_down-moved (n / 4) src dst mem j below)
            ∙ ap (λ k. moved k src dst mem j) count
        | inr bytes ↦ rw (over, bytes) (copy_down-moved n src dst mem j below)
      ]
  | inr apart ↦ elim (Bool-cases (in_words src dst n)) [
    | inl words ↦
        let count : n / 4 * 4 ≡ n = ground (arith, words) in
        rw (apart, words)
          (words_up-moved (n / 4) src dst mem j
            (subst (λ k. (ltb src dst && ltb dst (src + k)) ≡ false) (sym count) apart))
        ∙ ap (λ k. moved k src dst mem j) count
    | inr bytes ↦ rw (apart, bytes) (copy_up-moved n src dst mem j apart)
  ]
]

-- `fill_words` with four copies of a byte
store_bytes-filled :
    (p c : ℕ) (mem : Memory) (j : ℕ)
    → store_bytes p c c c c mem j ≡ (if leb p j && ltb j (p + 4) then c else mem j)
unfolding store_bytes update
store_bytes-filled p c mem j = ground arith

fill_words-filled :
    (n p c : ℕ) (mem : Memory) (j : ℕ)
    → c < 2 ^ 8
    → fill_words n p (four_copies c) mem j ≡ (if leb p j && ltb j (p + n * 4) then c else mem j)
unfolding fill_words
fill_words-filled zero p c mem j small = ground arith
fill_words-filled (suc n) p c mem j small =
    let w = four_copies c in
    let b0 : w % 2 ^ 8 ≡ c = omega arith in
    let b1 : w / 2 ^ 8 % 2 ^ 8 ≡ c = omega arith in
    let b2 : w / 2 ^ 16 % 2 ^ 8 ≡ c = omega arith in
    let b3 : w / 2 ^ 24 % 2 ^ 8 ≡ c = omega arith in
    rw (b0, b1, b2, b3)
      (fill_words-filled n (p + 4) c (store_bytes p c c c c mem) j small
        ∙ ground (arith, store_bytes-filled p c mem j))

fill-filled :
    (n p c : ℕ) (mem : Memory) (j : ℕ)
    → fill n p c mem j ≡ (if leb p j && ltb j (p + n) then c else mem j)
unfolding fill update
fill-filled zero p c mem j = ground arith
fill-filled (suc n) p c mem j = ground (arith, fill-filled n (p + 1) c (update mem p c) j)

-- `memset` sets each of the `n` bytes at `v` to the low byte of `c`, and no other byte changes.
pub memset-filled :
    (v c n : ℕ) (mem : Memory) (j : ℕ)
    → memset v c n mem j ≡ (if leb v j && ltb j (v + n) then c % 2 ^ 8 else mem j)
unfolding memset
memset-filled v c n mem j = elim (Bool-cases ((v % 4 == 0) && (n % 4 == 0))) [
  | inl words ↦
      let count : n / 4 * 4 ≡ n = ground (arith, words) in
      ground (arith, words, fill_words-filled (n / 4) v (c % 2 ^ 8) mem j (omega arith))
  | inr bytes ↦ ground (arith, bytes, fill-filled n v (c % 2 ^ 8) mem j)
]
