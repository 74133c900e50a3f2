-- ===== src/User/Memory.antt =====
-- lib/string.c: `memset` and `memmove` in the version with string instructions, which `#define ASM 1`
-- selects, `memfind` and `strnlen`, on memory as a function of the address. What the instructions do
-- to memory is written out as loops over bytes or words; the ranges that they are given do not wrap
-- round the address space.
pub mod Move
pub mod Search
mod Tests
use oscourse.Base.{
  ℕ, zero, suc, ◌+◌, ◌*◌, ◌/◌, ◌%◌, ◌^◌, Bool, ◌&&◌, ltb, if◌then◌else◌, update, ◌==◌,
}

-- bytes by address
abbrev pub Memory : Type 0
Memory = ℕ → ℕ

-- four bytes stored at `p`
unfoldable pub store_bytes : (p b0 b1 b2 b3 : ℕ) → Memory → Memory
store_bytes p b0 b1 b2 b3 mem =
    update (update (update (update mem p b0) (p + 1) b1) (p + 2) b2) (p + 3) b3

-- `cld; rep stosb` with count `n`, destination `p` and `c` in AL
unfoldable pub fill : (n p c : ℕ) → Memory → Memory
fill zero p c mem = mem
fill (suc n) p c mem = fill n (p + 1) c (update mem p c)

-- `cld; rep stosl` with count `n`, destination `p` and `w` in EAX
unfoldable pub fill_words : (n p w : ℕ) → Memory → Memory
unfolding store_bytes
fill_words zero p w mem = mem
fill_words (suc n) p w mem =
    fill_words n (p + 4) w
      (store_bytes p (w % 2 ^ 8) (w / 2 ^ 8 % 2 ^ 8) (w / 2 ^ 16 % 2 ^ 8) (w / 2 ^ 24 % 2 ^ 8) mem)

-- `(c<<24)|(c<<16)|(c<<8)|c` for a byte, whose copies do not overlap
abbrev pub four_copies : ℕ → ℕ
four_copies c = c * 2 ^ 24 + c * 2 ^ 16 + c * 2 ^ 8 + c

-- `memset`
unfoldable pub memset : (v c n : ℕ) → Memory → Memory
unfolding fill fill_words
memset v c n mem =
    if n == 0
    then mem
    else if (v % 4 == 0) && (n % 4 == 0)
    then fill_words (n / 4) v (four_copies (c % 2 ^ 8)) mem
    else fill n v (c % 2 ^ 8) mem

-- `cld; rep movsb` with count `n`, source `s` and destination `d`
unfoldable pub copy_up : (n s d : ℕ) → Memory → Memory
copy_up zero s d mem = mem
copy_up (suc n) s d mem = copy_up n (s + 1) (d + 1) (update mem d (mem s))

-- `std; rep movsb` with count `n`, where `s` and `d` are the starts of the ranges: the registers
-- begin at their last bytes
unfoldable pub copy_down : (n s d : ℕ) → Memory → Memory
copy_down zero s d mem = mem
copy_down (suc n) s d mem = copy_down n s d (update mem (d + n) (mem (s + n)))

-- one `movsl`: four bytes are read before any is written
unfoldable pub move_word : (s d : ℕ) → Memory → Memory
unfolding store_bytes
move_word s d mem = store_bytes d (mem s) (mem (s + 1)) (mem (s + 2)) (mem (s + 3)) mem

-- `cld; rep movsl`, and `std; rep movsl` where the registers begin at the last words of the ranges
-- that start at `s` and `d`
unfoldable pub words_up : (n s d : ℕ) → Memory → Memory
unfolding move_word
words_up zero s d mem = mem
words_up (suc n) s d mem = words_up n (s + 4) (d + 4) (move_word s d mem)

unfoldable pub words_down : (n s d : ℕ) → Memory → Memory
unfolding move_word
words_down zero s d mem = mem
words_down (suc n) s d mem = words_down n s d (move_word (s + n * 4) (d + n * 4) mem)

-- `(int)s%4 == 0 && (int)d%4 == 0 && n%4 == 0`
abbrev pub in_words : (s d n : ℕ) → Bool
in_words s d n = (s % 4 == 0) && ((d % 4 == 0) && (n % 4 == 0))

-- `memmove`
unfoldable pub memmove : (dst src n : ℕ) → Memory → Memory
unfolding copy_up copy_down words_up words_down
memmove dst src n mem =
    if ltb src dst && ltb dst (src + n)
    then if in_words (src + n) (dst + n) n
      then words_down (n / 4) src dst mem
      else copy_down n src dst mem
    else if in_words src dst n
    then words_up (n / 4) src dst mem
    else copy_up n src dst mem

-- `memfind`: the loop over the `n` addresses from `s`
unfoldable pub memfind : (n s c : ℕ) → Memory → ℕ
memfind zero s c mem = s
memfind (suc n) s c mem =
    let rest = memfind n (s + 1) c mem in if mem s == c % 2 ^ 8 then s else rest

-- `strnlen`: the loop for at most `size` characters from `s`
unfoldable pub strnlen : (size s : ℕ) → Memory → ℕ
strnlen zero s mem = 0
strnlen (suc size) s mem = let rest = strnlen size (s + 1) mem in if mem s == 0 then 0 else rest + 1
