-- ===== src/User/Number.antt =====
-- lib/printfmt.c and lib/string.c: printing a number in a base, and reading it back. A string is the
-- list of its bytes before the NUL, an `unsigned long long` and a `long` are words of 64 and 32 bits.
pub mod Read
mod Tests
use oscourse.Base.{
  ℕ, zero, suc, ◌+◌, ◌-◌, ◌*◌, ◌/◌, ◌%◌, ◌^◌, Bool, true, false, not, ◌&&◌, ◌||◌, Option, none,
  some, List, [], ◌∷◌, ◌++◌, ltb, leb, ◌==◌, if◌then◌else◌,
}

-- `"0123456789abcdef"[d]`
abbrev pub digit_char : ℕ → ℕ
digit_char d = if ltb d 10 then d + 48 else d + 87

-- `n` pad characters
pub pad : (n padc : ℕ) → List ℕ
pad zero padc = []
pad (suc n) padc = padc ∷ pad n padc

-- `printnum`, as the characters that it puts, on fuel. A width below 0 pads as 0 does, so that
-- subtraction may stop there.
unfoldable pub printnum : (fuel num base width padc : ℕ) → List ℕ
unfolding pad
printnum zero num base width padc = []
printnum (suc fuel) num base width padc =
    let before = printnum fuel (num / base) base (width - 1) padc in
    (if leb base num then before else pad (width - 1) padc) ++ (digit_char (num % base) ∷ [])

-- the loop over ' ' and '\t'
unfoldable pub skip_space : List ℕ → List ℕ
skip_space [] = []
skip_space (c ∷ s) = if (c == 32) || (c == 9) then skip_space s else c ∷ s

-- the sign: whether it is '-', and what follows it
unfoldable pub sign : List ℕ → Bool × List ℕ
sign [] = (false, [])
sign (c ∷ s) = if c == 43 then (false, s) else if c == 45 then (true, s) else (false, c ∷ s)

-- `s[0] == '0' && s[1] == 'x'`, and `s[0] == '0'`
unfoldable pub starts_0x : List ℕ → Bool
starts_0x [] = false
starts_0x (c ∷ []) = false
starts_0x (c ∷ d ∷ s) = (c == 48) && (d == 120)

unfoldable pub starts_0 : List ℕ → Bool
starts_0 [] = false
starts_0 (c ∷ s) = c == 48

abbrev tail : List ℕ → List ℕ
tail [] = []
tail (c ∷ s) = s

-- the base, and what follows a prefix
unfoldable pub prefix : (base : ℕ) → List ℕ → ℕ × List ℕ
unfolding starts_0x starts_0
prefix base s =
    if ((base == 0) || (base == 16)) && starts_0x s
    then (16, tail (tail s))
    else if (base == 0) && starts_0 s
    then (8, tail s)
    else if base == 0
    then (10, s)
    else (base, s)

-- the value of a digit; a byte that is none has the value 255 here, which no base allows
unfoldable pub digit : ℕ → ℕ
digit c =
    if leb 48 c && leb c 57
    then c - 48
    else if leb 97 c && leb c 122
    then c - 97 + 10
    else if leb 65 c && leb c 90
    then c - 65 + 10
    else 255

-- the loop over digits: the value and what follows them
unfoldable pub digits : (base val : ℕ) → List ℕ → ℕ × List ℕ
unfolding digit
digits base val [] = (val, [])
digits base val (c ∷ s) =
    if leb 36 (digit c) || leb base (digit c)
    then (val, c ∷ s)
    else digits base ((val * base + digit c) % 2 ^ 32) s

abbrev negated : Bool → ℕ → ℕ
negated neg val = if neg then (2 ^ 32 - val) % 2 ^ 32 else val

-- `strtol`: the value, and the rest of the string that `endptr` is set to
unfoldable pub strtol : List ℕ → (base : ℕ) → ℕ × List ℕ
unfolding skip_space sign prefix digits
strtol s base =
    let sg = sign (skip_space s) in
    let p = prefix base sg.1 in let r = digits p.0 0 p.1 in (negated sg.0 r.0, r.1)
