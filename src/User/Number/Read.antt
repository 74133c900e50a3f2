-- ===== src/User/Number/Read.antt =====
-- `strtol` reads back what `printnum` prints.
use oscourse.Base.{
  ℕ, zero, suc, ◌+◌, ◌-◌, ◌*◌, ◌/◌, ◌%◌, ◌^◌, ◌≤◌, ◌<◌, ◌≡◌, refl, sym, ap, subst, ◌∙◌, inl, inr,
  Bool, true, false, List, [], ◌∷◌, ◌++◌, arith, leb, ◌==◌, Bool-cases, append_assoc, append-nil,
}
use native.Mathlib.Nat.{mod-lt, mod-eq_of_lt, div-lt_self, div-add-mod, mul_comm}
use oscourse.User.Number.{
  digit_char, pad, printnum, skip_space, sign, starts_0x, prefix, digit, digits, strtol,
}

digit-digit_char : (d : ℕ) → d < 16 → digit (digit_char d) ≡ d
unfolding digit
digit-digit_char d h = ground arith

digits-digit_char :
    (base val d : ℕ) (s : List ℕ)
    → base ≤ 16
    → d < base
    → val * base + d < 2 ^ 32
    → digits base val (digit_char d ∷ s) ≡ digits base (val * base + d) s
unfolding digits
digits-digit_char base val d s small below fits =
    let e = digit-digit_char d (omega arith) in
    let w : (val * base + d) % 2 ^ 32 ≡ val * base + d = omega arith in rw e (ground (arith, w))

-- The digits that come first, with the last one put in front of what follows.
printnum-head :
    (fuel num base width padc : ℕ) (s : List ℕ)
    → base ≤ num
    → printnum (suc fuel) num base width padc ++ s
      ≡ printnum fuel (num / base) base (width - 1) padc ++ (digit_char (num % base) ∷ s)
unfolding printnum
printnum-head fuel num base width padc s more =
    let e : leb base num ≡ true = ground (arith, more) in
    rw e (
      append_assoc (printnum fuel (num / base) base (width - 1) padc) (digit_char (num % base) ∷ [])
        s)

printnum-last :
    (fuel num base width padc : ℕ) (s : List ℕ)
    → num < base
    → printnum (suc fuel) num base width padc ++ s ≡ pad (width - 1) padc ++ (digit_char num ∷ s)
unfolding printnum
printnum-last fuel num base width padc s last =
    let e : leb base num ≡ false = ground (arith, last) in
    let m : num % base ≡ num = mod-eq_of_lt last in
    rw (e, m) (append_assoc (pad (width - 1) padc) (digit_char num ∷ []) s)

skip_space-pad :
    (n d : ℕ) (s : List ℕ) → d < 16 → skip_space (pad n 32 ++ (digit_char d ∷ s)) ≡ digit_char d ∷ s
unfolding skip_space pad
skip_space-pad zero d s h = ground arith
skip_space-pad (suc n) d s h = skip_space-pad n d s h

div-lt : (num base : ℕ) → 2 ≤ base → base ≤ num → num / base < num
div-lt num base h k = div-lt_self (omega arith) (omega arith)

quotient : (num base : ℕ) → num / base * base + num % base ≡ num
quotient num base = ap (λ n. n + num % base) (mul_comm (num / base) base) ∙ div-add-mod num base

-- Leading pad spaces are skipped.
skip_space-printnum :
    (fuel num base width : ℕ) (s : List ℕ)
    → num < fuel
    → 2 ≤ base
    → base ≤ 16
    → skip_space (printnum fuel num base width 32 ++ s) ≡ printnum fuel num base 0 32 ++ s
unfolding pad
skip_space-printnum zero num base width s enough low high = absurd (omega arith)
skip_space-printnum (suc fuel) num base width s enough low high = elim (Bool-cases (leb base num)) [
  | inl more ↦
      let m : base ≤ num = ground arith in
      let smaller = div-lt num base low m in
      ap skip_space (printnum-head fuel num base width 32 s m)
      ∙ skip_space-printnum fuel (num / base) base (width - 1) (digit_char (num % base) ∷ s)
          (omega (arith, enough, smaller)) low high
      ∙ sym (printnum-head fuel num base 0 32 s m)
  | inr last ↦
      let m : num < base = ground arith in
      ap skip_space (printnum-last fuel num base width 32 s m)
      ∙ skip_space-pad (width - 1) num s (omega (arith, m, high))
      ∙ sym (printnum-last fuel num base 0 32 s m)
]

-- The digits add up to the number.
digits-printnum :
    (fuel num base : ℕ) (s : List ℕ)
    → num < fuel
    → 2 ≤ base
    → base ≤ 16
    → num < 2 ^ 32
    → digits base 0 (printnum fuel num base 0 32 ++ s) ≡ digits base num s
unfolding digits pad
digits-printnum zero num base s enough low high fits = absurd (omega arith)
digits-printnum (suc fuel) num base s enough low high fits = elim (Bool-cases (leb base num)) [
  | inl more ↦
      let m : base ≤ num = ground arith in
      let smaller = div-lt num base low m in
      let e = quotient num base in
      let r : num % base < base = mod-lt num (omega arith) in
      ap (digits base 0) (printnum-head fuel num base 0 32 s m)
      ∙ digits-printnum fuel (num / base) base (digit_char (num % base) ∷ s)
          (omega (arith, enough, smaller)) low high (omega (arith, fits, smaller))
      ∙ digits-digit_char base (num / base) (num % base) s high r (omega (arith, e, fits))
      ∙ ap (λ n. digits base n s) e
  | inr last ↦
      let m : num < base = ground arith in
      ap (digits base 0) (printnum-last fuel num base 0 32 s m)
      ∙ digits-digit_char base 0 num s high m (omega (arith, fits))
      ∙ ap (λ n. digits base n s) (omega arith)
]

sign-printnum :
    (fuel num base : ℕ) (s : List ℕ)
    → num < fuel
    → 2 ≤ base
    → base ≤ 16
    → sign (printnum fuel num base 0 32 ++ s) ≡ (false, printnum fuel num base 0 32 ++ s)
unfolding pad sign
sign-printnum zero num base s enough low high = absurd (omega arith)
sign-printnum (suc fuel) num base s enough low high = elim (Bool-cases (leb base num)) [
  | inl more ↦
      let m : base ≤ num = ground arith in
      let h = printnum-head fuel num base 0 32 s m in
      let smaller = div-lt num base low m in
      ap sign h
      ∙ sign-printnum fuel (num / base) base (digit_char (num % base) ∷ s)
          (omega (arith, enough, smaller)) low high
      ∙ ap (λ l. (false, l)) (sym h)
  | inr last ↦
      let m : num < base = ground arith in
      let h = printnum-last fuel num base 0 32 s m in
      let first : sign (digit_char num ∷ s) ≡ (false, digit_char num ∷ s) =
        ground (arith, m, high) in
      ap sign h ∙ first ∙ ap (λ l. (false, l)) (sym h)
]

starts_x : List ℕ → Bool
starts_x [] = false
starts_x (c ∷ s) = c == 120

starts_0x-digit_char :
    (d : ℕ) (s : List ℕ) → d < 16 → starts_x s ≡ false → starts_0x (digit_char d ∷ s) ≡ false
unfolding starts_0x starts_x
starts_0x-digit_char d [] h k = refl
starts_0x-digit_char d (c ∷ s) h k = ground (arith, k)

starts_0x-printnum :
    (fuel num base : ℕ) (s : List ℕ)
    → num < fuel
    → 2 ≤ base
    → base ≤ 16
    → starts_x s ≡ false
    → starts_0x (printnum fuel num base 0 32 ++ s) ≡ false
unfolding pad starts_x
starts_0x-printnum zero num base s enough low high k = absurd (omega arith)
starts_0x-printnum (suc fuel) num base s enough low high k = elim (Bool-cases (leb base num)) [
  | inl more ↦
      let m : base ≤ num = ground arith in
      let r : num % base < base = mod-lt num (omega arith) in
      let no_x : (digit_char (num % base) == 120) ≡ false = ground (arith, r, high) in
      let smaller = div-lt num base low m in
      ap starts_0x (printnum-head fuel num base 0 32 s m)
      ∙ starts_0x-printnum fuel (num / base) base (digit_char (num % base) ∷ s)
          (omega (arith, enough, smaller)) low high no_x
  | inr last ↦
      let m : num < base = ground arith in
      ap starts_0x (printnum-last fuel num base 0 32 s m)
      ∙ starts_0x-digit_char num s (omega (arith, m, high)) k
]

prefix-plain : (base : ℕ) (s : List ℕ) → 2 ≤ base → starts_0x s ≡ false → prefix base s ≡ (base, s)
unfolding prefix
prefix-plain base s low h = ground (arith, low, h)

-- For bases from 2 to 16 `strtol` reads the whole of what `printnum` prints, padded with spaces or
-- not, and gives back the number if it fits a `long`.
pub strtol-printnum :
    (fuel num base width : ℕ)
    → num < fuel
    → 2 ≤ base
    → base ≤ 16
    → num < 2 ^ 31
    → strtol (printnum fuel num base width 32) base ≡ (num, [])
unfolding strtol digits starts_x
strtol-printnum fuel num base width enough low high fits =
    let p = printnum fuel num base 0 32 in
    let whole = append-nil (printnum fuel num base width 32) in
    let skipped =
      ap skip_space (sym whole)
      ∙ skip_space-printnum fuel num base width [] enough low high
      ∙ append-nil p in
    let signed : sign p ≡ (false, p) =
      subst (λ l. sign l ≡ (false, l)) (append-nil p)
        (sign-printnum fuel num base [] enough low high) in
    let plain =
      ap starts_0x (sym (append-nil p))
      ∙ starts_0x-printnum fuel num base [] enough low high refl in
    let based : prefix base p ≡ (base, p) = prefix-plain base p low plain in
    let read =
      ap (digits base 0) (sym (append-nil p))
      ∙ digits-printnum fuel num base [] enough low high (omega (arith, fits)) in
    rw (skipped, signed, based, read) refl

-- With a sign in front, the value is the negated one, as a word.
pub strtol-negative :
    (fuel num base : ℕ)
    → num < fuel
    → 2 ≤ base
    → base ≤ 16
    → num < 2 ^ 32
    → strtol (45 ∷ printnum fuel num base 0 32) base ≡ ((2 ^ 32 - num) % 2 ^ 32, [])
unfolding strtol digits skip_space sign starts_x
strtol-negative fuel num base enough low high fits =
    let p = printnum fuel num base 0 32 in
    let plain =
      ap starts_0x (sym (append-nil p))
      ∙ starts_0x-printnum fuel num base [] enough low high refl in
    let based : prefix base p ≡ (base, p) = prefix-plain base p low plain in
    let read =
      ap (digits base 0) (sym (append-nil p))
      ∙ digits-printnum fuel num base [] enough low high (omega (arith, fits)) in
    rw (based, read) refl
