-- ===== src/User/Format/Decimal.antt =====
-- `strtol` reads back what the format "%d" prints.
use oscourse.Base.{
  ℕ, zero, suc, ◌-◌, ◌/◌, ◌%◌, ◌^◌, ◌<◌, ◌≡◌, refl, ap, ◌∙◌, false, some, List, [], ◌∷◌, ◌++◌,
  arith, ltb, leb, Bool-cases, inl, inr, append-nil,
}
use native.Mathlib.Nat.{two-pow-succ}
use oscourse.User.Number.{printnum, digit_char, strtol}
use oscourse.User.Number.Read.{strtol-printnum, strtol-negative}
use oscourse.User.Format.{
  word, no_flags, put_number, put_signed, vprintfmt, format, escape, go_on, converted,
}
use oscourse.User.Format.Texts.{codes}

-- enough rounds of `printnum` print the same
printnum-enough :
    (f g num width padc : ℕ)
    → num < 2 ^ suc f
    → num < 2 ^ suc g
    → printnum (suc f) num 10 width padc ≡ printnum (suc g) num 10 width padc
unfolding printnum
printnum-enough zero g num width padc h k =
    let last : leb 10 num ≡ false = ground arith in rw last refl
printnum-enough (suc f) zero num width padc h k =
    let last : leb 10 num ≡ false = ground arith in rw last refl
printnum-enough (suc f) (suc g) num width padc h k = elim (Bool-cases (leb 10 num)) [
  | inl more ↦ rw more (
      ap (λ l. l ++ (digit_char (num % 10) ∷ []))
        (printnum-enough f g (num / 10) (width - 1) padc (omega (arith, two-pow-succ (suc f)))
          (omega (arith, two-pow-succ (suc g)))))
  | inr last ↦ rw last refl
]

two_pow : (n : ℕ) → n < 2 ^ suc n
two_pow zero = omega arith
two_pow (suc n) = omega (arith, two_pow n, two-pow-succ (suc n))

print_d : (w : ℕ) → vprintfmt (codes "%d") (word w ∷ []) ≡ some (put_signed 32 w no_flags ++ [])
unfolding vprintfmt format escape go_on converted
print_d w = refl

signed-strtol : (w : ℕ) → w < 2 ^ 32 → strtol (put_signed 32 w no_flags) 10 ≡ (w, [])
unfolding put_signed put_number
signed-strtol w h = elim (Bool-cases (ltb w (2 ^ 31))) [
  | inl e ↦ rw e (
      ap (λ l. strtol l 10) (printnum-enough 63 w w 0 32 (omega arith) (two_pow w))
      ∙ strtol-printnum (suc w) w 10 0 (omega arith) (omega arith) (omega arith) (ground arith))
  | inr e ↦
      let m = 2 ^ 32 - w in
      let back : (2 ^ 32 - (2 ^ 32 - w)) % 2 ^ 32 ≡ w = omega arith in
      rw e (
        ap (λ l. strtol (45 ∷ l) 10) (printnum-enough 63 m m 0 32 (omega arith) (two_pow m))
        ∙ strtol-negative (suc m) m 10 (omega arith) (omega arith) (omega arith) (ground arith)
        ∙ ap (λ n. (n, [])) back)
]

-- `strtol` reads what "%d" prints for an `int`, of either sign, back as that `int`, to the end.
pub strtol-vprintfmt :
    (w : ℕ)
    → w < 2 ^ 32
    → (out : List ℕ) × (vprintfmt (codes "%d") (word w ∷ []) ≡ some out) × (strtol out 10 ≡ (w, []))
strtol-vprintfmt w h =
    let p = put_signed 32 w no_flags in (p, print_d w ∙ ap some (append-nil p), signed-strtol w h)
