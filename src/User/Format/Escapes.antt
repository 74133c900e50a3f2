-- ===== src/User/Format/Escapes.antt =====
-- The fuel of `vprintfmt`, and the numbers that it prints.
use oscourse.Base.{
  ℕ, zero, suc, ◌+◌, ◌^◌, ◌≤◌, ◌<◌, ◌≡◌, refl, ap, Option, none, some, List, [], ◌∷◌, arith, ltb,
  ◌==◌, length, Bool-cases, inl, inr,
}
use oscourse.User.Format.{
  Arg, Spec, no_flags, Flag, number, flag, conversion, with_number, flag_or_digit, go_on, Escape,
  escape, converted, Put, puts, unknown, behind, put_with, escape_with, format, vprintfmt,
}

-- what follows an escape is no longer than the text behind its '%'
abbrev IsWithin : ℕ → Option Escape → Type 0
IsWithin n none = Unit
IsWithin n (some e) = length e.after ≤ n

weaken : (n : ℕ) (o : Option Escape) → IsWithin n o → IsWithin (suc n) o
weaken n none w = tt
weaken n (some e) w = omega (arith, w)

go_on-IsWithin :
    (n : ℕ) (o : Option Flag) (s : Spec) (scan : Option ℕ → Spec → List Arg → Option Escape)
    (e : Escape)
    → ((r : Option ℕ) (t : Spec) (a : List Arg) → IsWithin n (scan r t a))
    → length e.after ≤ n
    → IsWithin n (go_on o s scan e)
unfolding go_on
go_on-IsWithin n none s scan e w h = tt
go_on-IsWithin n (some (number m)) s scan e w h = elim (Bool-cases (ltb m (2 ^ 31))) [
  | inl b ↦ rw b (w (some m) s e.args)
  | inr b ↦ rw b tt
]
go_on-IsWithin n (some (flag t rest)) s scan e w h = w none t rest
go_on-IsWithin n (some conversion) s scan e w h = h

escape-IsWithin :
    (reading : Option ℕ) (s : Spec) (args : List Arg) (fmt : List ℕ)
    → IsWithin (length fmt) (escape reading s args fmt)
unfolding escape
escape-IsWithin reading s args [] = omega arith
escape-IsWithin reading s args (c ∷ fmt) = weaken (length fmt) _ (
    go_on-IsWithin (length fmt) (flag_or_digit reading c s args) s (λ r t rest. escape r t rest fmt)
      (record { spec = with_number reading s; ch = c; after = fmt; args = args })
      (λ r t a. escape-IsWithin r t a fmt) (omega arith))

-- Two ways to go on that agree on texts up to the length of `fmt` do so behind an escape.
put_with-same :
    (o : Option Put) (f g : List ℕ → List Arg → Option (List ℕ)) (e : Escape) (fmt : List ℕ)
    → ((p : List ℕ) (a : List Arg) → length p ≤ length fmt → f p a ≡ g p a)
    → length e.after ≤ length fmt
    → put_with o f e fmt ≡ put_with o g e fmt
unfolding put_with
put_with-same none f g e fmt same h = refl
put_with-same (some (puts out args)) f g e fmt same h = ap (behind out) (same e.after args h)
put_with-same (some unknown) f g e fmt same h =
    ap (behind (b'%' ∷ [])) (same fmt e.args (omega arith))

escape_with-same :
    (o : Option Escape) (f g : List ℕ → List Arg → Option (List ℕ)) (fmt : List ℕ)
    → ((p : List ℕ) (a : List Arg) → length p ≤ length fmt → f p a ≡ g p a)
    → IsWithin (length fmt) o
    → escape_with o f fmt ≡ escape_with o g fmt
unfolding escape_with
escape_with-same none f g fmt same w = refl
escape_with-same (some e) f g fmt same w = put_with-same (converted e) f g e fmt same w

format-enough :
    (f g : ℕ) (fmt : List ℕ) (args : List Arg)
    → length fmt < f
    → length fmt < g
    → format f fmt args ≡ format g fmt args
unfolding format
format-enough zero g fmt args h k = absurd (omega arith)
format-enough (suc f) zero fmt args h k = absurd (omega arith)
format-enough (suc f) (suc g) [] args h k = refl
format-enough (suc f) (suc g) (c ∷ fmt) args h k = elim (Bool-cases (c == b'%')) [
  | inl e ↦ rw e (
      escape_with-same (escape none no_flags args fmt) (λ p a. format f p a) (λ p a. format g p a)
        fmt (λ p a l. format-enough f g p a (omega arith) (omega arith))
        (escape-IsWithin none no_flags args fmt))
  | inr e ↦ rw e (ap (behind (c ∷ [])) (format-enough f g fmt args (omega arith) (omega arith)))
]

-- Any fuel above the length of the format gives what `vprintfmt` gives.
pub vprintfmt-fuel :
    (fuel : ℕ) (fmt : List ℕ) (args : List Arg)
    → length fmt < fuel
    → format fuel fmt args ≡ vprintfmt fmt args
unfolding vprintfmt
vprintfmt-fuel fuel fmt args h = format-enough fuel (length fmt + 1) fmt args h (omega arith)
