-- ===== src/User/Args/Options.antt =====
-- The options that a program gets from its command line.
use oscourse.Base.{
  ℕ, zero, suc, ◌+◌, ◌<◌, ◌≡◌, refl, ap, ◌∙◌, inl, inr, true, false, Option, none, some, List, [],
  ◌∷◌, ◌++◌, arith, ltb, ◌==◌, if◌then◌else◌, Bool-cases, length, length-append,
}
use oscourse.User.Args.{Argstate, argstart, is_dash, all_options}

-- The options among the arguments, and the arguments that are left: every argument that starts with
-- '-' and goes on gives its other bytes, up to the first that does not, or to "--".
unfoldable pub options : List (List ℕ) → List ℕ × List (List ℕ)
options [] = ([], [])
options ([] ∷ args) = ([], [] ∷ args)
options ((c ∷ []) ∷ args) = ([], (c ∷ []) ∷ args)
options ((c ∷ d ∷ s) ∷ args) =
    let rest = options args in
    if c == 45
    then if is_dash (d ∷ s) then ([], args) else ((d ∷ s) ++ rest.0, rest.1)
    else ([], (c ∷ d ∷ s) ∷ args)

-- the state behind the last option
abbrev pub past_options : (name : List ℕ) → List (List ℕ) → Argstate
past_options name args = record { argv = name ∷ args; curarg = none; argvalue = none }

abbrev within : (name : List ℕ) (args : List (List ℕ)) (s : List ℕ) (v : Option (List ℕ)) → Argstate
within name args s v = record { argv = name ∷ args; curarg = some s; argvalue = v }

abbrev prepend : (c : ℕ) → List ℕ × Argstate → List ℕ × Argstate
prepend c r = (c ∷ r.0, r.1)

options-cons :
    (c d : ℕ) (s : List ℕ) (args : List (List ℕ))
    → (c == 45) ≡ true
    → is_dash (d ∷ s) ≡ false
    → options ((c ∷ d ∷ s) ∷ args) ≡ ((d ∷ s) ++ (options args).0, (options args).1)
unfolding options
options-cons c d s args dash on = rw (dash, on) refl

length-options :
    (c d : ℕ) (s : List ℕ) (args : List (List ℕ))
    → (c == 45) ≡ true
    → is_dash (d ∷ s) ≡ false
    → length (options ((c ∷ d ∷ s) ∷ args)).0 ≡ suc (length s) + length (options args).0
length-options c d s args dash on =
    ap (λ (r : List ℕ × List (List ℕ)). length r.0) (options-cons c d s args dash on)
    ∙ length-append (d ∷ s) (options args).0

all_options-within :
    (fuel : ℕ) (name : List ℕ) (args : List (List ℕ)) (s : List ℕ) (v : Option (List ℕ))
    → length s + length (options args).0 < fuel
    → all_options fuel (within name args s v)
      ≡ (s ++ (options args).0, past_options name (options args).1)
unfolding all_options options
all_options-within zero name args s v h = absurd (omega arith)
all_options-within (suc fuel) name args (c ∷ s) v h =
    ap (prepend c) (all_options-within fuel name args s none (omega arith))
all_options-within (suc fuel) name [] [] v h = refl
all_options-within (suc fuel) name ([] ∷ args) [] v h = refl
all_options-within (suc fuel) name ((c ∷ []) ∷ args) [] v h = refl
all_options-within (suc fuel) name ((c ∷ d ∷ s) ∷ args) [] v h = elim (Bool-cases (c == 45)) [
  | inr plain ↦ rw plain refl
  | inl dash ↦ elim (Bool-cases (is_dash (d ∷ s))) [
    | inl last ↦ rw (dash, last) refl
    | inr on ↦
        let l = length-options c d s args dash on in
        rw (dash, on)
          (ap (prepend d) (all_options-within fuel name args s none (omega (arith, l, h))))
  ]
]

-- With enough fuel the loop over `argnext` ends after the options of the command line, in their
-- order, and leaves in `argv` the program's name and the arguments behind the options.
pub all_options-argstart :
    (fuel : ℕ) (name : List ℕ) (args : List (List ℕ))
    → length (options args).0 < fuel
    → all_options fuel (argstart (name ∷ args))
      ≡ ((options args).0, past_options name (options args).1)
unfolding argstart options all_options
all_options-argstart zero name args h = absurd (omega arith)
all_options-argstart (suc fuel) name [] h = refl
all_options-argstart (suc fuel) name (a ∷ args) h =
    let more : ltb 1 (length (name ∷ a ∷ args)) ≡ true = ground arith in
    rw more (all_options-within (suc fuel) name (a ∷ args) [] none (omega (arith, h)))
