-- ===== src/User/Args.antt =====
-- lib/args.c: the options on a command line. `argv` is the list of its `argc` strings, each the list
-- of its bytes before the NUL.
pub mod Options
mod Tests
use oscourse.Base.{
  ℕ, zero, suc, Bool, true, false, ◌&&◌, Option, none, some, List, [], ◌∷◌, ltb, ◌==◌,
  if◌then◌else◌, length,
}

-- `struct Argstate`, with what it points to
pub record Argstate : Type 0 where
  pub argv : List (List ℕ)
  pub curarg : Option (List ℕ)
  pub argvalue : Option (List ℕ)

-- `argstart`
unfoldable pub argstart : List (List ℕ) → Argstate
argstart argv = record {
  argv = argv;
  curarg = if ltb 1 (length argv) then some [] else none;
  argvalue = none;
}

-- `endofargs`
abbrev pub end_of_args : Argstate → Option ℕ × Argstate
end_of_args a = (none, record a { curarg = none })

-- the next option of `curarg`, which is not empty here
unfoldable pub take_option : List ℕ → Argstate → Option ℕ × Argstate
take_option [] a = (some 0, record a { curarg = some [] })
take_option (c ∷ s) a = (some c, record a { curarg = some s })

-- the test for "--", of which the first dash is behind `curarg`
abbrev pub is_dash : List ℕ → Bool
is_dash [] = false
is_dash (c ∷ []) = c == 45
is_dash (c ∷ d ∷ s) = false

-- the next argument, which is taken off `argv` if it starts with '-' and goes on
unfoldable pub next_arg : List (List ℕ) → Argstate → Option ℕ × Argstate
unfolding take_option
next_arg [] a = end_of_args a
next_arg (name ∷ []) a = end_of_args a
next_arg (name ∷ [] ∷ args) a = end_of_args a
next_arg (name ∷ (c ∷ []) ∷ args) a = end_of_args a
next_arg (name ∷ (c ∷ d ∷ s) ∷ args) a =
    if c == 45
    then if is_dash (d ∷ s)
      then end_of_args (record a { argv = name ∷ args })
      else take_option (d ∷ s) (record a { argv = name ∷ args })
    else end_of_args a

option_of : Option (List ℕ) → Argstate → Option ℕ × Argstate
unfolding next_arg
option_of none a = (none, a)
option_of (some []) a = next_arg a.argv a
option_of (some (c ∷ s)) a = take_option (c ∷ s) a

-- `argnext`: the option, or `none` for -1
unfoldable pub argnext : Argstate → Option ℕ × Argstate
unfolding option_of
argnext a = option_of a.curarg (record a { argvalue = none })

value_of : Option (List ℕ) → List (List ℕ) → Argstate → Argstate
value_of none argv a = a
value_of (some (c ∷ s)) argv a = record a { argvalue = some (c ∷ s); curarg = some [] }
value_of (some []) (name ∷ value ∷ args) a = record a { argvalue = some value; argv = name ∷ args }
value_of (some []) (name ∷ []) a = record a { argvalue = none; curarg = none }
value_of (some []) [] a = record a { argvalue = none; curarg = none }

abbrev value_now : Option (List ℕ) → Argstate → Option (List ℕ)
value_now none a = none
value_now (some s) a = a.argvalue

-- `argnextvalue`
unfoldable pub argnextvalue : Argstate → Option (List ℕ) × Argstate
unfolding value_of
argnextvalue a = let b = value_of a.curarg a.argv a in (value_now a.curarg b, b)

value_or_next : Option (List ℕ) → Argstate → Option (List ℕ) × Argstate
unfolding argnextvalue
value_or_next none a = argnextvalue a
value_or_next (some v) a = (some v, a)

-- `argvalue`
unfoldable pub argvalue_or_next : Argstate → Option (List ℕ) × Argstate
unfolding value_or_next
argvalue_or_next a = value_or_next a.argvalue a

collect : (Argstate → List ℕ × Argstate) → Option ℕ × Argstate → List ℕ × Argstate
collect more (none, a) = ([], a)
collect more (some c, a) = let rest = more a in (c ∷ rest.0, rest.1)

-- `while ((r = argnext(&args)) >= 0)`, on fuel: the options in order, and the state behind them
unfoldable pub all_options : (fuel : ℕ) → Argstate → List ℕ × Argstate
unfolding argnext collect
all_options zero a = ([], a)
all_options (suc fuel) a = collect (all_options fuel) (argnext a)
