-- ===== src/User/Args/Tests.antt =====
-- The command line "sh -dx - a".
use oscourse.Base.{ℕ, ◌≡◌, arith, List, [], ◌∷◌}
use oscourse.User.Args.{argstart, all_options}
use oscourse.User.Args.Options.{options, past_options, all_options-argstart}

abbrev name : List ℕ
name = 115 ∷ 104 ∷ []

abbrev rest : List (List ℕ)
rest = (45 ∷ []) ∷ (97 ∷ []) ∷ []

abbrev args : List (List ℕ)
args = (45 ∷ 100 ∷ 120 ∷ []) ∷ rest

all_options-argstart_example :
    all_options 9 (argstart (name ∷ args)) ≡ (100 ∷ 120 ∷ [], past_options name rest)
unfolding options
all_options-argstart_example = all_options-argstart 9 name args (omega arith)
