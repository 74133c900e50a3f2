-- ===== src/User/Shell/Tests.antt =====
-- The line "a <b" and its tokens.
use oscourse.Base.{ℕ, List, [], ◌∷◌, ◌≡◌, arith}
use oscourse.User.Shell.{tokens}
use oscourse.User.Shell.Tokens.{texts, without_white, texts-tokens}

abbrev line : List ℕ
line = 97 ∷ 32 ∷ 60 ∷ 98 ∷ []

texts-tokens_example : texts (tokens 5 line) ≡ without_white line
texts-tokens_example = texts-tokens 5 line (omega arith)
