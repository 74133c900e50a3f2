-- ===== src/User/Strings/Tests.antt =====
-- Strings compared.
use oscourse.Base.{ℕ, ◌≡◌, ◌↔◌, arith, List, [], ◌∷◌}
use oscourse.User.Strings.{strcmp}
use oscourse.User.Strings.Copy.{strcmp_iff}

abbrev ab : List ℕ
ab = 97 ∷ 98 ∷ []

abbrev ac : List ℕ
ac = 97 ∷ 99 ∷ []

strcmp_iff_example : (strcmp ab ac ≡ 0) ↔ (ab ≡ ac)
strcmp_iff_example =
    strcmp_iff ab ac ((omega arith, omega arith), ((omega arith, omega arith), tt))
      ((omega arith, omega arith), ((omega arith, omega arith), tt))
