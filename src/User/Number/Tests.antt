-- ===== src/User/Number/Tests.antt =====
-- Numbers printed and read.
use oscourse.Base.{◌≡◌, refl, arith, [], ◌∷◌}
use oscourse.User.Number.{printnum, strtol}
use oscourse.User.Number.Read.{strtol-printnum}

hex_test : printnum 3000 0x7e1 16 5 32 ≡ 32 ∷ 32 ∷ 55 ∷ 101 ∷ 49 ∷ []
unfolding printnum
hex_test = refl

octal_test : strtol (48 ∷ 49 ∷ 55 ∷ 57 ∷ []) 0 ≡ (15, 57 ∷ [])
unfolding strtol
octal_test = refl

hex_read : strtol (printnum 3000 0x7e1 16 5 32) 16 ≡ (0x7e1, [])
hex_read = strtol-printnum 3000 0x7e1 16 5 (omega arith) (omega arith) (omega arith) (omega arith)
