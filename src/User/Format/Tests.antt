-- ===== src/User/Format/Tests.antt =====
-- Formats with flags, widths and unknown escapes.
use oscourse.Base.{
  ℕ, ◌≡◌, ◌<◌, ◌-◌, ◌%◌, ◌^◌, ◌&&◌, leb, if◌then◌else◌, get_or, arith, refl, List, [], ◌∷◌, some,
}
use oscourse.User.Memory.{Memory}
use oscourse.User.Number.{strtol}
use oscourse.User.Format.Buffer.{vsnprintf-stored}
use oscourse.User.Format.Decimal.{strtol-vprintfmt}
use oscourse.User.Format.{word, text, null, vprintfmt}
use oscourse.User.Format.Print.{vsnprintf}
use oscourse.User.Format.Texts.{codes}

mixed :
    vprintfmt
      (codes "%5d|%-4s|%08x|%i|%#s%%")
      (word 42 ∷ text (codes "ab") ∷ word 0xbeef ∷ word 0xffff_fffc ∷ text (9 ∷ []) ∷ [])
    ≡ some (codes "   42|ab  |0000beef|out of memory|?%")
unfolding vprintfmt
mixed = refl

negative :
    vprintfmt (codes "%d, %.2s, %p") (word 0xffff_ffff ∷ null ∷ null ∷ [])
    ≡ some (codes "-1, (n, 0x0")
unfolding vprintfmt
negative = refl

unknown_escape : vprintfmt (codes "%5q%l") [] ≡ some (codes "%5q%l")
unfolding vprintfmt
unknown_escape = refl

-- The flag to pad on the right pads a number with dashes on the left.
left_dashes : vprintfmt (codes "%-4d") (word 42 ∷ []) ≡ some (codes "--42")
unfolding vprintfmt
left_dashes = refl

five_digits : vprintfmt (codes "%d") (word 12345 ∷ []) ≡ some (codes "12345")
unfolding vprintfmt
five_digits = refl

abbrev no_memory : Memory
no_memory j = 255

-- a buffer of four bytes
vsnprintf-stored_example :
    (m : Memory) × (vsnprintf 100 4 (codes "%d") (word 12345 ∷ []) no_memory ≡ some (some (5, m)))
    × ((j : ℕ)
        → m j ≡ (
            if leb 100 j && leb j 103
            then get_or (codes "123") (j - 100) 0 % 2 ^ 8
            else no_memory j))
    × (3 < 4)
vsnprintf-stored_example =
    vsnprintf-stored 100 3 (codes "%d") (word 12345 ∷ []) no_memory (codes "12345") five_digits

strtol-vprintfmt_example :
    (out : List ℕ) × (vprintfmt (codes "%d") (word 0xffff_ffd6 ∷ []) ≡ some out)
    × (strtol out 10 ≡ (0xffff_ffd6, []))
strtol-vprintfmt_example = strtol-vprintfmt 0xffff_ffd6 (omega arith)
