-- ===== src/Kern/Console/Tests.antt =====
-- The console at the last cell of the screen, and an input buffer that runs over its end.
use oscourse.Base.{
  ℕ, ◌+◌, zero, suc, ◌≡◌, refl, arith, List, [], ◌∷◌, ◌++◌, ◌<◌, length, get_or, drop,
}
use oscourse.Kern.Console.{Screen, Cons, cga_puts, cons_intr, cons_getc}
use oscourse.Kern.Console.Display.{Keeps, cga_puts-Keeps}
use oscourse.Kern.Console.Input.{
  IsQueue, chars, cons_intr-IsQueue, cons_getc-IsQueue, cons_getc-overrun,
}

abbrev screen : Screen
screen = record { crt_buf = λ i. 0; crt_pos = 1999 }

-- a letter, a tab, a line feed and a backspace
cga_puts-Keeps_example : Keeps screen (cga_puts (97 ∷ 9 ∷ 10 ∷ 8 ∷ []) screen) 2000
cga_puts-Keeps_example =
    cga_puts-Keeps (97 ∷ 9 ∷ 10 ∷ 8 ∷ []) 2000 screen (omega arith) (omega arith)

abbrev empty : Cons
empty = record { buf = λ i. 0; rpos = 511; wpos = 511 }

abbrev no_chars : List ℕ
no_chars = []

empty-IsQueue : IsQueue empty no_chars
empty-IsQueue = record { inside = omega arith; ring = refl; room = omega arith }

two_short : length no_chars + length (chars (97 ∷ 0 ∷ [])) + length (chars (98 ∷ [])) < 512
two_short = omega arith

cons_getc-IsQueue_example :
    ((cons_getc (97 ∷ 0 ∷ []) (98 ∷ []) empty).0
      ≡ get_or ((no_chars ++ chars (97 ∷ 0 ∷ [])) ++ chars (98 ∷ [])) 0 0)
    × IsQueue
        (cons_getc (97 ∷ 0 ∷ []) (98 ∷ []) empty).1
        (drop 1 ((no_chars ++ chars (97 ∷ 0 ∷ [])) ++ chars (98 ∷ [])))
cons_getc-IsQueue_example =
    cons_getc-IsQueue (97 ∷ 0 ∷ []) (98 ∷ []) empty no_chars empty-IsQueue two_short

abbrev letters : ℕ → List ℕ
letters zero = []
letters (suc n) = 97 ∷ letters n

many : length (chars (letters 511)) ≡ 511
many = refl

full-IsQueue : IsQueue (cons_intr (letters 511) empty) (chars (letters 511))
full-IsQueue = cons_intr-IsQueue (letters 511) empty [] empty-IsQueue (omega (arith, many))

letter_lost : (cons_getc (98 ∷ []) [] (cons_intr (letters 511) empty)).0 ≡ 0
letter_lost =
    cons_getc-overrun 98 (cons_intr (letters 511) empty) (chars (letters 511)) full-IsQueue many
      (λ e. omega arith)
