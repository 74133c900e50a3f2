-- ===== src/Kern/Console/Display.antt =====
-- The cursor stays on the screen, and nothing is written behind it.
use oscourse.Base.{
  ℕ, zero, suc, ◌+◌, ◌%◌, ◌≤◌, ◌<◌, Bool, true, false, List, [], ◌∷◌, ltb, leb, ◌==◌, if◌then◌else◌,
  ◌≡◌, inl, inr, refl, ◌∙◌, arith, update, Bool-cases,
}
use oscourse.Kern.Console.{
  Screen, crt_size, crt_cols, with_attribute, write_char, rub_out, carriage_return, line_feed,
  scrolled, scroll, put_simple, put_spaces, cga_putc, cga_puts,
}

-- The cursor of `t` is on the screen, and what lies behind the screen is as in `s`, at `i`.
pub record Keeps (s t : Screen) (i : ℕ) : Type 0 where
  pub on_screen : t.crt_pos < crt_size
  pub behind : t.crt_buf i ≡ s.crt_buf i

-- The same before `scroll`: the cursor may have gone a line too far.
record Nearly (s t : Screen) (i : ℕ) : Type 0 where
  near : t.crt_pos < crt_size + crt_cols
  same : t.crt_buf i ≡ s.crt_buf i

scroll-Keeps : (s t : Screen) (i : ℕ) → crt_size ≤ i → Nearly s t i → Keeps s (scroll t) i
unfolding scrolled
scroll-Keeps s t i out n = elim (Bool-cases (leb crt_size t.crt_pos)) [
  | inl e ↦ rw e (record { on_screen = ground (arith, n.near); behind = ground (arith, n.same) })
  | inr e ↦ rw e (record { on_screen = ground arith; behind = n.same })
]

write_char-Nearly :
    (c i : ℕ) (s : Screen) → crt_size ≤ i → s.crt_pos < crt_size → Nearly s (write_char c s) i
unfolding update
write_char-Nearly c i s out on = record { near = ground arith; same = ground arith }

rub_out-Nearly :
    (c i : ℕ) (s : Screen) → crt_size ≤ i → s.crt_pos < crt_size → Nearly s (rub_out c s) i
unfolding update
rub_out-Nearly c i s out on = elim (Bool-cases (ltb 0 s.crt_pos)) [
  | inl e ↦ rw e (record { near = ground arith; same = ground arith })
  | inr e ↦ rw e (record { near = ground arith; same = refl })
]

line_feed-Nearly : (i : ℕ) (s : Screen) → s.crt_pos < crt_size → Nearly s (line_feed s) i
line_feed-Nearly i s on = record { near = omega arith; same = refl }

carriage_return-Nearly :
    (i : ℕ) (s : Screen) → s.crt_pos < crt_size → Nearly s (carriage_return s) i
carriage_return-Nearly i s on = record { near = omega arith; same = refl }

put_simple-Keeps :
    (c i : ℕ) (s : Screen) → crt_size ≤ i → s.crt_pos < crt_size → Keeps s (put_simple c s) i
unfolding put_simple
put_simple-Keeps c i s out on =
    scroll-Keeps s _ i out (chosen (c % 256 == 8) (c % 256 == 10) (c % 256 == 13))
  where
    chosen :
        (back new ret : Bool)
        → Nearly s
            (if back
              then rub_out c s
              else if new
              then line_feed s
              else if ret
              then carriage_return s
              else write_char c s)
            i
    chosen true new ret = rub_out-Nearly c i s out on
    chosen false true ret = line_feed-Nearly i s on
    chosen false false true = carriage_return-Nearly i s on
    chosen false false false = write_char-Nearly c i s out on

Keeps-trans : (r s t : Screen) (i : ℕ) → Keeps r s i → Keeps s t i → Keeps r t i
Keeps-trans r s t i a b = record { on_screen = b.on_screen; behind = b.behind ∙ a.behind }

put_spaces-Keeps :
    (n i : ℕ) (s : Screen) → crt_size ≤ i → s.crt_pos < crt_size → Keeps s (put_spaces n s) i
unfolding put_spaces
put_spaces-Keeps zero i s out on = record { on_screen = on; behind = refl }
put_spaces-Keeps (suc n) i s out on =
    let k = put_simple-Keeps (with_attribute 32) i s out on in
    Keeps-trans s _ _ i k (put_spaces-Keeps n i (put_simple (with_attribute 32) s) out k.on_screen)

cga_putc-Keeps :
    (c i : ℕ) (s : Screen) → crt_size ≤ i → s.crt_pos < crt_size → Keeps s (cga_putc c s) i
unfolding cga_putc
cga_putc-Keeps c i s out on = elim (Bool-cases (with_attribute c % 256 == 9)) [
  | inl e ↦
      let k = put_spaces-Keeps 5 i s out on in
      rw e (
        scroll-Keeps s (put_spaces 5 s) i out
          (record { near = omega (arith, k.on_screen); same = k.behind }))
  | inr e ↦ rw e (put_simple-Keeps (with_attribute c) i s out on)
]

-- If the cursor is on the screen, then after any characters, control characters and tabs included, it
-- is there still, and no cell behind the screen has changed.
pub cga_puts-Keeps :
    (cs : List ℕ) (i : ℕ) (s : Screen)
    → crt_size ≤ i
    → s.crt_pos < crt_size
    → Keeps s (cga_puts cs s) i
unfolding cga_puts
cga_puts-Keeps [] i s out on = record { on_screen = on; behind = refl }
cga_puts-Keeps (c ∷ cs) i s out on =
    let k = cga_putc-Keeps c i s out on in
    Keeps-trans s _ _ i k (cga_puts-Keeps cs i (cga_putc c s) out k.on_screen)
