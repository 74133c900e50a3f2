-- ===== src/Kern/Console.antt =====
-- kern/console.c, kern/console.h: the text screen, and the buffer of input characters. What goes to
-- ports, and to the serial and parallel lines, has no counterpart in the state.
pub mod Display
pub mod Input
mod Tests
use oscourse.Base.{
  ℕ, zero, suc, ◌+◌, ◌-◌, ◌*◌, ◌/◌, ◌%◌, ◌^◌, bit_or, Bool, true, false, Option, none, some, List,
  [], ◌∷◌, ltb, leb, ◌==◌, if◌then◌else◌, update,
}

-- `crt_buf` and `crt_pos`
pub record Screen : Type 0 where
  pub crt_buf : ℕ → ℕ
  pub crt_pos : ℕ

-- CRT_COLS and CRT_SIZE
abbrev pub crt_cols : ℕ
crt_cols = 80

abbrev pub crt_size : ℕ
crt_size = 2000

-- black on white, if no attribute is given
abbrev pub with_attribute : ℕ → ℕ
with_attribute c = if ltb c 256 then bit_or c 0x700 else c

-- `crt_buf[crt_pos++] = c`
abbrev pub write_char : ℕ → Screen → Screen
write_char c s = record {
  crt_buf = update s.crt_buf s.crt_pos (c % 2 ^ 16);
  crt_pos = (s.crt_pos + 1) % 2 ^ 16;
}

-- the case '\b'
abbrev pub rub_out : ℕ → Screen → Screen
rub_out c s =
    if ltb 0 s.crt_pos
    then record {
      crt_buf = update s.crt_buf (s.crt_pos - 1) ((c / 256 * 256 + 32) % 2 ^ 16);
      crt_pos = s.crt_pos - 1;
    }
    else s

-- the cases '\r' and '\n'
abbrev pub carriage_return : Screen → Screen
carriage_return s = record s { crt_pos = s.crt_pos - s.crt_pos % crt_cols }

abbrev pub line_feed : Screen → Screen
line_feed s = carriage_return (record s { crt_pos = (s.crt_pos + crt_cols) % 2 ^ 16 })

-- the lines moved up by one, and the last one cleared
unfoldable pub scrolled : (ℕ → ℕ) → ℕ → ℕ
scrolled buf i =
    if ltb i (crt_size - crt_cols)
    then buf (i + crt_cols)
    else if ltb i crt_size
    then 0x720
    else buf i

-- the end of `cga_putc`
abbrev pub scroll : Screen → Screen
scroll s =
    if leb crt_size s.crt_pos
    then record { crt_buf = scrolled s.crt_buf; crt_pos = s.crt_pos - crt_cols }
    else s

-- `cga_putc` for a character that is not '\t'
unfoldable pub put_simple : ℕ → Screen → Screen
put_simple c s = scroll (
    if c % 256 == 8
    then rub_out c s
    else if c % 256 == 10
    then line_feed s
    else if c % 256 == 13
    then carriage_return s
    else write_char c s)

-- `n` calls of `cons_putc` with a space
put_spaces : ℕ → Screen → Screen
put_spaces zero s = s
put_spaces (suc n) s = put_spaces n (put_simple (with_attribute 32) s)

-- `cga_putc`, which puts five spaces for '\t'
unfoldable pub cga_putc : ℕ → Screen → Screen
unfolding put_simple put_spaces
cga_putc c s =
    if with_attribute c % 256 == 9 then scroll (put_spaces 5 s) else put_simple (with_attribute c) s

-- successive calls of `cga_putc`
pub cga_puts : List ℕ → Screen → Screen
cga_puts [] s = s
cga_puts (c ∷ cs) s = cga_puts cs (cga_putc c s)

-- CONSBUFSIZE
abbrev pub consbufsize : ℕ
consbufsize = 512

-- `cons`
pub record Cons : Type 0 where
  pub buf : ℕ → ℕ
  pub rpos : ℕ
  pub wpos : ℕ

-- a position moved on, back to 0 at the end of the buffer
abbrev pub next_pos : ℕ → ℕ
next_pos p = if p + 1 == consbufsize then 0 else p + 1

-- a round of `cons_intr` for a character that is not 0
unfoldable pub push_char : ℕ → Cons → Cons
push_char c s = record s { buf = update s.buf s.wpos (c % 256); wpos = next_pos s.wpos }

-- `cons_intr`, for what its argument returns before -1
pub cons_intr : List ℕ → Cons → Cons
unfolding push_char
cons_intr [] s = s
cons_intr (c ∷ cs) s = cons_intr cs (if c == 0 then s else push_char c s)

-- the part of `cons_getc` behind the polls
abbrev pub next_char : Cons → ℕ × Cons
next_char s =
    if s.rpos == s.wpos then (0, s) else (s.buf s.rpos, record s { rpos = next_pos s.rpos })

-- `cons_getc`, for what the serial line and the keyboard have at the polls
unfoldable pub cons_getc : (serial keyboard : List ℕ) → Cons → ℕ × Cons
unfolding cons_intr
cons_getc serial keyboard s = next_char (cons_intr keyboard (cons_intr serial s))
