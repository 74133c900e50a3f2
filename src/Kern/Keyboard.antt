-- ===== src/Kern/Keyboard.antt =====
-- kern/console.c, inc/kbdreg.h: scan codes of the keyboard. The bits of `shift` are fields.
pub mod Modifiers
mod Tests
use oscourse.Base.{
  ℕ, ◌+◌, ◌-◌, Bool, true, false, not, ◌&&◌, ◌||◌, Option, none, some, List, [], ◌∷◌, ltb, leb,
  ◌==◌, if◌then◌else◌, get_or,
}

-- `shift`: E0ESC, SHIFT, CTL, ALT, CAPSLOCK, NUMLOCK and SCROLLLOCK
pub record Modes : Type 0 where
  pub e0esc : Bool
  pub shift : Bool
  pub ctl : Bool
  pub alt : Bool
  pub caps_lock : Bool
  pub num_lock : Bool
  pub scroll_lock : Bool

-- the keys of `shiftcode`
abbrev pub is_shift : ℕ → Bool
is_shift d = (d == 0x2a) || (d == 0x36)

abbrev pub is_ctl : ℕ → Bool
is_ctl d = (d == 0x1d) || (d == 0x9d)

abbrev pub is_alt : ℕ → Bool
is_alt d = (d == 0x38) || (d == 0xb8)

-- `shift |= shiftcode[d]` and `shift &= ~shiftcode[d]`
abbrev pub hold : ℕ → Modes → Modes
hold d m = record m {
  shift = m.shift || is_shift d;
  ctl = m.ctl || is_ctl d;
  alt = m.alt || is_alt d;
}

abbrev pub let_go : ℕ → Modes → Modes
let_go d m = record m {
  shift = m.shift && not (is_shift d);
  ctl = m.ctl && not (is_ctl d);
  alt = m.alt && not (is_alt d);
}

-- `shift ^= togglecode[d]`
abbrev pub flip : Bool → Bool → Bool
flip b set = if b then not set else set

abbrev pub toggle : ℕ → Modes → Modes
toggle d m = record m {
  caps_lock = flip (d == 0x3a) m.caps_lock;
  num_lock = flip (d == 0x45) m.num_lock;
  scroll_lock = flip (d == 0x46) m.scroll_lock;
}

-- what the maps have at the codes from 0xC7 on
abbrev pub keypad : ℕ → ℕ
keypad d =
    get_or (0xe0 ∷ 0xe2 ∷ 0xe6 ∷ 0 ∷ 0xe4 ∷ 0 ∷ 0xe5 ∷ 0 ∷ 0xe1 ∷ 0xe3 ∷ 0xe7 ∷ 0xe8 ∷ 0xe9 ∷ [])
      (d - 0xc7) 0

-- `normalmap`, `shiftmap` and `ctlmap`: the codes in their order, and those that are named
pub normal_keys : List ℕ
normal_keys =
    0 ∷ 27 ∷ 49 ∷ 50 ∷ 51 ∷ 52 ∷ 53 ∷ 54 ∷ 55 ∷ 56 ∷ 57 ∷ 48 ∷ 45 ∷ 61 ∷ 8 ∷ 9 ∷ 113 ∷ 119 ∷ 101
    ∷ 114 ∷ 116 ∷ 121 ∷ 117 ∷ 105 ∷ 111 ∷ 112 ∷ 91 ∷ 93 ∷ 10 ∷ 0 ∷ 97 ∷ 115 ∷ 100 ∷ 102 ∷ 103 ∷ 104
    ∷ 106 ∷ 107 ∷ 108 ∷ 59 ∷ 39 ∷ 96 ∷ 0 ∷ 92 ∷ 122 ∷ 120 ∷ 99 ∷ 118 ∷ 98 ∷ 110 ∷ 109 ∷ 44 ∷ 46 ∷ 47
    ∷ 0 ∷ 42 ∷ 0 ∷ 32 ∷ 0 ∷ 0 ∷ 0 ∷ 0 ∷ 0 ∷ 0 ∷ 0 ∷ 0 ∷ 0 ∷ 0 ∷ 0 ∷ 0 ∷ 0 ∷ 55 ∷ 56 ∷ 57 ∷ 45 ∷ 52
    ∷ 53 ∷ 54 ∷ 43 ∷ 49 ∷ 50 ∷ 51 ∷ 48 ∷ 46 ∷ 0 ∷ 0 ∷ 0 ∷ 0 ∷ []

pub shift_keys : List ℕ
shift_keys =
    0 ∷ 27 ∷ 33 ∷ 64 ∷ 35 ∷ 36 ∷ 37 ∷ 94 ∷ 38 ∷ 42 ∷ 40 ∷ 41 ∷ 95 ∷ 43 ∷ 8 ∷ 9 ∷ 81 ∷ 87 ∷ 69 ∷ 82
    ∷ 84 ∷ 89 ∷ 85 ∷ 73 ∷ 79 ∷ 80 ∷ 123 ∷ 125 ∷ 10 ∷ 0 ∷ 65 ∷ 83 ∷ 68 ∷ 70 ∷ 71 ∷ 72 ∷ 74 ∷ 75 ∷ 76
    ∷ 58 ∷ 34 ∷ 126 ∷ 0 ∷ 124 ∷ 90 ∷ 88 ∷ 67 ∷ 86 ∷ 66 ∷ 78 ∷ 77 ∷ 60 ∷ 62 ∷ 63 ∷ 0 ∷ 42 ∷ 0 ∷ 32
    ∷ 0 ∷ 0 ∷ 0 ∷ 0 ∷ 0 ∷ 0 ∷ 0 ∷ 0 ∷ 0 ∷ 0 ∷ 0 ∷ 0 ∷ 0 ∷ 55 ∷ 56 ∷ 57 ∷ 45 ∷ 52 ∷ 53 ∷ 54 ∷ 43 ∷ 49
    ∷ 50 ∷ 51 ∷ 48 ∷ 46 ∷ 0 ∷ 0 ∷ 0 ∷ 0 ∷ []

pub ctl_keys : List ℕ
ctl_keys =
    0 ∷ 0 ∷ 0 ∷ 0 ∷ 0 ∷ 0 ∷ 0 ∷ 0 ∷ 0 ∷ 0 ∷ 0 ∷ 0 ∷ 0 ∷ 0 ∷ 0 ∷ 0 ∷ 17 ∷ 23 ∷ 5 ∷ 18 ∷ 20 ∷ 25 ∷ 21
    ∷ 9 ∷ 15 ∷ 16 ∷ 0 ∷ 0 ∷ 13 ∷ 0 ∷ 1 ∷ 19 ∷ 4 ∷ 6 ∷ 7 ∷ 8 ∷ 10 ∷ 11 ∷ 12 ∷ 0 ∷ 0 ∷ 0 ∷ 0 ∷ 28 ∷ 26
    ∷ 24 ∷ 3 ∷ 22 ∷ 2 ∷ 14 ∷ 13 ∷ 0 ∷ 0 ∷ 239 ∷ 0 ∷ 0 ∷ []

abbrev pub named_key : ℕ → ℕ
named_key d = if d == 0x9c then 10 else if d == 0xb5 then 47 else if leb 0xc7 d then keypad d else 0

pub normalmap : ℕ → ℕ
unfolding normal_keys
normalmap d = get_or normal_keys d (named_key d)

pub shiftmap : ℕ → ℕ
unfolding shift_keys
shiftmap d = get_or shift_keys d (named_key d)

pub ctlmap : ℕ → ℕ
unfolding ctl_keys
ctlmap d =
    get_or ctl_keys d
      (if d == 0x97 then 0xe0 else if d == 0xb5 then 0xef else if leb 0xc8 d then keypad d else 0)

-- `charcode[shift & (CTL | SHIFT)]`
abbrev pub charcode : Modes → ℕ → ℕ
charcode m d = if m.ctl then ctlmap d else if m.shift then shiftmap d else normalmap d

-- the exchange of letters under CAPSLOCK
abbrev pub swap_case : ℕ → ℕ
swap_case c = if leb 97 c && leb c 122 then c - 32 else if leb 65 c && leb c 90 then c + 32 else c

-- a key pressed: its code with the escape, and the character
unfoldable pub pressed : ℕ → Modes → ℕ × Modes
unfolding normalmap shiftmap ctlmap
pressed code m =
    let d = if m.e0esc then code + 0x80 else code in
    let n = toggle d (hold d (record m { e0esc = false })) in
    (if n.caps_lock then swap_case (charcode n d) else charcode n d, n)

-- `kbd_proc_data` for the byte that the keyboard has, if it has one; `none` is -1. What Ctrl-Alt-Del
-- does is not kept.
unfoldable pub kbd_proc_data : Option ℕ → Modes → Option ℕ × Modes
unfolding pressed
kbd_proc_data none m = (none, m)
kbd_proc_data (some code) m =
    if code == 0xe0
    then (some 0, record m { e0esc = true })
    else if leb 0x80 code
    then (some 0, let_go (if m.e0esc then code else code - 0x80) (record m { e0esc = false }))
    else (some (pressed code m).0, (pressed code m).1)
