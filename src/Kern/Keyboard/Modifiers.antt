-- ===== src/Kern/Keyboard/Modifiers.antt =====
-- What pressing and releasing a key leaves of the modes.
use oscourse.Base.{
  ℕ, ◌+◌, ◌-◌, ◌<◌, ◌≢◌, Bool, true, false, not, ◌&&◌, ◌||◌, some, leb, ◌==◌, ◌≡◌, refl, ap, ◌∙◌,
  arith,
}
use oscourse.Kern.Keyboard.{
  Modes, is_shift, is_ctl, is_alt, hold, let_go, flip, toggle, pressed, kbd_proc_data,
}

-- the modes after one byte
abbrev pub after_byte : ℕ → Modes → Modes
after_byte code m = (kbd_proc_data (some code) m).1

pressed_modes :
    (code : ℕ) (m : Modes)
    → code < 0x80
    → m.e0esc ≡ false
    → (kbd_proc_data (some code) m).1 ≡ toggle code (hold code (record m { e0esc = false }))
unfolding kbd_proc_data pressed
pressed_modes code m low e =
    let a : (code == 0xe0) ≡ false = ground arith in
    let b : leb 0x80 code ≡ false = ground arith in rw (a, b, e) refl

released_modes :
    (code : ℕ) (m : Modes)
    → code < 0x80
    → code ≢ 0x60
    → m.e0esc ≡ false
    → (kbd_proc_data (some (code + 0x80)) m).1 ≡ let_go code (record m { e0esc = false })
unfolding kbd_proc_data
released_modes code m low other e =
    let a : (code + 0x80 == 0xe0) ≡ false = ground arith in
    let b : leb 0x80 (code + 0x80) ≡ true = ground arith in
    let c : code + 0x80 - 0x80 ≡ code = omega arith in rw (a, b, e, c) refl

up_again : (b key : Bool) → ((b || key) && not key) ≡ (b && not key)
up_again true true = refl
up_again true false = refl
up_again false true = refl
up_again false false = refl

-- When a key below 0x80 is pressed and released, with no escape before it and but for 0x60, whose
-- release is the escape code, then its own modifier is up, every other one is as it was, and a lock
-- key has turned its lock.
pub press_release :
    (code : ℕ) (m : Modes)
    → code < 0x80
    → code ≢ 0x60
    → m.e0esc ≡ false
    → let n = after_byte (code + 0x80) (after_byte code m) in
      (n.shift ≡ (m.shift && not (is_shift code)))
      × (n.ctl ≡ (m.ctl && not (is_ctl code)))
      × (n.alt ≡ (m.alt && not (is_alt code)))
      × (n.caps_lock ≡ flip (code == 0x3a) m.caps_lock)
      × (n.e0esc ≡ false)
press_release code m low other e =
    let held = toggle code (hold code (record m { e0esc = false })) in
    let p : after_byte (code + 0x80) (after_byte code m)
        ≡ let_go code (record held { e0esc = false }) =
      ap (after_byte (code + 0x80)) (pressed_modes code m low e)
      ∙ released_modes code held low other refl in
    (
      ap (λ n. n.shift) p ∙ up_again m.shift (is_shift code),
      ap (λ n. n.ctl) p ∙ up_again m.ctl (is_ctl code),
      ap (λ n. n.alt) p ∙ up_again m.alt (is_alt code),
      ap (λ n. n.caps_lock) p,
      ap (λ n. n.e0esc) p,
    )
