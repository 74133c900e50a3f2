-- ===== src/Kern/Keyboard/Tests.antt =====
-- The keyboard with a shift key pressed and released, and a letter in between.
use oscourse.Base.{◌+◌, true, false, not, ◌&&◌, some, ◌≡◌, refl, arith, ◌==◌}
use oscourse.Kern.Keyboard.{Modes, is_shift, is_ctl, is_alt, flip, kbd_proc_data}
use oscourse.Kern.Keyboard.Modifiers.{after_byte, press_release}

abbrev modes : Modes
modes = record {
  e0esc = false;
  shift = false;
  ctl = true;
  alt = false;
  caps_lock = true;
  num_lock = false;
  scroll_lock = false;
}

-- under CAPSLOCK and shift, the key 'a'
lower_again : (kbd_proc_data (some 0x1e) (record modes { ctl = false; shift = true })).0 ≡ some 97
unfolding kbd_proc_data
lower_again = refl

shift_key :
    ((after_byte (0x2a + 0x80) (after_byte 0x2a modes)).shift
      ≡ (modes.shift && not (is_shift 0x2a)))
    × ((after_byte (0x2a + 0x80) (after_byte 0x2a modes)).ctl ≡ (modes.ctl && not (is_ctl 0x2a)))
    × ((after_byte (0x2a + 0x80) (after_byte 0x2a modes)).alt ≡ (modes.alt && not (is_alt 0x2a)))
    × ((after_byte (0x2a + 0x80) (after_byte 0x2a modes)).caps_lock
        ≡ flip (0x2a == 0x3a) modes.caps_lock)
    × ((after_byte (0x2a + 0x80) (after_byte 0x2a modes)).e0esc ≡ false)
shift_key = press_release 0x2a modes (omega arith) (λ e. omega arith) refl
