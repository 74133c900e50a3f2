-- ===== src/User/Fd/Tests.antt =====
-- The theorems on descriptors where two are open, the devices unmap the data page of a descriptor
-- that they close, and the kernel refuses nothing.
use oscourse.Base.{
  ℕ, ◌||◌, Option, none, some, ◌≡◌, refl, sym, ap, arith, ◌==◌, if◌then◌else◌, update, ◌∙◌,
  update_ne,
}
use oscourse.User.Fd.{Space, Failure, Answer, ok, index2fd, fd2data, fd_alloc, Devices, unmap}
use oscourse.User.Fd.Close.{IsLocal}
use oscourse.User.Fd.Calls.{dup}
use oscourse.User.Fd.Calls.Dup.{IsOpen, DataAssigned, dup-assigns}

-- Descriptors 0 and 3 are open on one page, and descriptor 0 has a data page.
abbrev space : Space
space = record {
  page = λ v.
      if (v == 0xd0000) || (v == 0xd0003) then some 7 else if v == 0xd0020 then some 9 else none;
  fds = λ p. record { fd_dev_id = 112; fd_offset = 0; fd_omode = 2; fd_file = 0 };
}

abbrev close_data : ℕ → Space → Answer ℕ × Space
close_data v s = (ok 0, unmap (fd2data v) s)

abbrev devices : Devices
devices = record {
  dev_read = λ d. none;
  dev_write = λ d. none;
  dev_close = λ d. some close_data;
  dev_trunc = λ d. none;
}

abbrev refuses : ℕ → Option Failure
refuses v = none

abbrev run_op : Option (ℕ → Space → Answer ℕ × Space) → (v u : ℕ) → Space → Option ℕ
run_op none v u s = s.page u
run_op (some op) v u s = (op v s).1.page u

devices-IsLocal : IsLocal devices
unfolding IsLocal
devices-IsLocal dev op e v u s n m =
    ap (λ o. run_op o v u s) (sym e) ∙ update_ne s.page (fd2data v) u none m

first : IsOpen space 0 7
first = record { inside = omega arith; mapped = refl }

second : IsOpen space 3 7
second = record { inside = omega arith; mapped = refl }

next_free : fd_alloc space ≡ ok (index2fd 1)
unfolding fd_alloc
next_free = refl

dup-assigns_example :
    (s' : Space) × (dup devices refuses 0 5 space ≡ (ok 5, s'))
    × (s'.page (index2fd 5) ≡ update (λ i. space.page (index2fd i)) 5 (space.page (index2fd 0)) 5)
    × DataAssigned 0 5 5 space s'
dup-assigns_example =
    dup-assigns devices refuses 0 5 7 5 space devices-IsLocal first (omega arith) (λ e. omega arith)
      refl refl (omega arith)
