-- ===== src/User/Fd/Calls.antt =====
-- lib/fd.c: duplicates of descriptors, transfers through their devices, and seek. What the buffers
-- of read and write hold is the devices' matter.
pub mod Dup
pub mod Misuse
pub mod Seek
use oscourse.Base.{ℕ, bit_and, Bool, true, false, Option, none, some, ◌==◌, if◌then◌else◌, update}
use oscourse.User.Fd.{
  Fd, Space, Failure, inval, not_supp, Answer, ok, err, index2fd, index2data, fd2data, is_mapped,
  fd_lookup, fd_at, Dev, dev_lookup, Op, Devices, unmap, map_page, close,
}

module _ (devices : Devices) where
  -- the error path of `dup`
  abbrev pub undo_dup : (newfdnum : ℕ) → Failure → Space → Answer ℕ × Space
  undo_dup newfdnum e s = (err e, unmap (index2data newfdnum) (unmap (index2fd newfdnum) s))

  module _ (refuses : ℕ → Option Failure) where
    pub dup_end : (newfdnum : ℕ) → Answer Space → Space → Answer ℕ × Space
    dup_end newfdnum (err e) s = undo_dup newfdnum e s
    dup_end newfdnum (ok s') s = (ok newfdnum, s')

    -- maps the descriptor's page, after its data page
    pub dup_fd : (oldfd newfdnum : ℕ) → Answer Space → Space → Answer ℕ × Space
    unfolding dup_end
    dup_fd oldfd newfdnum (err e) s = undo_dup newfdnum e s
    dup_fd oldfd newfdnum (ok s') s =
        dup_end newfdnum (map_page refuses oldfd (index2fd newfdnum) s') s'

    -- maps the data page, if there is one
    pub dup_data : (ova newfdnum : ℕ) → Space → Answer Space
    dup_data ova newfdnum s =
        if is_mapped ova s then map_page refuses ova (index2data newfdnum) s else ok s

    -- `dup` behind `close`
    pub dup_closed : (oldfd newfdnum : ℕ) → Space → Answer ℕ × Space
    unfolding dup_fd dup_data
    dup_closed oldfd newfdnum s = dup_fd oldfd newfdnum (dup_data (fd2data oldfd) newfdnum s) s

    pub dup_found : Answer ℕ → (newfdnum : ℕ) → Space → Answer ℕ × Space
    unfolding dup_closed
    dup_found (err e) newfdnum s = (err e, s)
    dup_found (ok oldfd) newfdnum s = dup_closed oldfd newfdnum (close devices newfdnum s).1

    -- `dup`
    unfoldable pub dup : (oldfdnum newfdnum : ℕ) → Space → Answer ℕ × Space
    unfolding dup_found
    dup oldfdnum newfdnum s = dup_found (fd_lookup oldfdnum s) newfdnum s

  call_op : Option Op → (v n : ℕ) → Space → Answer ℕ × Space
  call_op none v n s = (err not_supp, s)
  call_op (some op) v n s = op v n s

  -- the access mode `refused` by the operation, and the operation of the device
  transfer :
      (Dev → Option Op) → (refused : ℕ) → Answer Dev → ℕ → (v n : ℕ) → Space → Answer ℕ × Space
  unfolding call_op
  transfer op refused (err e) mode v n s = (err e, s)
  transfer op refused (ok dev) mode v n s =
      if bit_and mode 3 == refused then (err inval, s) else call_op (op dev) v n s

  transfer_fd : (Dev → Option Op) → (refused : ℕ) → Option Fd → (v n : ℕ) → Space → Answer ℕ × Space
  unfolding transfer
  transfer_fd op refused none v n s = (err inval, s)
  transfer_fd op refused (some fd) v n s =
      transfer op refused (dev_lookup fd.fd_dev_id) fd.fd_omode v n s

  transfer_found : (Dev → Option Op) → (refused : ℕ) → Answer ℕ → (n : ℕ) → Space → Answer ℕ × Space
  unfolding transfer_fd
  transfer_found op refused (err e) n s = (err e, s)
  transfer_found op refused (ok v) n s = transfer_fd op refused (fd_at v s) v n s

  -- `read`, which a descriptor opened with O_WRONLY refuses
  unfoldable pub read : (fdnum n : ℕ) → Space → Answer ℕ × Space
  unfolding transfer_found
  read fdnum n s = transfer_found devices.dev_read 1 (fd_lookup fdnum s) n s

  -- `write` and `ftruncate`, which a descriptor opened with O_RDONLY refuses
  unfoldable pub write : (fdnum n : ℕ) → Space → Answer ℕ × Space
  unfolding transfer_found
  write fdnum n s = transfer_found devices.dev_write 0 (fd_lookup fdnum s) n s

  unfoldable pub ftruncate : (fdnum newsize : ℕ) → Space → Answer ℕ × Space
  unfolding transfer_found
  ftruncate fdnum newsize s = transfer_found devices.dev_trunc 0 (fd_lookup fdnum s) newsize s

-- `fd->fd_offset = offset` in the physical page of the descriptor
set_offset : Option ℕ → (offset : ℕ) → Space → Space
set_offset none offset s = s
set_offset (some p) offset s = record s {
  fds = update s.fds p (record (s.fds p) { fd_offset = offset });
}

seek_found : Answer ℕ → (offset : ℕ) → Space → Answer ℕ × Space
unfolding set_offset
seek_found (err e) offset s = (err e, s)
seek_found (ok v) offset s = (ok 0, set_offset (s.page v) offset s)

-- `seek`
unfoldable pub seek : (fdnum offset : ℕ) → Space → Answer ℕ × Space
unfolding seek_found
seek fdnum offset s = seek_found (fd_lookup fdnum s) offset s
