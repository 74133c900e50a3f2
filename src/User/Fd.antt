-- ===== src/User/Fd.antt =====
-- lib/fd.c, inc/fd.h: file descriptors, which are pages of a program's address space that programs
-- may share. Pages of the address space go by their number, and an `int` by its 32 bits.
pub mod Calls
pub mod Table
pub mod Close
mod Tests
use oscourse.Base.{
  ℕ, zero, suc, ◌+◌, ◌-◌, ◌%◌, ◌^◌, Bool, true, false, ◌&&◌, not, Option, none, some, ltb, ◌==◌,
  if◌then◌else◌, update,
}

-- `struct Fd`
pub record Fd : Type 0 where
  pub fd_dev_id : ℕ
  pub fd_offset : ℕ
  pub fd_omode : ℕ
  pub fd_file : ℕ

-- the address space, by the physical page that each of its pages maps, and what physical pages hold
-- as descriptors
pub record Space : Type 0 where
  pub page : ℕ → Option ℕ
  pub fds : ℕ → Fd

-- error codes, without the sign
pub data Failure : Type 0 where
  inval : Failure
  max_open : Failure
  not_supp : Failure
  other : ℕ → Failure

pub data Answer {ℓ} (A : Type ℓ) : Type ℓ where
  ok : A → Answer A
  err : Failure → Answer A

-- the page of FDTABLE, MAXFD, INDEX2FD, INDEX2DATA
abbrev pub fd_table : ℕ
fd_table = 0xd0000

abbrev pub max_fd : ℕ
max_fd = 32

abbrev pub index2fd : ℕ → ℕ
index2fd i = (fd_table + i) % 2 ^ 20

abbrev pub index2data : ℕ → ℕ
index2data i = (fd_table + max_fd + i) % 2 ^ 20

-- `fd2num` and `fd2data`
abbrev pub fd2num : ℕ → ℕ
fd2num v = (v + 2 ^ 20 - fd_table) % 2 ^ 20

abbrev pub fd2data : ℕ → ℕ
fd2data v = index2data (fd2num v)

-- the test of PTE_P in `uvpd` and `uvpt`
abbrev pub has_page : Option ℕ → Bool
has_page none = false
has_page (some p) = true

abbrev pub is_mapped : ℕ → Space → Bool
is_mapped v s = has_page (s.page v)

-- the rounds `i`, `i + 1`, ... of `fd_alloc`, `n` of them
pub alloc_rounds : (n i : ℕ) → Space → Answer ℕ
alloc_rounds zero i s = err max_open
alloc_rounds (suc n) i s =
    let rest = alloc_rounds n (i + 1) s in
    if not (is_mapped (index2fd i) s) then ok (index2fd i) else rest

-- `fd_alloc`
unfoldable pub fd_alloc : Space → Answer ℕ
unfolding alloc_rounds
fd_alloc s = alloc_rounds max_fd 0 s

-- `fd_lookup`; a negative number is at least 2^31 here, and so out of range too
unfoldable pub fd_lookup : ℕ → Space → Answer ℕ
fd_lookup fdnum s =
    if not (ltb fdnum max_fd)
    then err inval
    else if not (is_mapped (index2fd fdnum) s)
    then err inval
    else ok (index2fd fdnum)

-- the descriptor in a page of the address space, if there is one
abbrev pub at_page : Option ℕ → Space → Option Fd
at_page none s = none
at_page (some p) s = some (s.fds p)

-- `*(struct Fd *) v`, for a page that is mapped
abbrev pub fd_at : ℕ → Space → Option Fd
fd_at v s = at_page (s.page v) s

-- `devtab`, by `dev_id`
pub data Dev : Type 0 where
  devfile : Dev
  devpipe : Dev
  devcons : Dev

-- `dev_lookup`
unfoldable pub dev_lookup : ℕ → Answer Dev
dev_lookup dev_id =
    if dev_id == 102
    then ok devfile
    else if dev_id == 112
    then ok devpipe
    else if dev_id == 99
    then ok devcons
    else err inval

-- an operation of a device on a descriptor's page, with a length
abbrev pub Op : Type 0
Op = (v n : ℕ) → Space → Answer ℕ × Space

-- `struct Dev`: its operations, where a device may lack one
pub record Devices : Type 0 where
  pub dev_read : Dev → Option Op
  pub dev_write : Dev → Option Op
  pub dev_close : Dev → Option (ℕ → Space → Answer ℕ × Space)
  pub dev_trunc : Dev → Option Op

-- `sys_page_unmap(0, v)`
abbrev pub unmap : ℕ → Space → Space
unmap v s = record s { page = update s.page v none }

pub map_from : Option Failure → (to : ℕ) → Option ℕ → Space → Answer Space
map_from refused to none s = err inval
map_from (some e) to (some p) s = err e
map_from none to (some p) s = ok (record s { page = update s.page to (some p) })

-- `sys_page_map(0, from, 0, to, perm)` with the permissions that `from` is mapped with, none at all
-- if it is not; `refuses` says for which pages the kernel reports an error: they are not a user's, or
-- there is no memory for their page table.
unfoldable pub map_page : (ℕ → Option Failure) → (from to : ℕ) → Space → Answer Space
unfolding map_from
map_page refuses from to s = map_from (refuses to) to (s.page from) s

-- the page of a descriptor is unmapped after its device has closed it
abbrev pub then_unmap : ℕ → Answer ℕ × Space → Answer ℕ × Space
then_unmap v (r, s) = (r, unmap v s)

module _ (devices : Devices) where
  close_op : Option (ℕ → Space → Answer ℕ × Space) → ℕ → Space → Answer ℕ × Space
  close_op none v s = (ok 0, s)
  close_op (some op) v s = op v s

  close_dev : Answer Dev → ℕ → Space → Answer ℕ × Space
  unfolding close_op
  close_dev (err e) v s = (err e, s)
  close_dev (ok dev) v s = close_op (devices.dev_close dev) v s

  -- the descriptor's device closes it
  close_file : Option Fd → ℕ → Space → Answer ℕ × Space
  unfolding close_dev
  close_file none v s = (err inval, s)
  close_file (some fd) v s = close_dev (dev_lookup fd.fd_dev_id) v s

  close_found : Answer ℕ → (v : ℕ) → (must_exist : Bool) → Space → Answer ℕ × Space
  unfolding close_file
  close_found (err e) v must_exist s = (if must_exist then err e else ok 0, s)
  close_found (ok fd2) v must_exist s =
      if not (v == fd2) then (ok 0, s) else then_unmap v (close_file (fd_at v s) v s)

  -- `fd_close`
  unfoldable pub fd_close : (v : ℕ) → (must_exist : Bool) → Space → Answer ℕ × Space
  unfolding close_found
  fd_close v must_exist s = close_found (fd_lookup (fd2num v) s) v must_exist s

  close_number : Answer ℕ → Space → Answer ℕ × Space
  close_number (err e) s = (err e, s)
  close_number (ok v) s = fd_close v true s

  -- `close`
  unfoldable pub close : ℕ → Space → Answer ℕ × Space
  unfolding close_number
  close fdnum s = close_number (fd_lookup fdnum s) s

  -- the rounds `i`, `i + 1`, ... of `close_all`, `n` of them
  pub close_from : (n i : ℕ) → Space → Space
  close_from zero i s = s
  close_from (suc n) i s = close_from n (i + 1) ((close i s).1)

  -- `close_all`
  unfoldable pub close_all : Space → Space
  unfolding close_from
  close_all s = close_from max_fd 0 s
