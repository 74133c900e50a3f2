-- ===== src/Fs/Serve.antt =====
-- fs/serv.c: the table of open files, whose entries file identifiers name as environment identifiers
-- name environments. A page of the server's address space goes by its number.
pub mod Open
pub mod Requests
mod Tests
use oscourse.Base.{
  ℕ, zero, suc, ◌+◌, ◌%◌, ◌^◌, Bool, true, false, not, ◌||◌, Option, none, some, leb, ltb, ◌==◌,
  if◌then◌else◌, update,
}
use oscourse.User.Fd.{Fd}
use oscourse.Fs.Dir.{Place}
use oscourse.Fs.File.{Error, inval, max_open, negative, Result, ok, err}

-- `struct OpenFile`
pub record OpenFile : Type 0 where
  pub o_fileid : ℕ
  pub o_file : Option Place
  pub o_mode : ℕ
  pub o_fd : ℕ

-- `opentab`; `pageref` of the pages of its descriptors, which counts the mappings of a page in all
-- address spaces and is 0 for one that is not mapped; and what those pages hold
pub record Server : Type 0 where
  pub opentab : ℕ → OpenFile
  pub refs : ℕ → ℕ
  pub fds : ℕ → Fd

-- MAXOPEN, and the page of FILEVA
abbrev pub maxopen : ℕ
maxopen = 1024

abbrev pub file_page : ℕ
file_page = 0xd0000

-- the rounds `i`, `i + 1`, ... of `serve_init`, `n` of them
pub init_from : (n i : ℕ) → (ℕ → OpenFile) → ℕ → OpenFile
init_from zero i t = t
init_from (suc n) i t =
    init_from n (i + 1) (update t i (record (t i) { o_fileid = i; o_fd = file_page + i }))

-- `serve_init`
unfoldable pub serve_init : Server → Server
unfolding init_from
serve_init s = record s { opentab = init_from maxopen 0 s.opentab }

-- `sys_page_alloc` of a page that is not mapped; `refused` is the kernel's error, if there is one
alloc_page : (refused : Option Error) → (v : ℕ) → Server → Result Server
alloc_page none v s = ok (record s { refs = update s.refs v 1 })
alloc_page (some e) v s = err e

-- the identifier of entry `i` when it is opened again
abbrev pub new_fileid : ℕ → Server → ℕ
new_fileid i s = ((s.opentab i).o_fileid + maxopen) % 2 ^ 32

-- what `memset` makes of a page
abbrev pub blank_fd : Fd
blank_fd = record { fd_dev_id = 0; fd_offset = 0; fd_omode = 0; fd_file = 0 }

-- case 1 of the switch
pub take_entry : ℕ → Server → Server
take_entry i s = record s {
  opentab = update s.opentab i (record (s.opentab i) { o_fileid = new_fileid i s });
  fds = update s.fds (s.opentab i).o_fd blank_fd;
}

-- the outcome of `openfile_alloc`: the identifier with the entry, or a result below 0
abbrev pub Opening : Type 0
Opening = Result (ℕ × ℕ) × Server

-- `return (*o)->o_fileid`, where the unsigned identifier becomes an `int`
abbrev pub fileid_result : (fileid i : ℕ) → Result (ℕ × ℕ)
fileid_result fileid i = if ltb fileid (2 ^ 31) then ok (fileid, i) else err (negative fileid)

take_allocated : ℕ → Result Server → Server → Opening
unfolding take_entry
take_allocated i (err e) s = (err e, s)
take_allocated i (ok t) s = (fileid_result (new_fileid i t) i, take_entry i t)

-- the switch on `pageref`, which goes on to the next entry where the page is shared
pub try_entry : (refused : Option Error) → (i refs : ℕ) → Opening → Server → Opening
unfolding alloc_page take_allocated
try_entry refused i zero rest s = take_allocated i (alloc_page refused (s.opentab i).o_fd s) s
try_entry refused i (suc zero) rest s = (fileid_result (new_fileid i s) i, take_entry i s)
try_entry refused i (suc (suc n)) rest s = rest

-- the rounds `i`, `i + 1`, ... of `openfile_alloc`, `n` of them
pub open_rounds : (ℕ → Option Error) → (n i : ℕ) → Server → Opening
unfolding try_entry
open_rounds refuses zero i s = (err max_open, s)
open_rounds refuses (suc n) i s =
    try_entry (refuses (s.opentab i).o_fd) i (s.refs (s.opentab i).o_fd)
      (open_rounds refuses n (i + 1) s) s

-- `openfile_alloc`; `refuses` says for which pages `sys_page_alloc` reports an error.
unfoldable pub openfile_alloc : (ℕ → Option Error) → Server → Opening
unfolding open_rounds
openfile_alloc refuses s = open_rounds refuses maxopen 0 s

-- `openfile_lookup`: the entry
unfoldable pub openfile_lookup : (fileid : ℕ) → Server → Result ℕ
openfile_lookup fileid s =
    if leb (s.refs (s.opentab (fileid % maxopen)).o_fd) 1
      || not ((s.opentab (fileid % maxopen)).o_fileid == fileid)
    then err inval
    else ok (fileid % maxopen)
