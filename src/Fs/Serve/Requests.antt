-- ===== src/Fs/Serve/Requests.antt =====
-- fs/serv.c: the requests of clients on files. Offsets and sizes are below 2^31.
use oscourse.Base.{
  ℕ, ◌+◌, bit_and, Bool, true, false, not, ◌&&◌, Option, none, some, List, [], ◌∷◌, ltb, ◌==◌,
  if◌then◌else◌, length, take, update, ◌≡◌, ap,
}
use oscourse.Base.Bits.{test_bit}
use oscourse.User.Fd.{Fd}
use oscourse.Fs.Bitmap.{Disk}
use oscourse.Fs.File.{File, Error, inval, file_exists, Result, ok, err, Run}
use oscourse.Fs.Data.{least, file_read, file_write, file_set_size}
use oscourse.Fs.Dir.{Place, Fs, load, save, Op}
use oscourse.Fs.Path.{file_open, file_create}
use oscourse.Fs.Serve.{Server, openfile_alloc, openfile_lookup, Opening}

-- the file server: its table and the file system
pub record Service : Type 0 where
  pub table : Server
  pub files : Fs

-- the reply to a request; `none` is a panic or a fault
abbrev pub Reply : Type 0 → Type 0
Reply A = Option (Result A × Service)

-- the service with `f` changed to `g`, on the disk `d`
abbrev with_saved : Place → File → Disk → Service → Service
with_saved f g d s = record s { files = save (record (s.files) { disk = d }) f g }

-- the descriptor's page of entry `i`
abbrev fd_of : ℕ → Service → Fd
fd_of i s = s.table.fds (s.table.opentab i).o_fd

abbrev set_fd : ℕ → Fd → Service → Service
set_fd i fd s = record s {
  table = record (s.table) { fds = update s.table.fds (s.table.opentab i).o_fd fd };
}

-- `fd->fd_offset += n`
abbrev advance : (i n : ℕ) → Service → Service
advance i n s = set_fd i (record (fd_of i s) { fd_offset = (fd_of i s).fd_offset + n }) s

-- the request `k` on the file of entry `i`, whose pointer must not be NULL
on_file : {A : Type 0} → (ℕ → Place → Service → Reply A) → ℕ → Option Place → Service → Reply A
on_file k i none s = none
on_file k i (some f) s = k i f s

-- the request `k` on what `openfile_lookup` finds
on_entry : {A : Type 0} → (ℕ → Place → Service → Reply A) → Result ℕ → Service → Reply A
unfolding on_file
on_entry k (err e) s = some (err e, s)
on_entry k (ok i) s = on_file k i (s.table.opentab i).o_file s

set_done : Place → Service → Option (File × Disk) → Reply (Unit {0})
set_done f s none = none
set_done f s (some (g, d)) = some (ok tt, with_saved f g d s)

set_size : (size : ℕ) → ℕ → Place → Service → Reply (Unit {0})
unfolding set_done
set_size size i f s = set_done f s (file_set_size size (load s.files f) s.files.disk)

-- `serve_set_size`
unfoldable pub serve_set_size : (fileid size : ℕ) → Service → Reply (Unit {0})
unfolding on_entry set_size
serve_set_size fileid size s = on_entry (set_size size) (openfile_lookup fileid s.table) s

read_done : (i : ℕ) → Place → Service → Run (List ℕ) → Reply (List ℕ)
read_done i f s none = none
read_done i f s (some (err e, g, d)) = some (err e, with_saved f g d s)
read_done i f s (some (ok bytes, g, d)) =
    some (ok bytes, advance i (length bytes) (with_saved f g d s))

read_file : (n i : ℕ) → Place → Service → Reply (List ℕ)
unfolding read_done
read_file n i f s =
    read_done i f s (file_read (least n 4096) (fd_of i s).fd_offset (load s.files f) s.files.disk)

-- `serve_read`: the bytes that it puts in the reply
unfoldable pub serve_read : (fileid n : ℕ) → Service → Reply (List ℕ)
unfolding on_entry read_file
serve_read fileid n s = on_entry (read_file n) (openfile_lookup fileid s.table) s

write_done : (i n : ℕ) → Place → Service → Run (Unit {0}) → Reply ℕ
write_done i n f s none = none
write_done i n f s (some (err e, g, d)) = some (err e, with_saved f g d s)
write_done i n f s (some (ok u, g, d)) = some (ok n, advance i n (with_saved f g d s))

-- `if (end > file->f_size) file->f_size = end`
abbrev grown_to : ℕ → File → File
grown_to end f = if ltb f.f_size end then record f { f_size = end } else f

write_file : List ℕ → ℕ → Place → Service → Reply ℕ
unfolding write_done
write_file bytes i f s = write_done i (length bytes) f s (
    file_write bytes (fd_of i s).fd_offset
      (grown_to ((fd_of i s).fd_offset + length bytes) (load s.files f)) s.files.disk)

-- `serve_write`: `memory` is what stands from `req_buf` on, PGSIZE bytes at least, of which the last
-- eight lie behind the request.
unfoldable pub serve_write : (fileid n : ℕ) → (memory : List ℕ) → Service → Reply ℕ
unfolding on_entry write_file
serve_write fileid n memory s =
    on_entry (write_file (take (least n 4096) memory)) (openfile_lookup fileid s.table) s

-- the bytes before a NUL
pub c_string : List ℕ → List ℕ
c_string [] = []
c_string (c ∷ p) = let rest = c_string p in if c == 0 then [] else c ∷ rest

-- the places of O_CREAT, O_TRUNC and O_EXCL
abbrev pub o_creat : ℕ
o_creat = 8

abbrev pub o_trunc : ℕ
o_trunc = 9

abbrev pub o_excl : ℕ
o_excl = 10

abbrev is_file_exists : Error → Bool
is_file_exists file_exists = true
is_file_exists _ = false

-- the end of `serve_open`: it fills the entry and the descriptor, whose page goes to the client
fill_entry : (omode i : ℕ) → Place → Service → Service
fill_entry omode i f s = record s {
  table = record (s.table) {
    opentab =
        update s.table.opentab i (record (s.table.opentab i) { o_file = some f; o_mode = omode });
    fds = update s.table.fds (s.table.opentab i).o_fd (record (fd_of i s) {
      fd_file = (s.table.opentab i).o_fileid;
      fd_omode = bit_and omode 3;
      fd_dev_id = 102;
    });
  };
}

filled_entry : (omode i : ℕ) → Server → Op Place → Reply ℕ
unfolding fill_entry
filled_entry omode i t none = none
filled_entry omode i t (some (err e, s)) = some (err e, record { table = t; files = s })
filled_entry omode i t (some (ok f, s)) =
    some (ok (t.opentab i).o_fd, fill_entry omode i f (record { table = t; files = s }))

open_truncated : (path : List ℕ) → (omode i : ℕ) → Reply (Unit {0}) → Reply ℕ
unfolding filled_entry
open_truncated path omode i none = none
open_truncated path omode i (some (err e, s)) = some (err e, s)
open_truncated path omode i (some (ok u, s)) = filled_entry omode i s.table (file_open path s.files)

-- the part of `serve_open` behind the first `file_open` or `file_create`
open_found : (path : List ℕ) → (omode i : ℕ) → Server → Op Place → Reply ℕ
unfolding open_truncated
open_found path omode i t none = none
open_found path omode i t (some (err e, s)) = some (err e, record { table = t; files = s })
open_found path omode i t (some (ok f, s)) =
    let u : Service = record { table = t; files = s } in
    open_truncated path omode i
      (if test_bit omode o_trunc then set_size 0 i f u else some (ok tt, u))

-- what follows `file_create`: a file that exists is opened unless O_EXCL is given
or_open : (path : List ℕ) → (omode : ℕ) → Op Place → Op Place
or_open path omode none = none
or_open path omode (some (ok f, s)) = some (ok f, s)
or_open path omode (some (err e, s)) =
    if not (test_bit omode o_excl) && is_file_exists e then file_open path s else some (err e, s)

open_path : (path : List ℕ) → (omode : ℕ) → Fs → Op Place
unfolding or_open
open_path path omode s =
    if test_bit omode o_creat then or_open path omode (file_create path s) else file_open path s

open_entry : (path : List ℕ) → (omode : ℕ) → Fs → Opening → Reply ℕ
unfolding open_found
open_entry path omode s (err e, t) = some (err e, record { table = t; files = s })
open_entry path omode s (ok (id, i), t) = open_found path omode i t (open_path path omode s)

-- `serve_open` for the MAXPATHLEN bytes of `req_path`: the page to share with the client
unfoldable pub serve_open :
    (ℕ → Option Error) → (req_path : List ℕ) → (omode : ℕ) → Service → Reply ℕ
unfolding open_entry open_path c_string set_size
serve_open refuses req_path omode s =
    open_entry (c_string (take 1023 req_path)) omode s.files (openfile_alloc refuses s.table)

-- The identifier does not resolve: no client shares the page of its entry, or the entry has got
-- another identifier.
abbrev pub Unresolved : (fileid : ℕ) → Service → Type 0
Unresolved fileid s = openfile_lookup fileid s.table ≡ err inval

-- Under an identifier that does not resolve no request changes anything: a file that was closed
-- cannot be read, written or resized, whatever its entry is used for since.
pub requests-rejected :
    (fileid n size : ℕ) (memory : List ℕ) (s : Service)
    → Unresolved fileid s
    → (serve_read fileid n s ≡ some (err inval, s))
      × (serve_write fileid n memory s ≡ some (err inval, s))
      × (serve_set_size fileid size s ≡ some (err inval, s))
unfolding serve_read serve_write serve_set_size on_entry
requests-rejected fileid n size memory s e = (
  ap (λ r. on_entry (read_file n) r s) e,
  ap (λ r. on_entry (write_file (take (least n 4096) memory)) r s) e,
  ap (λ r. on_entry (set_size size) r s) e,
)
