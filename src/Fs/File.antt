-- ===== src/Fs/File.antt =====
-- fs/fs.c: the blocks of a file, found through its ten direct slots or its indirect block. A file
-- is passed as a record; it is not kept in the block of its directory here.
pub mod Block
mod Tests
use oscourse.Base.{
  ℕ, ◌-◌, ◌^◌, Bool, true, false, Option, none, some, ltb, ◌==◌, if◌then◌else◌, update,
}
use oscourse.Fs.Bitmap.{Disk, has_addr, alloc_block, free_block}

-- `struct File`, without its name
pub record File : Type 0 where
  pub f_size : ℕ
  pub f_type : ℕ
  pub f_direct : ℕ → ℕ
  pub f_indirect : ℕ

-- the results below 0: the codes of inc/error.h, and any other, by its word
pub data Error : Type 0 where
  not_found no_disk inval bad_path file_exists max_open : Error
  negative : (word : ℕ) → Error

-- where a block number is kept: `f_direct[i]`, or word `i` of an indirect block
pub data Slot : Type 0 where
  direct : ℕ → Slot
  indirect : (block i : ℕ) → Slot

pub data Result (A : Type 0) : Type 0 where
  ok : A → Result A
  err : Error → Result A

-- the outcome of a function on a file; `none` is a panic
abbrev pub Run : Type 0 → Type 0
Run A = Option (Result A × File × Disk)

abbrev pub ndirect : ℕ
ndirect = 10

abbrev pub nindirect : ℕ
nindirect = 1024

-- what `alloc_block` returns, as the `uint32_t` in which it is kept: -E_NO_DISK is -9
abbrev pub block_word : Option ℕ → ℕ
block_word none = 0xffff_fff7
block_word (some b) = b

-- the slot in the indirect block, with the test of `diskaddr`
in_indirect : (filebno : ℕ) → File → Disk → Run Slot
in_indirect filebno f d =
    if has_addr d f.f_indirect
    then some (ok (indirect f.f_indirect (filebno - ndirect)), f, d)
    else none

-- `memset(diskaddr(f->f_indirect), 0, BLKSIZE)` and what follows it
clear_indirect : (filebno : ℕ) → File → Disk → Run Slot
unfolding in_indirect
clear_indirect filebno f d =
    if has_addr d f.f_indirect
    then in_indirect filebno f (record d { blocks = update d.blocks f.f_indirect (λ _. 0) })
    else none

new_indirect : (filebno : ℕ) → File → Option (Option ℕ × Disk) → Run Slot
unfolding clear_indirect
new_indirect filebno f none = none
new_indirect filebno f (some (o, d)) =
    if block_word o == 0
    then some (err no_disk, record f { f_indirect = block_word o }, d)
    else clear_indirect filebno (record f { f_indirect = block_word o }) d

-- `file_block_walk`
unfoldable pub file_block_walk : (filebno : ℕ) → (alloc : Bool) → File → Disk → Run Slot
unfolding in_indirect new_indirect
file_block_walk filebno alloc f d =
    if ltb filebno ndirect
    then some (ok (direct filebno), f, d)
    else if ltb filebno 1034
    then if f.f_indirect == 0
      then if alloc then new_indirect filebno f (alloc_block d) else some (err not_found, f, d)
      else in_indirect filebno f d
    else some (err inval, f, d)

-- `*pdiskbno`
abbrev pub read_slot : File → Disk → Slot → ℕ
read_slot f d (direct i) = f.f_direct i
read_slot f d (indirect b i) = d.blocks b i

-- `*pdiskbno = w`
abbrev pub write_slot : Slot → ℕ → File → Disk → File × Disk
write_slot (direct i) w f d = (record f { f_direct = update f.f_direct i w }, d)
write_slot (indirect b i) w f d =
    (f, record d { blocks = update d.blocks b (update (d.blocks b) i w) })

-- the end of `file_get_block`, for the number in the slot
get_found : ℕ → File × Disk → Run ℕ
get_found w (f, d) =
    if w == 0 then some (err no_disk, f, d) else if has_addr d w then some (ok w, f, d) else none

get_new : Slot → File → Option (Option ℕ × Disk) → Run ℕ
unfolding get_found
get_new slot f none = none
get_new slot f (some (o, d)) = get_found (block_word o) (write_slot slot (block_word o) f d)

get_walked : Run Slot → Run ℕ
unfolding get_found get_new
get_walked none = none
get_walked (some (err e, f, d)) = some (err e, f, d)
get_walked (some (ok slot, f, d)) =
    if read_slot f d slot == 0
    then get_new slot f (alloc_block d)
    else get_found (read_slot f d slot) (f, d)

-- `file_get_block`: the number of the block
unfoldable pub file_get_block : (filebno : ℕ) → File → Disk → Run ℕ
unfolding get_walked
file_get_block filebno f d = get_walked (file_block_walk filebno true f d)

freed : Slot → File → Option (Unit {0} × Disk) → Run (Unit {0})
freed slot f none = none
freed slot f (some (u, d)) = let r = write_slot slot 0 f d in some (ok tt, r.0, r.1)

free_walked : Run Slot → Run (Unit {0})
unfolding freed
free_walked none = none
free_walked (some (err e, f, d)) = some (err e, f, d)
free_walked (some (ok slot, f, d)) =
    if read_slot f d slot == 0
    then some (ok tt, f, d)
    else freed slot f (free_block (read_slot f d slot) d)

-- `file_free_block`
unfoldable pub file_free_block : (filebno : ℕ) → File → Disk → Run (Unit {0})
unfolding free_walked
file_free_block filebno f d = free_walked (file_block_walk filebno false f d)
