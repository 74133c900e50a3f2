-- ===== src/Fs/Data.antt =====
-- fs/fs.c: reading and writing the bytes of a file, and its size. Offsets and sizes are below 2^31.
-- Marking a block for the disk by `flush_block` and the file's own entry are not kept here.
pub mod RoundTrip
mod Tests
use oscourse.Base.{
  ℕ, zero, suc, ◌+◌, ◌-◌, ◌/◌, ◌%◌, Bool, true, false, not, ◌&&◌, Option, none, some, List, [], ◌∷◌,
  ◌++◌, ltb, leb, ◌==◌, if◌then◌else◌, length, take, drop,
}
use oscourse.Fs.Bitmap.{Disk, free_block}
use oscourse.Fs.Bytes.{write_bytes, read_bytes}
use oscourse.Fs.File.{File, Result, ok, err, Run, ndirect, file_get_block, file_free_block}

abbrev pub blksize : ℕ
blksize = 4096

abbrev pub least : (m n : ℕ) → ℕ
least m n = if ltb m n then m else n

-- the bytes that one round of a loop moves: to the end of the block, or what is left
abbrev pub chunk : (pos left : ℕ) → ℕ
chunk pos left = least (blksize - pos % blksize) left

read_more : List ℕ → Run (List ℕ) → Run (List ℕ)
read_more bytes none = none
read_more bytes (some (err e, f, d)) = some (err e, f, d)
read_more bytes (some (ok more, f, d)) = some (ok (bytes ++ more), f, d)

-- what follows `file_get_block` in a round of `file_read`
read_round : (pos left : ℕ) → (rest : File → Disk → Run (List ℕ)) → Run ℕ → Run (List ℕ)
unfolding read_more
read_round pos left rest none = none
read_round pos left rest (some (err e, f, d)) = some (err e, f, d)
read_round pos left rest (some (ok b, f, d)) =
    read_more (read_bytes d b (pos % blksize) (chunk pos left)) (rest f d)

-- the loop of `file_read` for `left` bytes from `pos` on, with as many rounds at most
unfoldable pub read_loop : (fuel pos left : ℕ) → File → Disk → Run (List ℕ)
unfolding read_round
read_loop zero pos left f d = some (ok [], f, d)
read_loop (suc fuel) pos left f d =
    let bn = chunk pos left in
    let round =
      read_round pos left (read_loop fuel (pos + bn) (left - bn))
        (file_get_block (pos / blksize) f d) in
    if left == 0 then some (ok [], f, d) else round

-- `file_read`: the bytes that it puts in the buffer, whose number it returns
unfoldable pub file_read : (count offset : ℕ) → File → Disk → Run (List ℕ)
unfolding read_loop
file_read count offset f d =
    if leb f.f_size offset
    then some (ok [], f, d)
    else let n = least count (f.f_size - offset) in read_loop n offset n f d

blocks_of : (size : ℕ) → ℕ
blocks_of size = (size + blksize - 1) / blksize

-- the loop of `file_truncate_blocks` from block `bno` on, which goes on after an error
unfoldable pub free_from : (n bno : ℕ) → File → Disk → Option (File × Disk)
free_from zero bno f d = some (f, d)
free_from (suc n) bno f d = elim (file_free_block bno f d) [
  | none ↦ none
  | some (r, f', d') ↦ free_from n (bno + 1) f' d'
]

-- and the indirect block, if there is one that is no longer needed
free_indirect : (new_nblocks : ℕ) → Option (File × Disk) → Option (File × Disk)
free_indirect new_nblocks none = none
free_indirect new_nblocks (some (f, d)) =
    if leb new_nblocks ndirect && not (f.f_indirect == 0)
    then elim (free_block f.f_indirect d) [
      | none ↦ none
      | some (u, d') ↦ some (record f { f_indirect = 0 }, d')
    ]
    else some (f, d)

-- `file_truncate_blocks`
unfoldable pub file_truncate_blocks : (newsize : ℕ) → File → Disk → Option (File × Disk)
unfolding blocks_of free_indirect free_from
file_truncate_blocks newsize f d =
    free_indirect (blocks_of newsize)
      (free_from (blocks_of f.f_size - blocks_of newsize) (blocks_of newsize) f d)

resized : (newsize : ℕ) → Option (File × Disk) → Option (File × Disk)
resized newsize none = none
resized newsize (some (f, d)) = some (record f { f_size = newsize }, d)

-- `file_set_size`
unfoldable pub file_set_size : (newsize : ℕ) → File → Disk → Option (File × Disk)
unfolding file_truncate_blocks resized
file_set_size newsize f d =
    resized newsize (if ltb newsize f.f_size then file_truncate_blocks newsize f d else some (f, d))

-- what follows `file_get_block` in a round of `file_write`
write_round : (pos : ℕ) → List ℕ → (rest : File → Disk → Run (Unit {0})) → Run ℕ → Run (Unit {0})
write_round pos buf rest none = none
write_round pos buf rest (some (err e, f, d)) = some (err e, f, d)
write_round pos buf rest (some (ok b, f, d)) =
    rest f (write_bytes d b (pos % blksize) (take (chunk pos (length buf)) buf))

-- the loop of `file_write` for the bytes of `buf` from `pos` on
unfoldable pub write_loop : (fuel pos : ℕ) → List ℕ → File → Disk → Run (Unit {0})
unfolding write_round
write_loop zero pos buf f d = some (ok tt, f, d)
write_loop (suc fuel) pos [] f d = some (ok tt, f, d)
write_loop (suc fuel) pos (v ∷ vs) f d =
    let bn = chunk pos (length (v ∷ vs)) in
    write_round pos (v ∷ vs) (write_loop fuel (pos + bn) (drop bn (v ∷ vs)))
      (file_get_block (pos / blksize) f d)

written : (offset : ℕ) → List ℕ → Option (File × Disk) → Run (Unit {0})
unfolding write_loop
written offset buf none = none
written offset buf (some (f, d)) = write_loop (length buf) offset buf f d

-- `file_write`; it returns the number of bytes, all of them
unfoldable pub file_write : List ℕ → (offset : ℕ) → File → Disk → Run (Unit {0})
unfolding written file_set_size
file_write buf offset f d = written offset buf (
    if ltb f.f_size (offset + length buf)
    then file_set_size (offset + length buf) f d
    else some (f, d))
