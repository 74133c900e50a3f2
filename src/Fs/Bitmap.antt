-- ===== src/Fs/Bitmap.antt =====
-- fs/fs.c and fs/bc.c: the blocks of the disk and the bitmap of free blocks. The bitmap occupies the
-- blocks from 2 on. A block is read from the disk when it is first touched and written back by
-- `flush_block`, so that `blocks` is what the server sees, and `stored` what the disk holds.
pub mod Alloc
pub mod Check
pub mod Reserved
use oscourse.Base.{
  ℕ, zero, suc, ◌+◌, ◌*◌, ◌/◌, ◌%◌, ◌^◌, Bool, true, false, ◌||◌, Option, none, some, ltb, leb,
  ◌==◌, if◌then◌else◌, update,
}
use oscourse.Base.Bits.{test_bit, set_bit, clear_bit}

-- `super->s_nblocks`, and the words of the blocks by number and index
pub record Disk : Type 0 where
  pub s_nblocks : ℕ
  pub blocks : ℕ → ℕ → ℕ
  pub stored : ℕ → ℕ → ℕ

-- A function of the file server: `none` is a panic.
abbrev pub D : Type 0 → Type 0
D A = Disk → Option (A × Disk)

-- the words that a bitmap block holds
abbrev pub blkwords : ℕ
blkwords = 1024

-- `bitmap[i]`
abbrev pub bitmap : Disk → ℕ → ℕ
bitmap d i = d.blocks (2 + i / blkwords) (i % blkwords)

-- `bitmap[i] = w`
unfoldable pub set_bitmap : Disk → ℕ → ℕ → Disk
set_bitmap d i w = record d {
  blocks =
      update d.blocks (2 + i / blkwords) (update (d.blocks (2 + i / blkwords)) (i % blkwords) w);
}

-- `block_is_free`; `super` is set before the first call
unfoldable pub block_is_free : Disk → ℕ → Bool
block_is_free d blockno =
    if leb d.s_nblocks blockno then false else test_bit (bitmap d (blockno / 32)) (blockno % 32)

-- `free_block`
unfoldable pub free_block : ℕ → D (Unit {0})
free_block blockno d =
    if blockno == 0
    then none
    else some (tt, set_bitmap d (blockno / 32) (set_bit (bitmap d (blockno / 32)) (blockno % 32)))

-- the test of `diskaddr`, which panics if it fails
abbrev pub has_addr : Disk → ℕ → Bool
has_addr d blockno = if blockno == 0 then false else ltb blockno d.s_nblocks

-- `flush_block(diskaddr(blockno))`
abbrev pub flush_block : ℕ → D (Unit {0})
flush_block blockno d =
    if has_addr d blockno
    then some (tt, record d { stored = update d.stored blockno (d.blocks blockno) })
    else none

flushed : ℕ → Option (Unit {0} × Disk) → Option (Option ℕ × Disk)
flushed blockno none = none
flushed blockno (some (u, d)) = some (some blockno, d)

-- the body of the loop of `alloc_block` for a block that is free
pub take_block : ℕ → D (Option ℕ)
unfolding flushed
take_block blockno d =
    if blockno == 0
    then none
    else flushed blockno (
        flush_block blockno
          (set_bitmap d (blockno / 32) (clear_bit (bitmap d (blockno / 32)) (blockno % 32))))

-- the rounds `blockno`, `blockno + 1`, ... of that loop, `n` of them
search_from : (n blockno : ℕ) → D (Option ℕ)
unfolding take_block
search_from zero blockno d = some (none, d)
search_from (suc n) blockno d =
    let rest = search_from n (blockno + 1) d in
    if block_is_free d blockno then take_block blockno d else rest

-- `super->s_nblocks * BLKBITSIZE` on 32-bit words, where the loop stops
abbrev pub search_end : Disk → ℕ
search_end d = d.s_nblocks * 2 ^ 15 % 2 ^ 32

-- `alloc_block`; the inner `none` is -E_NO_DISK
unfoldable pub alloc_block : D (Option ℕ)
unfolding search_from
alloc_block d = search_from (search_end d) 0 d
