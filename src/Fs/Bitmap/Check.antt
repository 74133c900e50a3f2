-- ===== src/Fs/Bitmap/Check.antt =====
-- fs/fs.c: the checks of the super block and the bitmap by which fs_init begins, and what they keep
-- alloc_block from. The self test of the block cache in bc_init restores what it changes.
use oscourse.Base.{
  ℕ, zero, suc, ◌+◌, ◌/◌, ◌≤◌, ◌<◌, Bool, true, false, not, ◌&&◌, Option, none, some, ltb, ◌==◌,
  if◌then◌else◌, ◌≡◌, inl, inr, refl, sym, ap, ◌∙◌, arith, Bool-cases, ◌%◌,
}
use oscourse.Base.Bits.{clear_bit}
use oscourse.Fs.Bitmap.{
  Disk, block_is_free, has_addr, flush_block, flushed, take_block, search_from, alloc_block,
  set_bitmap, bitmap,
}

-- FS_MAGIC, and DISKSIZE in blocks
abbrev pub fs_magic : ℕ
fs_magic = 0x4a0530ae

abbrev pub max_blocks : ℕ
max_blocks = 0xc0000

-- `check_super`: whether it comes back; `s_magic` is the first word of block 1
pub check_super : Disk → Bool
check_super d = (d.blocks 1 0 == fs_magic) && not (ltb max_blocks d.s_nblocks)

-- the blocks that the bitmap takes, which is the number of rounds of the loop of `check_bitmap`
abbrev pub bitmap_blocks : Disk → ℕ
bitmap_blocks d = (d.s_nblocks + 32767) / 32768

-- the rounds `i`, `i + 1`, ... of that loop, `n` of them: whether all assertions hold
check_rounds : (n i : ℕ) → Disk → Bool
check_rounds zero i d = true
check_rounds (suc n) i d = not (block_is_free d (2 + i)) && check_rounds n (i + 1) d

-- `check_bitmap`: whether it comes back
pub check_bitmap : Disk → Bool
unfolding check_rounds
check_bitmap d =
    check_rounds (bitmap_blocks d) 0 d && (not (block_is_free d 0) && not (block_is_free d 1))

-- `super = diskaddr(1)`
abbrev pub with_super : Disk → Disk
with_super d = record d { s_nblocks = d.blocks 1 1 }

-- `fs_init` once the block cache is set up; `none` is a panic
unfoldable pub fs_init : Disk → Option Disk
unfolding check_super check_bitmap
fs_init d =
    if check_super (with_super d) && (has_addr (with_super d) 2 && check_bitmap (with_super d))
    then some (with_super d)
    else none

check_rounds-used :
    (n i c : ℕ) (d : Disk)
    → check_rounds n i d ≡ true
    → i ≤ c
    → c < i + n
    → block_is_free d (2 + c) ≡ false
unfolding check_rounds
check_rounds-used zero i c d h from below = absurd (omega arith)
check_rounds-used (suc n) i c d h from below = elim (Bool-cases (c == i)) [
  | inl e ↦ let at : c ≡ i = ground arith in ap (λ k. block_is_free d (2 + k)) at ∙ ground arith
  | inr e ↦
      let next : i + 1 ≤ c = ground arith in
      check_rounds-used n (i + 1) c d (ground arith) next (omega arith)
]

-- the blocks before the first data block are in use
check_bitmap-used :
    (d : Disk) (b : ℕ) → check_bitmap d ≡ true → b < 2 + bitmap_blocks d → block_is_free d b ≡ false
unfolding check_bitmap
check_bitmap-used d zero h below = ground arith
check_bitmap-used d (suc zero) h below = ground arith
check_bitmap-used d (suc (suc c)) h below =
    let e : 2 + c ≡ suc (suc c) = omega arith in
    ap (block_is_free d) (sym e)
    ∙ check_rounds-used (bitmap_blocks d) 0 c d (ground arith) (omega arith) (omega arith)

flushed-block :
    (blockno b : ℕ) (r : Option (Unit {0} × Disk)) (d : Disk)
    → flushed blockno r ≡ some (some b, d)
    → b ≡ blockno
unfolding flushed
flushed-block blockno b none d h = absurd (ground arith)
flushed-block blockno b (some (u, m)) d h = ground arith

take_block-block :
    (blockno b : ℕ) (d d' : Disk) → take_block blockno d ≡ some (some b, d') → b ≡ blockno
unfolding take_block
take_block-block blockno b d d' h = elim (Bool-cases (blockno == 0)) [
  | inl e ↦
      let panics : take_block blockno d ≡ none = rw e refl in
      absurd (ground (arith, sym panics ∙ h))
  | inr e ↦
      let r =
        flush_block blockno
          (set_bitmap d (blockno / 32) (clear_bit (bitmap d (blockno / 32)) (blockno % 32))) in
      let taken : take_block blockno d ≡ flushed blockno r = rw e refl in
      flushed-block blockno b r d' (sym taken ∙ h)
]

search_from-free :
    (n i b : ℕ) (d d' : Disk) → search_from n i d ≡ some (some b, d') → block_is_free d b ≡ true
unfolding search_from
search_from-free zero i b d d' h = absurd (ground arith)
search_from-free (suc n) i b d d' h = elim (Bool-cases (block_is_free d i)) [
  | inl e ↦ ap (block_is_free d) (take_block-block i b d d' (sym (rw e refl) ∙ h)) ∙ e
  | inr e ↦ search_from-free n (i + 1) b d d' (sym (rw e refl) ∙ h)
]

fs_init-checked :
    (d d' : Disk) → fs_init d ≡ some d' → (check_bitmap (with_super d) ≡ true) × (d' ≡ with_super d)
unfolding fs_init
fs_init-checked d d' h = (ground arith, ground arith)

-- Once `fs_init` comes back, the blocks before the first data block are in use.
pub fs_init-used :
    (d d' : Disk) (b : ℕ)
    → fs_init d ≡ some d'
    → b < 2 + bitmap_blocks d'
    → block_is_free d' b ≡ false
fs_init-used d d' b h below =
    let c = fs_init-checked d d' h in check_bitmap-used d' b (ap check_bitmap c.1 ∙ c.0) below

-- A block that `alloc_block` returns was free.
pub alloc_block-free :
    (d d' : Disk) (b : ℕ) → alloc_block d ≡ some (some b, d') → block_is_free d b ≡ true
unfolding alloc_block
alloc_block-free d d' b got = search_from-free _ 0 b d d' got
