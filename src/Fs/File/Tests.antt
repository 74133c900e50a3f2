-- ===== src/Fs/File/Tests.antt =====
-- The theorems on blocks at a disk of 40 blocks, of which block 35 is free or none is.
use oscourse.Base.{
  zero, suc, ◌/◌, ◌%◌, ◌<◌, inl, inr, Bool-cases, ℕ, ◌≡◌, ◌≤◌, ◌+◌, refl, true, false, ◌&&◌, none,
  some, arith, ltb, ◌==◌, if◌then◌else◌,
}
use oscourse.Base.Bits.{test_bit, test_bit-zero}
use oscourse.Fs.Bitmap.{Disk, block_is_free, alloc_block, search_end}
use oscourse.Fs.Bitmap.Alloc.{Taken, alloc_block-first}
use oscourse.Fs.Bitmap.Check.{fs_magic, fs_init, bitmap_blocks}
use oscourse.Fs.Bitmap.Reserved.{DiskReach, here, next, flush, alloc_block-DiskReach}
use oscourse.Fs.File.{File, ok, file_get_block, file_free_block}
use oscourse.Fs.File.Block.{file_get_block-full, file_free_block-file_get_block}

abbrev disk : (s_nblocks bits : ℕ) → Disk
disk s_nblocks bits = record {
  s_nblocks = s_nblocks;
  blocks = λ b i.
      if (b == 2) && (i == 1)
      then bits
      else if b == 1
      then if i == 0 then fs_magic else s_nblocks
      else 0;
  stored = λ b i. 0;
}

abbrev file : File
file = record { f_size = 0; f_type = 0; f_direct = λ i. 0; f_indirect = 0 }

low_bits : (k : ℕ) → k < 3 → test_bit 8 k ≡ false
unfolding test_bit
low_bits zero h = refl
low_bits (suc zero) h = refl
low_bits (suc (suc zero)) h = refl
low_bits (suc (suc (suc k))) h = absurd (omega arith)

below_35 : (c : ℕ) → (ltb c 35 && block_is_free (disk 40 8) c) ≡ false
unfolding block_is_free
below_35 c = elim (Bool-cases (ltb c 35)) [
  | inr over ↦ rw over refl
  | inl under ↦ elim (Bool-cases (c / 32 == 1)) [
    | inl second ↦ let low : c % 32 < 3 = ground arith in ground (arith, low_bits (c % 32) low)
    | inr first ↦ ground (arith, test_bit-zero (c % 32))
  ]
]

none_free : (c : ℕ) → (ltb c (search_end (disk 40 0)) && block_is_free (disk 40 0) c) ≡ false
unfolding block_is_free
none_free c = ground (arith, test_bit-zero (c % 32))

free_35 : block_is_free (disk 40 8) 35 ≡ true
unfolding block_is_free test_bit
free_35 = refl

used_0 : block_is_free (disk 40 8) 0 ≡ false
unfolding block_is_free test_bit
used_0 = refl

alloc_block-first_example :
    (d' : Disk) × (alloc_block (disk 40 8) ≡ some (some 35, d')) × Taken (disk 40 8) d' 35
alloc_block-first_example = alloc_block-first (disk 40 8) 35 used_0 (omega arith) free_35 below_35

checked : fs_init (disk 40 8) ≡ some (disk 40 8)
unfolding fs_init block_is_free test_bit
checked = refl

-- the disk after a write
abbrev written : Disk
written = record (disk 40 8) { stored = λ b i. 1 }

written-reached : DiskReach (disk 40 8) written
written-reached = next here (flush (λ b i. 1) refl)

allocated_later : (d' : Disk) × (alloc_block written ≡ some (some 35, d')) × Taken written d' 35
unfolding block_is_free
allocated_later = alloc_block-first written 35 used_0 (omega arith) free_35 below_35

alloc_block-DiskReach_example : 2 + bitmap_blocks written ≤ 35
alloc_block-DiskReach_example =
    alloc_block-DiskReach (disk 40 8) (disk 40 8) written allocated_later.0 35 checked
      written-reached allocated_later.1

file_get_block-full_example : file_get_block 4 file (disk 40 0) ≡ none
file_get_block-full_example =
    file_get_block-full 4 file (disk 40 0) (omega arith) refl (omega arith) none_free

file_free_block-file_get_block_example :
    (f' f'' : File) × (d' d'' : Disk) × (file_get_block 4 file (disk 40 8) ≡ some (ok 35, f', d'))
    × (file_free_block 4 f' d' ≡ some (ok tt, f'', d''))
    × (f''.f_direct 4 ≡ 0)
    × ((c : ℕ) → block_is_free d'' c ≡ block_is_free (disk 40 8) c)
file_free_block-file_get_block_example =
    file_free_block-file_get_block 4 file (disk 40 8) 35 (omega arith) refl used_0 (omega arith)
      free_35 below_35
