-- ===== src/Fs/Data/Tests.antt =====
-- Three bytes written at offset 8190 of a file of 5000 bytes and block 6 at its second slot.
use oscourse.Base.{ℕ, ◌≡◌, refl, arith, some, List, [], ◌∷◌, ◌==◌, if◌then◌else◌}
use oscourse.Fs.Bitmap.{Disk}
use oscourse.Fs.File.{File, ok}
use oscourse.Fs.Data.{file_read, file_write}
use oscourse.Fs.Data.RoundTrip.{IsWithin, grown, file_read-file_write}

abbrev disk : Disk
disk = record { s_nblocks = 40; blocks = λ b i. 7; stored = λ b i. 7 }

abbrev file : File
file = record { f_size = 5000; f_type = 0; f_direct = λ i. if i == 1 then 6 else 0; f_indirect = 0 }

abbrev text : List ℕ
text = 65 ∷ 66 ∷ []

text-IsWithin : IsWithin file disk 8190 6 text
text-IsWithin = record {
  slot = omega arith;
  held = refl;
  block = omega arith;
  inside = omega arith;
  fits = omega arith;
  bytes = (omega arith, (omega arith, tt));
}

file_read-file_write_example :
    let f' = grown file 8192 in
    (d' : Disk) × (file_write text 8190 file disk ≡ some (ok tt, f', d'))
    × (file_read 2 8190 f' d' ≡ some (ok text, f', d'))
file_read-file_write_example = file_read-file_write file disk 8190 6 65 (66 ∷ []) text-IsWithin
