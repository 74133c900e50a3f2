-- ===== src/Fs/Data/RoundTrip.antt =====
-- Reading back what was written to a file.
use oscourse.Base.{
  ℕ, zero, suc, ◌+◌, ◌-◌, ◌/◌, ◌%◌, ◌≤◌, ◌<◌, ◌≡◌, refl, ap, ap₂, ◌∙◌, ◌≢◌, inl, inr, false, some,
  List, [], ◌∷◌, arith, ltb, leb, ◌==◌, if◌then◌else◌, Bool-cases, length, take, drop, take-length,
  drop-length, append-nil,
}
use oscourse.Fs.Bitmap.{Disk}
use oscourse.Fs.Bytes.{
  write_bytes, read_bytes, AreBytes, read_bytes-write_bytes, write_bytes-s_nblocks,
}
use oscourse.Fs.File.{File, ok, ndirect}
use oscourse.Fs.File.Block.{get_full_slot}
use oscourse.Fs.Data.{
  blksize, chunk, least, read_loop, read_round, read_more, file_read, file_set_size, write_round,
  write_loop, written, file_write,
}

-- `buf` fits in the block of `offset`, which direct slot `offset / blksize` of the file holds.
pub record IsWithin (f : File) (d : Disk) (offset b : ℕ) (buf : List ℕ) : Type 0 where
  pub slot : offset / blksize < ndirect
  pub held : f.f_direct (offset / blksize) ≡ b
  pub block : b ≢ 0
  pub inside : b < d.s_nblocks
  pub fits : offset % blksize + length buf ≤ blksize
  pub bytes : AreBytes buf

-- the file that is long enough for `n` bytes
abbrev pub grown : File → (n : ℕ) → File
grown f n = record f { f_size = if ltb f.f_size n then n else f.f_size }

make_room :
    (f : File) (d : Disk) (n : ℕ)
    → (if ltb f.f_size n then file_set_size n f d else some (f, d)) ≡ some (grown f n, d)
unfolding file_set_size
make_room f d n = elim (Bool-cases (ltb f.f_size n)) [
  | inl short ↦ let e : ltb n f.f_size ≡ false = ground (arith, short) in rw (short, e) refl
  | inr long ↦ rw long refl
]

whole_chunk : (pos left : ℕ) → pos % blksize + left ≤ blksize → chunk pos left ≡ left
whole_chunk pos left h = ground (arith, h)

write_loop-nil :
    (fuel pos : ℕ) (f : File) (d : Disk) → write_loop fuel pos [] f d ≡ some (ok tt, f, d)
unfolding write_loop
write_loop-nil zero pos f d = refl
write_loop-nil (suc fuel) pos f d = refl

read_loop-zero :
    (fuel pos : ℕ) (f : File) (d : Disk) → read_loop fuel pos 0 f d ≡ some (ok [], f, d)
unfolding read_loop
read_loop-zero zero pos f d = refl
read_loop-zero (suc fuel) pos f d = refl

write_one :
    (f : File) (d : Disk) (offset b v : ℕ) (vs : List ℕ)
    → IsWithin f d offset b (v ∷ vs)
    → write_loop (length (v ∷ vs)) offset (v ∷ vs) f d
      ≡ some (ok tt, f, write_bytes d b (offset % blksize) (v ∷ vs))
unfolding write_loop
write_one f d offset b v vs w =
    let buf = v ∷ vs in
    let n = length buf in
    let c = whole_chunk offset n w.fits in
    ap
      (write_round offset buf
        (write_loop (length vs) (offset + chunk offset n) (drop (chunk offset n) buf)))
      (get_full_slot (offset / blksize) f d b w.slot w.held w.block w.inside)
    ∙ ap₂
        (λ l x.
          write_loop (length vs) (offset + chunk offset n) l f
            (write_bytes d b (offset % blksize) x))
        (ap (λ k. drop k buf) c ∙ drop-length buf) (ap (λ k. take k buf) c ∙ take-length buf)
    ∙ write_loop-nil (length vs) (offset + chunk offset n) f
        (write_bytes d b (offset % blksize) buf)

read_one :
    (f : File) (d : Disk) (offset b n : ℕ)
    → offset / blksize < ndirect
    → f.f_direct (offset / blksize) ≡ b
    → b ≢ 0
    → b < d.s_nblocks
    → offset % blksize + suc n ≤ blksize
    → read_loop (suc n) offset (suc n) f d
      ≡ some (ok (read_bytes d b (offset % blksize) (suc n)), f, d)
unfolding read_loop
read_one f d offset b n slot held block inside fits =
    let c = whole_chunk offset (suc n) fits in
    let rest : suc n - chunk offset (suc n) ≡ 0 = omega (arith, c) in
    let more : (suc n == 0) ≡ false = ground arith in
    rw more (
      ap
        (read_round offset (suc n)
          (read_loop n (offset + chunk offset (suc n)) (suc n - chunk offset (suc n))))
        (get_full_slot (offset / blksize) f d b slot held block inside)
      ∙ ap₂
          (λ k l.
            read_more (read_bytes d b (offset % blksize) k)
              (read_loop n (offset + chunk offset (suc n)) l f d))
          c rest
      ∙ ap (read_more (read_bytes d b (offset % blksize) (suc n)))
          (read_loop-zero n (offset + chunk offset (suc n)) f d)
      ∙ ap (λ l. some (ok l, f, d)) (append-nil (read_bytes d b (offset % blksize) (suc n))))

grown-size :
    (f : File) (offset n : ℕ)
    → 0 < n
    → (leb (grown f (offset + n)).f_size offset ≡ false)
      × (least n ((grown f (offset + n)).f_size - offset) ≡ n)
grown-size f offset n pos = (ground (arith, pos), ground (arith, pos))

-- Let bytes fit in the rest of the block of `offset`, which a direct slot of the file holds. Then
-- `file_write` writes them all, growing the file if it was shorter, and `file_read` at the same
-- offset gives them back and changes nothing.
pub file_read-file_write :
    (f : File) (d : Disk) (offset b v : ℕ) (vs : List ℕ)
    → IsWithin f d offset b (v ∷ vs)
    → let f' = grown f (offset + length (v ∷ vs)) in
      (d' : Disk) × (file_write (v ∷ vs) offset f d ≡ some (ok tt, f', d'))
      × (file_read (length (v ∷ vs)) offset f' d' ≡ some (ok (v ∷ vs), f', d'))
unfolding file_write file_read
file_read-file_write f d offset b v vs w =
    let buf = v ∷ vs in
    let n = length buf in
    let f' = grown f (offset + n) in
    let w' : IsWithin f' d offset b buf = record {
      slot = w.slot;
      held = w.held;
      block = w.block;
      inside = w.inside;
      fits = w.fits;
      bytes = w.bytes;
    } in
    let d' = write_bytes d b (offset % blksize) buf in
    let s = grown-size f offset n (omega arith) in
    (
      d',
      ap (written offset buf) (make_room f d (offset + n)) ∙ write_one f' d offset b v vs w',
      rw (s.0, s.1)
          (read_one f' d' offset b (length vs) w.slot w.held w.block
              (rw (write_bytes-s_nblocks d b (offset % blksize) buf) w.inside) w.fits
            ∙ ap (λ l. some (ok l, f', d'))
                (read_bytes-write_bytes d b (offset % blksize) buf w.bytes)),
    )
