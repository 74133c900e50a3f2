-- ===== src/Fs/Bytes.antt =====
-- The bytes of a block, of which a word holds four, the low one first.
use oscourse.Base.{
  ℕ, zero, suc, ◌+◌, ◌-◌, ◌*◌, ◌/◌, ◌%◌, ◌<◌, ◌≡◌, refl, sym, ap, ap₂, ◌∙◌, inl, inr, List, [], ◌∷◌,
  arith, ◌==◌, ==_iff, if◌then◌else◌, update, length, All, Bool-cases,
}
use oscourse.Fs.Bitmap.{Disk}

-- the weight of byte `k` of a word
abbrev pub place : ℕ → ℕ
place k = if k == 0 then 1 else if k == 1 then 256 else if k == 2 then 65536 else 16777216

unfoldable pub get_byte : (w k : ℕ) → ℕ
get_byte w k = w / place k % 256

unfoldable pub set_byte : (w k v : ℕ) → ℕ
unfolding get_byte
set_byte w k v = w - get_byte w k * place k + v * place k

get_byte-set_byte :
    (w j k v : ℕ)
    → j < 4
    → k < 4
    → v < 256
    → get_byte (set_byte w k v) j ≡ (if j == k then v else get_byte w j)
unfolding set_byte
get_byte-set_byte w j k v h h' small = ground arith

-- byte `i` of block `b`, and a write to it
unfoldable pub byte_at : Disk → (b i : ℕ) → ℕ
unfolding get_byte
byte_at d b i = get_byte (d.blocks b (i / 4)) (i % 4)

unfoldable pub put_byte : Disk → (b i v : ℕ) → Disk
unfolding set_byte
put_byte d b i v = record d {
  blocks =
      update d.blocks b (update (d.blocks b) (i / 4) (set_byte (d.blocks b (i / 4)) (i % 4) v));
}

put_byte-word :
    (d : Disk) (b i v j : ℕ)
    → (put_byte d b i v).blocks b j
      ≡ (if j == i / 4 then set_byte (d.blocks b (i / 4)) (i % 4) v else d.blocks b j)
unfolding put_byte update
put_byte-word d b i v j = ground arith

pub byte_at-put_byte :
    (d : Disk) (b i v j : ℕ)
    → v < 256
    → byte_at (put_byte d b i v) b j ≡ (if j == i then v else byte_at d b j)
unfolding byte_at
byte_at-put_byte d b i v j small =
    ap (λ w. get_byte w (j % 4)) (put_byte-word d b i v (j / 4))
    ∙ elim (Bool-cases (j / 4 == i / 4)) [
      | inl near ↦
          let e = (==_iff (j / 4) (i / 4)).0 near in
          let same : (j % 4 == i % 4) ≡ (j == i) = ground (arith, e) in
          rw (near) (
            get_byte-set_byte (d.blocks b (i / 4)) (j % 4) (i % 4) v (omega arith) (omega arith)
              small
            ∙ ap₂ (λ t w. if t then v else get_byte (d.blocks b w) (j % 4)) same (sym e))
      | inr far ↦ ground (arith, far)
    ]

-- `memmove(blk + i, buf, n)` and `memmove(buf, blk + i, n)`, where `buf` is no part of the disk
unfoldable pub write_bytes : Disk → (b i : ℕ) → List ℕ → Disk
write_bytes d b i [] = d
write_bytes d b i (v ∷ vs) = write_bytes (put_byte d b i v) b (i + 1) vs

unfoldable pub read_bytes : Disk → (b i n : ℕ) → List ℕ
read_bytes d b i zero = []
read_bytes d b i (suc n) = byte_at d b i ∷ read_bytes d b (i + 1) n

abbrev pub AreBytes : List ℕ → Type 0
AreBytes = All (λ v. v < 256)

byte_at-write_bytes :
    (d : Disk) (b i j : ℕ) (vs : List ℕ)
    → AreBytes vs
    → j < i
    → byte_at (write_bytes d b i vs) b j ≡ byte_at d b j
unfolding write_bytes
byte_at-write_bytes d b i j [] small h = refl
byte_at-write_bytes d b i j (v ∷ vs) small h =
    byte_at-write_bytes (put_byte d b i v) b (i + 1) j vs small.1 (omega arith)
    ∙ ground (arith, byte_at-put_byte d b i v j small.0)

pub read_bytes-write_bytes :
    (d : Disk) (b i : ℕ) (vs : List ℕ)
    → AreBytes vs
    → read_bytes (write_bytes d b i vs) b i (length vs) ≡ vs
unfolding read_bytes write_bytes
read_bytes-write_bytes d b i [] small = refl
read_bytes-write_bytes d b i (v ∷ vs) small =
    let first =
      byte_at-write_bytes (put_byte d b i v) b (i + 1) i vs small.1 (omega arith)
      ∙ byte_at-put_byte d b i v i small.0 in
    ap₂ (λ a l. a ∷ l) (ground (arith, first))
      (read_bytes-write_bytes (put_byte d b i v) b (i + 1) vs small.1)

-- Writing bytes changes neither the size of the disk nor what is stored.
pub write_bytes-s_nblocks :
    (d : Disk) (b i : ℕ) (vs : List ℕ) → (write_bytes d b i vs).s_nblocks ≡ d.s_nblocks
unfolding write_bytes put_byte
write_bytes-s_nblocks d b i [] = refl
write_bytes-s_nblocks d b i (v ∷ vs) = write_bytes-s_nblocks (put_byte d b i v) b (i + 1) vs
