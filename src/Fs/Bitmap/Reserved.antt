-- ===== src/Fs/Bitmap/Reserved.antt =====
-- fs/fs.c: the blocks that the super block and the bitmap take, in every state that the file server
-- reaches by its operations on blocks once fs_init has checked the disk.
use oscourse.Base.{
  ℕ, zero, suc, ◌+◌, ◌/◌, ◌≤◌, ◌<◌, true, false, Option, some, ltb, ◌==◌, ◌≡◌, inl, inr, refl, sym,
  ap, subst, ◌∙◌, arith, Bool-cases, ltb→lt, ltb→le, update,
}
use oscourse.Fs.Bitmap.{
  Disk, set_bitmap, block_is_free, free_block, take_block, search_from, alloc_block,
}
use oscourse.Fs.Bitmap.Alloc.{flush_after, take_block-Taken, free_block-block_is_free}
use oscourse.Fs.Bitmap.Check.{bitmap_blocks, fs_init, fs_init-used, alloc_block-free}

-- What the server does with blocks: it allocates one or finds none, frees a data block of the disk,
-- changes what a data block holds, or writes a block back.
pub data DiskStep : Disk → Disk → Type 0 where
  alloc : {d d' : Disk} (r : Option ℕ) → alloc_block d ≡ some (r, d') → DiskStep d d'
  free :
      {d d' : Disk} (b : ℕ)
      → 2 + bitmap_blocks d ≤ b
      → b < d.s_nblocks
      → free_block b d ≡ some (tt, d')
      → DiskStep d d'
  change :
      {d d' : Disk} (b : ℕ) (words : ℕ → ℕ)
      → 2 + bitmap_blocks d ≤ b
      → d' ≡ record d { blocks = update d.blocks b words }
      → DiskStep d d'
  flush : {d d' : Disk} (stored : ℕ → ℕ → ℕ) → d' ≡ record d { stored = stored } → DiskStep d d'

pub data DiskReach (s : Disk) : Disk → Type 0 where
  here : DiskReach s s
  next : {d d' : Disk} → DiskReach s d → DiskStep d d' → DiskReach s d'

-- block 0, the super block and those of the bitmap are in use
pub record IsReserved (d : Disk) : Type 0 where
  pub used : (b : ℕ) → b < 2 + bitmap_blocks d → block_is_free d b ≡ false

-- The disk keeps its size, and the reserved blocks stay in use if they were.
record Keeps (d d' : Disk) : Type 0 where
  size : d'.s_nblocks ≡ d.s_nblocks
  used : (c : ℕ) → c < 2 + bitmap_blocks d → block_is_free d c ≡ false → block_is_free d' c ≡ false

Keeps-self : (d : Disk) → Keeps d d
Keeps-self d = record { size = refl; used = λ c h e. e }

take_block-Keeps :
    (d d' : Disk) (j : ℕ) (r : Option ℕ)
    → block_is_free d j ≡ true
    → take_block j d ≡ some (r, d')
    → Keeps d d'
unfolding take_block
take_block-Keeps d d' zero r f h = absurd (ground (arith, h))
take_block-Keeps d d' (suc j) r f h =
    let (got, t) = take_block-Taken d (suc j) (λ e. omega arith) f in
    let same : flush_after d (suc j) ≡ d' = ground (arith, sym got ∙ h) in
    subst (Keeps d) same
      (record { size = t.size; used = λ c low e. t.freed_less c ∙ ground (arith, e) })

search_from-Keeps :
    (n i : ℕ) (d d' : Disk) (r : Option ℕ) → search_from n i d ≡ some (r, d') → Keeps d d'
unfolding search_from
search_from-Keeps zero i d d' r h =
    let same : d ≡ d' = ground arith in subst (Keeps d) same (Keeps-self d)
search_from-Keeps (suc n) i d d' r h = elim (Bool-cases (block_is_free d i)) [
  | inl e ↦ take_block-Keeps d d' i r e (sym (rw e refl) ∙ h)
  | inr e ↦ search_from-Keeps n (i + 1) d d' r (sym (rw e refl) ∙ h)
]

free_block-size :
    (d d' : Disk) (b : ℕ) → free_block b d ≡ some (tt, d') → d'.s_nblocks ≡ d.s_nblocks
unfolding free_block set_bitmap
free_block-size d d' b h = ground (arith, h)

free_block-Keeps :
    (d d' : Disk) (b : ℕ)
    → 2 + bitmap_blocks d ≤ b
    → b < d.s_nblocks
    → free_block b d ≡ some (tt, d')
    → Keeps d d'
free_block-Keeps d d' b low inside h =
    let (d'', got, marks) = free_block-block_is_free d b (λ e. omega arith) inside in
    let same : d'' ≡ d' = ground (arith, sym got ∙ h) in
    record {
      size = free_block-size d d' b h;
      used = λ c small e. ap (λ t. block_is_free t c) (sym same) ∙ marks c ∙ ground (arith, e);
    }

change-Keeps :
    (d : Disk) (b : ℕ) (words : ℕ → ℕ)
    → 2 + bitmap_blocks d ≤ b
    → Keeps d (record d { blocks = update d.blocks b words })
unfolding block_is_free update
change-Keeps d b words low = record {
  size = refl;
  used = λ c small e. elim (Bool-cases (ltb c d.s_nblocks)) [
    | inl inside ↦
        let apart : (2 + c / 32 / 1024 == b) ≡ false = ground (arith, inside) in
        ground (arith, e, apart, inside)
    | inr outside ↦ ground (arith, outside)
  ];
}

flush-Keeps : (d : Disk) (stored : ℕ → ℕ → ℕ) → Keeps d (record d { stored = stored })
unfolding block_is_free
flush-Keeps d stored = record { size = refl; used = λ c h e. e }

DiskStep-Keeps : {d d' : Disk} → DiskStep d d' → Keeps d d'
unfolding alloc_block
DiskStep-Keeps {d} {d'} (alloc r h) = search_from-Keeps _ 0 d d' r h
DiskStep-Keeps {d} {d'} (free b low inside h) = free_block-Keeps d d' b low inside h
DiskStep-Keeps {d} {d'} (change b words low e) =
    subst (Keeps d) (sym e) (change-Keeps d b words low)
DiskStep-Keeps {d} {d'} (flush stored e) = subst (Keeps d) (sym e) (flush-Keeps d stored)

Keeps-IsReserved : (d d' : Disk) → Keeps d d' → IsReserved d → IsReserved d'
Keeps-IsReserved d d' k r = record {
  used = λ b low.
      let same : bitmap_blocks d' ≡ bitmap_blocks d = ap (λ n. (n + 32767) / 32768) k.size in
      let small : b < 2 + bitmap_blocks d = omega (arith, same) in k.used b small (r.used b small);
}

DiskReach-IsReserved : {d d' : Disk} → IsReserved d → DiskReach d d' → IsReserved d'
DiskReach-IsReserved r here = r
DiskReach-IsReserved r (next w st) =
    Keeps-IsReserved _ _ (DiskStep-Keeps st) (DiskReach-IsReserved r w)

-- Let `fs_init` come back, and let the server then allocate blocks, free data blocks, change what they
-- hold and write blocks back, in any order. Whenever `alloc_block` then returns a block, that is a
-- data block: neither block 0, nor the super block, nor one that the bitmap takes.
pub alloc_block-DiskReach :
    (d0 d1 d d' : Disk) (b : ℕ)
    → fs_init d0 ≡ some d1
    → DiskReach d1 d
    → alloc_block d ≡ some (some b, d')
    → 2 + bitmap_blocks d ≤ b
alloc_block-DiskReach d0 d1 d d' b init reach got =
    let first : IsReserved d1 = record { used = λ c low. fs_init-used d0 d1 c init low } in
    let reserved = DiskReach-IsReserved first reach in
    elim (Bool-cases (ltb b (2 + bitmap_blocks d))) [
      | inl e ↦ absurd (
          ground (
            arith,
            alloc_block-free d d' b got,
            reserved.used b (ltb→lt b (2 + bitmap_blocks d) e),
          ))
      | inr e ↦ ltb→le b (2 + bitmap_blocks d) e
    ]
