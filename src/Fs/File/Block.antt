-- ===== src/Fs/File/Block.antt =====
-- Getting and freeing the blocks of a file through its direct slots.
use oscourse.Base.{
  ℕ, ◌≤◌, ◌<◌, ◌≡◌, refl, sym, ap, ◌∙◌, ◌≢◌, Bool, true, false, ◌&&◌, none, some, arith, ltb, ◌==◌,
  if◌then◌else◌, update, lt→ltb, ==_iff, Bool-cases, inl, inr, update_self,
}
use oscourse.Fs.Bitmap.{Disk, block_is_free, alloc_block, search_end}
use oscourse.Fs.Bitmap.Alloc.{
  Taken, alloc_block-first, alloc_block-full, block_is_free-lt, free_block-block_is_free,
}
use oscourse.Fs.File.{
  File, ok, direct, ndirect, file_block_walk, file_get_block, file_free_block, get_walked, get_new,
  free_walked, freed,
}

walk_direct :
    (filebno : ℕ) (alloc : Bool) (f : File) (d : Disk)
    → filebno < ndirect
    → file_block_walk filebno alloc f d ≡ some (ok (direct filebno), f, d)
unfolding file_block_walk
walk_direct filebno alloc f d small = rw (lt→ltb filebno ndirect small) refl

get_empty :
    (filebno : ℕ) (f : File) (d : Disk)
    → filebno < ndirect
    → f.f_direct filebno ≡ 0
    → file_get_block filebno f d ≡ get_new (direct filebno) f (alloc_block d)
unfolding file_get_block
get_empty filebno f d small empty =
    ap get_walked (walk_direct filebno true f d small) ∙ rw empty refl

-- If no block is free and the slot is empty, `file_get_block` does not report -E_NO_DISK: the error
-- code is taken for a block number, which `diskaddr` refuses with a panic. The file system has at
-- most as many blocks as `check_super` allows.
pub file_get_block-full :
    (filebno : ℕ) (f : File) (d : Disk)
    → filebno < ndirect
    → f.f_direct filebno ≡ 0
    → d.s_nblocks ≤ 786432
    → ((c : ℕ) → (ltb c (search_end d) && block_is_free d c) ≡ false)
    → file_get_block filebno f d ≡ none
unfolding get_new
file_get_block-full filebno f d small empty size full =
    get_empty filebno f d small empty
    ∙ ap (get_new (direct filebno) f) (alloc_block-full d full)
    ∙ ground (arith, size)

pub get_full_slot :
    (filebno : ℕ) (f : File) (d : Disk) (b : ℕ)
    → filebno < ndirect
    → f.f_direct filebno ≡ b
    → b ≢ 0
    → b < d.s_nblocks
    → file_get_block filebno f d ≡ some (ok b, f, d)
unfolding file_get_block
get_full_slot filebno f d b small at nonzero inside =
    ap get_walked (walk_direct filebno true f d small) ∙ rw at (ground arith)

abbrev pub with_block : File → (filebno b : ℕ) → File
with_block f filebno b = record f { f_direct = update f.f_direct filebno b }

-- Let the direct slot `filebno` be empty, block 0 be in use, and `b`, within the bounds of the
-- search, be the first free block. Then `file_get_block` returns `b`, enters it in the slot, and
-- takes only `b` from the free blocks. A second call returns `b` again and changes nothing.
pub file_get_block-allocates :
    (filebno : ℕ) (f : File) (d : Disk) (b : ℕ)
    → filebno < ndirect
    → f.f_direct filebno ≡ 0
    → block_is_free d 0 ≡ false
    → b < search_end d
    → block_is_free d b ≡ true
    → ((c : ℕ) → (ltb c b && block_is_free d c) ≡ false)
    → (d' : Disk) × (file_get_block filebno f d ≡ some (ok b, with_block f filebno b, d'))
      × Taken d d' b
      × (file_get_block filebno (with_block f filebno b) d'
          ≡ some (ok b, with_block f filebno b, d'))
unfolding get_new
file_get_block-allocates filebno f d b small empty zero_used bound free none_below =
    let t = alloc_block-first d b zero_used bound free none_below in
    let nonzero : b ≢ 0 = λ e. ground (arith, ap (block_is_free d) e) in
    let inside : b < t.0.s_nblocks = rw t.2.size (block_is_free-lt d b free) in
    (
      t.0,
      get_empty filebno f d small empty
          ∙ ap (get_new (direct filebno) f) t.1
          ∙ ground (arith, inside, nonzero),
      t.2,
      get_full_slot filebno (with_block f filebno b) t.0 b small (update_self f.f_direct filebno b)
          nonzero inside,
    )

-- If the direct slot `filebno` holds the block `b` of the disk, `file_free_block` empties the
-- slot and marks `b`, and no other block, as free.
pub file_free_block-frees :
    (filebno : ℕ) (f : File) (d : Disk) (b : ℕ)
    → filebno < ndirect
    → f.f_direct filebno ≡ b
    → b ≢ 0
    → b < d.s_nblocks
    → (d' : Disk) × (file_free_block filebno f d ≡ some (ok tt, with_block f filebno 0, d'))
      × ((c : ℕ) → block_is_free d' c ≡ (if c == b then true else block_is_free d c))
unfolding file_free_block freed
file_free_block-frees filebno f d b small at nonzero inside =
    let r = free_block-block_is_free d b nonzero inside in
    (
      r.0,
      ap free_walked (walk_direct filebno false f d small)
          ∙ rw at (ground (arith, nonzero, ap (freed (direct filebno) f) r.1)),
      r.2,
    )

-- Under the conditions of `file_get_block-allocates`, `file_free_block` after `file_get_block`
-- succeeds, leaves the slot empty, and brings every block back to the mark that it had.
pub file_free_block-file_get_block :
    (filebno : ℕ) (f : File) (d : Disk) (b : ℕ)
    → filebno < ndirect
    → f.f_direct filebno ≡ 0
    → block_is_free d 0 ≡ false
    → b < search_end d
    → block_is_free d b ≡ true
    → ((c : ℕ) → (ltb c b && block_is_free d c) ≡ false)
    → (f' f'' : File) × (d' d'' : Disk) × (file_get_block filebno f d ≡ some (ok b, f', d'))
      × (file_free_block filebno f' d' ≡ some (ok tt, f'', d''))
      × (f''.f_direct filebno ≡ 0)
      × ((c : ℕ) → block_is_free d'' c ≡ block_is_free d c)
file_free_block-file_get_block filebno f d b small empty zero_used bound free none_below =
    let g = file_get_block-allocates filebno f d b small empty zero_used bound free none_below in
    let f' = with_block f filebno b in
    let nonzero : b ≢ 0 = λ e. ground (arith, ap (block_is_free d) e) in
    let inside : b < g.0.s_nblocks = rw g.2.size (block_is_free-lt d b free) in
    let r =
      file_free_block-frees filebno f' g.0 b small (update_self f.f_direct filebno b) nonzero
        inside in
    (
      f',
      with_block f' filebno 0,
      g.0,
      r.0,
      g.1,
      r.1,
      update_self f'.f_direct filebno 0,
      λ c. r.2 c ∙ marks_back d g.0 b c free (g.2.freed_less c),
    )
  where
    marks_back :
        (d d' : Disk) (b c : ℕ)
        → block_is_free d b ≡ true
        → block_is_free d' c ≡ (if c == b then false else block_is_free d c)
        → (if c == b then true else block_is_free d' c) ≡ block_is_free d c
    marks_back d d' b c free h = elim (Bool-cases (c == b)) [
      | inl same ↦ rw same (sym (ap (block_is_free d) ((==_iff c b).0 same) ∙ free))
      | inr other ↦ rw other (h ∙ rw other refl)
    ]
