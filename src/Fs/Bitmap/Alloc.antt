-- ===== src/Fs/Bitmap/Alloc.antt =====
-- Which block `alloc_block` takes, and what it leaves of the bitmap.
use oscourse.Base.{
  ℕ, zero, suc, ◌+◌, ◌*◌, ◌/◌, ◌%◌, ◌^◌, ◌<◌, ◌≡◌, refl, sym, ap, ◌∙◌, ◌≢◌, inl, inr, Bool, true,
  false, ◌&&◌, none, some, arith, ltb, leb, ◌==◌, ==_iff, if◌then◌else◌, update, Bool-cases,
}
use oscourse.Base.Bits.{
  test_bit, clear_bit, set_bit, test_bit-clear_bit, test_bit-clear_bit_ne, test_bit-set_bit,
  test_bit-set_bit_ne,
}
use oscourse.Fs.Bitmap.{
  Disk, bitmap, set_bitmap, block_is_free, free_block, take_block, search_from, search_end,
  alloc_block,
}

bitmap-set_bitmap :
    (d : Disk) (i j w : ℕ) → bitmap (set_bitmap d i w) j ≡ (if j == i then w else bitmap d j)
unfolding set_bitmap update
bitmap-set_bitmap d i j w = ground arith

abbrev pub clear_in : Disk → ℕ → Disk
clear_in d b = set_bitmap d (b / 32) (clear_bit (bitmap d (b / 32)) (b % 32))

abbrev set_in : Disk → ℕ → Disk
set_in d b = set_bitmap d (b / 32) (set_bit (bitmap d (b / 32)) (b % 32))

same_word : (d : Disk) (b c : ℕ) → c / 32 ≡ b / 32 → bitmap d (c / 32) ≡ bitmap d (b / 32)
same_word d b c e = ap (bitmap d) e

-- A change of the bit of `b` in the bitmap, as seen at the bit of `c`.
bit_after :
    (d : Disk) (b c w : ℕ) (v : Bool)
    → test_bit w (b % 32) ≡ v
    → ((k : ℕ) → k ≢ b % 32 → test_bit w k ≡ test_bit (bitmap d (b / 32)) k)
    → test_bit (bitmap (set_bitmap d (b / 32) w) (c / 32)) (c % 32)
      ≡ (if c == b then v else test_bit (bitmap d (c / 32)) (c % 32))
bit_after d b c w v here there = elim (Bool-cases (c == b)) [
  | inl same ↦
      let e = (==_iff c b).0 same in
      bitmap_word d b c w
      ∙ rw (same, (==_iff (c / 32) (b / 32)).1 (ap (λ n. n / 32) e), ap (λ n. n % 32) e) here
  | inr other ↦ elim (Bool-cases (c / 32 == b / 32)) [
    | inl near ↦
        let e = (==_iff (c / 32) (b / 32)).0 near in
        bitmap_word d b c w
        ∙ rw (other, near)
            (there (c % 32) (apart e other)
              ∙ ap (λ w. test_bit w (c % 32)) (sym (same_word d b c e)))
    | inr far ↦ bitmap_word d b c w ∙ rw (other, far) refl
  ]
]
  where
    bitmap_word :
        (d : Disk) (b c w : ℕ)
        → test_bit (bitmap (set_bitmap d (b / 32) w) (c / 32)) (c % 32)
          ≡ test_bit (if c / 32 == b / 32 then w else bitmap d (c / 32)) (c % 32)
    bitmap_word d b c w = ap (λ w. test_bit w (c % 32)) (bitmap-set_bitmap d (b / 32) (c / 32) w)

    apart : c / 32 ≡ b / 32 → (c == b) ≡ false → c % 32 ≢ b % 32
    apart e h = ground arith

nblocks_kept : (d : Disk) (i w : ℕ) → (set_bitmap d i w).s_nblocks ≡ d.s_nblocks
unfolding set_bitmap
nblocks_kept d i w = refl

stored_kept : (d : Disk) (i w : ℕ) → (set_bitmap d i w).stored ≡ d.stored
unfolding set_bitmap
stored_kept d i w = refl

block_is_free-clear_in :
    (d : Disk) (b c : ℕ)
    → block_is_free (clear_in d b) c ≡ (if c == b then false else block_is_free d c)
unfolding block_is_free
block_is_free-clear_in d b c =
    let w = clear_bit (bitmap d (b / 32)) (b % 32) in
    ground (
      arith,
      bit_after d b c w false (test_bit-clear_bit (bitmap d (b / 32)) (b % 32))
          (λ k. test_bit-clear_bit_ne (bitmap d (b / 32)) k (b % 32)),
      nblocks_kept d (b / 32) w,
    )

block_is_free-set_in :
    (d : Disk) (b c : ℕ)
    → b < d.s_nblocks
    → block_is_free (set_in d b) c ≡ (if c == b then true else block_is_free d c)
unfolding block_is_free
block_is_free-set_in d b c inside =
    let w = set_bit (bitmap d (b / 32)) (b % 32) in
    ground (
      arith,
      bit_after d b c w true (test_bit-set_bit (bitmap d (b / 32)) (b % 32))
          (λ k. test_bit-set_bit_ne (bitmap d (b / 32)) k (b % 32)),
      nblocks_kept d (b / 32) w,
      ==_iff c b,
    )

-- Freeing a block of the disk other than block 0 marks it, and no other block, as free.
pub free_block-block_is_free :
    (d : Disk) (b : ℕ)
    → b ≢ 0
    → b < d.s_nblocks
    → (d' : Disk) × (free_block b d ≡ some (tt, d'))
      × ((c : ℕ) → block_is_free d' c ≡ (if c == b then true else block_is_free d c))
unfolding free_block
free_block-block_is_free d b nonzero inside =
    (set_in d b, ground arith, λ c. block_is_free-set_in d b c inside)

search_from-first :
    (d : Disk) (n k b : ℕ)
    → k < n
    → block_is_free d (b + k) ≡ true
    → ((c : ℕ) → (leb b c && (ltb c (b + k) && block_is_free d c)) ≡ false)
    → search_from n b d ≡ take_block (b + k) d
unfolding search_from
search_from-first d zero k b h free none_below = absurd (omega arith)
search_from-first d (suc n) zero b h free none_below =
    let e : b + 0 ≡ b = omega arith in
    let free' : block_is_free d b ≡ true = sym (ap (block_is_free d) e) ∙ free in rw (free', e) refl
search_from-first d (suc n) (suc k) b h free none_below =
    let e : b + suc k ≡ b + 1 + k = omega arith in
    let used : block_is_free d b ≡ false = ground (arith, none_below b) in
    rw used (
      search_from-first d n k (b + 1) (omega arith) (sym (ap (block_is_free d) e) ∙ free)
        (λ c. ground (arith, none_below c))
      ∙ ap (λ b. take_block b d) (sym e))

search_from-full :
    (d : Disk) (n b : ℕ)
    → ((c : ℕ) → (leb b c && (ltb c (b + n) && block_is_free d c)) ≡ false)
    → search_from n b d ≡ some (none, d)
unfolding search_from
search_from-full d zero b none_free = refl
search_from-full d (suc n) b none_free =
    let used : block_is_free d b ≡ false = ground (arith, none_free b) in
    rw used (search_from-full d n (b + 1) (λ c. ground (arith, none_free c)))

pub block_is_free-lt : (d : Disk) (b : ℕ) → block_is_free d b ≡ true → b < d.s_nblocks
unfolding block_is_free
block_is_free-lt d b h = ground arith

-- What `alloc_block` leaves when it takes `b`: only `b` is no longer free, and of the disk only the
-- block `b` itself is written, not the block that holds its bit.
pub record Taken (d d' : Disk) (b : ℕ) : Type 0 where
  pub freed_less : (c : ℕ) → block_is_free d' c ≡ (if c == b then false else block_is_free d c)
  pub size : d'.s_nblocks ≡ d.s_nblocks
  pub written : (c k : ℕ) → (if c == b then d.stored c k else d'.stored c k) ≡ d.stored c k

abbrev pub flush_after : Disk → ℕ → Disk
flush_after d b = let t = clear_in d b in record t { stored = update t.stored b (t.blocks b) }

flush_after-free :
    (d : Disk) (b c : ℕ) → block_is_free (flush_after d b) c ≡ block_is_free (clear_in d b) c
unfolding block_is_free
flush_after-free d b c = refl

pub take_block-Taken :
    (d : Disk) (b : ℕ)
    → b ≢ 0
    → block_is_free d b ≡ true
    → (take_block b d ≡ some (some b, flush_after d b)) × Taken d (flush_after d b) b
unfolding take_block update
take_block-Taken d b nonzero free =
    let kept = nblocks_kept d (b / 32) (clear_bit (bitmap d (b / 32)) (b % 32)) in
    let kept' = stored_kept d (b / 32) (clear_bit (bitmap d (b / 32)) (b % 32)) in
    (
      ground (arith, kept, block_is_free-lt d b free),
      record {
        freed_less = λ c. flush_after-free d b c ∙ block_is_free-clear_in d b c;
        size = kept;
        written = λ c k. ground (arith, ap (λ t. t c k) kept');
      },
    )

-- Let block 0 be in use, and `b`, within the bounds of the loop, be the first block that is free.
-- Then `alloc_block` returns `b`, which is no longer free, changes no other block's mark, and writes
-- no block of the disk but `b`.
pub alloc_block-first :
    (d : Disk) (b : ℕ)
    → block_is_free d 0 ≡ false
    → b < search_end d
    → block_is_free d b ≡ true
    → ((c : ℕ) → (ltb c b && block_is_free d c) ≡ false)
    → (d' : Disk) × (alloc_block d ≡ some (some b, d')) × Taken d d' b
unfolding alloc_block
alloc_block-first d b zero_used small free none_below =
    let nonzero : b ≢ 0 = λ e. ground (arith, ap (block_is_free d) e) in
    let t = take_block-Taken d b nonzero free in
    let e : 0 + b ≡ b = omega arith in
    (
      flush_after d b,
      search_from-first d (search_end d) b 0 small (ap (block_is_free d) e ∙ free)
            (λ c. ground (arith, none_below c))
          ∙ ap (λ b. take_block b d) e
          ∙ t.0,
      t.1,
    )

-- If no block below the bound of the loop is free, `alloc_block` reports -E_NO_DISK and changes
-- nothing.
pub alloc_block-full :
    (d : Disk)
    → ((c : ℕ) → (ltb c (search_end d) && block_is_free d c) ≡ false)
    → alloc_block d ≡ some (none, d)
unfolding alloc_block
alloc_block-full d none_free =
    search_from-full d (search_end d) 0 (λ c. ground (arith, none_free c))

-- On a disk of a multiple of 2^17 blocks (512 MB) the bound of the loop is 0 on 32-bit words:
-- `alloc_block` reports -E_NO_DISK whatever blocks are free.
pub alloc_block-wraps :
    (d : Disk) (k : ℕ) → d.s_nblocks ≡ k * 2 ^ 17 → alloc_block d ≡ some (none, d)
alloc_block-wraps d k e =
    let bound : search_end d ≡ 0 = omega arith in alloc_block-full d (λ c. ground (arith, bound))
