-- ===== src/Fs/Dir.antt =====
-- fs/fs.c: directories. A directory is a file whose blocks hold sixteen `struct File`s each, of 64
-- words: the name, the size, the type, ten direct slots and the indirect one.
pub mod Lookup
use oscourse.Base.{
  ℕ, zero, suc, ◌+◌, ◌-◌, ◌*◌, ◌/◌, ◌%◌, Bool, true, false, not, Option, none, some, List, [], ◌∷◌,
  ltb, leb, ◌==◌, if◌then◌else◌, update,
}
use oscourse.User.Strings.{strcmp}
use oscourse.Fs.Bitmap.{Disk, has_addr}
use oscourse.Fs.Bytes.{byte_at, put_byte, write_bytes}
use oscourse.Fs.File.{File, Error, Result, ok, err, not_found, Run, file_get_block}
use oscourse.Fs.Data.{blksize}

-- a pointer to a `struct File`: the root's in the super block, or entry `j` of block `b`
pub data Place : Type 0 where
  root : Place
  entry : (b j : ℕ) → Place

-- the disk, and the `s_root` of the super block
pub record Fs : Type 0 where
  pub disk : Disk
  pub s_root : File

-- the entry `j` of block `b` as a record
abbrev pub read_entry : Disk → (b j : ℕ) → File
read_entry d b j = record {
  f_size = d.blocks b (64 * j + 32);
  f_type = d.blocks b (64 * j + 33);
  f_direct = λ i. d.blocks b (64 * j + 34 + i);
  f_indirect = d.blocks b (64 * j + 44);
}

-- a word of the entry that the record `f` stands for; its other words keep their value `w`
abbrev entry_word : File → (i w : ℕ) → ℕ
entry_word f i w =
    if i == 32
    then f.f_size
    else if i == 33
    then f.f_type
    else if leb 34 i
    then if ltb i 44 then f.f_direct (i - 34) else if i == 44 then f.f_indirect else w
    else w

unfoldable pub write_entry : Disk → (b j : ℕ) → File → Disk
write_entry d b j f = record d {
  blocks =
      update d.blocks b
        (λ i. if i / 64 == j then entry_word f (i % 64) (d.blocks b i) else d.blocks b i);
}

unfoldable pub load : Fs → Place → File
load s root = s.s_root
load s (entry b j) = read_entry s.disk b j

unfoldable pub save : Fs → Place → File → Fs
unfolding write_entry
save s root f = record s { s_root = f }
save s (entry b j) f = record s { disk = write_entry s.disk b j f }

-- the string of at most `n` bytes from byte `i` of a block on
unfoldable pub string_at : (n : ℕ) → Disk → (b i : ℕ) → List ℕ
string_at zero d b i = []
string_at (suc n) d b i =
    let rest = string_at n d b (i + 1) in if byte_at d b i == 0 then [] else byte_at d b i ∷ rest

-- `f[j].f_name`
abbrev pub name_at : Disk → (b j : ℕ) → List ℕ
name_at d b j = string_at 128 d b (256 * j)

-- an operation of the file system; `none` is a panic
abbrev pub Op : Type 0 → Type 0
Op A = Option (Result A × Fs)

-- what a loop over the blocks of `dir` does after `file_get_block`, whose changes to the file it
-- saves
with_block : {A : Type 0} → Place → Fs → (ℕ → Fs → Op A) → Run ℕ → Op A
with_block dir s k none = none
with_block dir s k (some (err e, f, d)) = some (err e, save (record s { disk = d }) dir f)
with_block dir s k (some (ok b, f, d)) = k b (save (record s { disk = d }) dir f)

-- the inner loop of `dir_lookup`, for `n` entries from `j` on: the first with this name
unfoldable pub find_name : (n j : ℕ) → (name : List ℕ) → Disk → (b : ℕ) → Option ℕ
find_name zero j name d b = none
find_name (suc n) j name d b =
    let rest = find_name n (j + 1) name d b in
    if strcmp (name_at d b j) name == 0 then some j else rest

lookup_block : (rest : Fs → Op Place) → (b : ℕ) → Fs → Option ℕ → Op Place
lookup_block rest b s none = rest s
lookup_block rest b s (some j) = some (ok (entry b j), s)

-- the outer loop, for `n` blocks from `i` on
unfoldable pub lookup_from : (n i : ℕ) → (dir : Place) → (name : List ℕ) → Fs → Op Place
unfolding with_block lookup_block find_name
lookup_from zero i dir name s = some (err not_found, s)
lookup_from (suc n) i dir name s =
    with_block dir s
      (λ b t. lookup_block (lookup_from n (i + 1) dir name) b t (find_name 16 0 name t.disk b))
      (file_get_block i (load s dir) s.disk)

-- `dir_lookup`
unfoldable pub dir_lookup : (dir : Place) → (name : List ℕ) → Fs → Op Place
unfolding lookup_from load
dir_lookup dir name s =
    if (load s dir).f_size % blksize == 0
    then lookup_from ((load s dir).f_size / blksize) 0 dir name s
    else none

-- the inner loop of `dir_alloc_file`: the first entry without a name
unfoldable pub find_unused : (n j : ℕ) → Disk → (b : ℕ) → Option ℕ
find_unused zero j d b = none
find_unused (suc n) j d b =
    let rest = find_unused n (j + 1) d b in if byte_at d b (256 * j) == 0 then some j else rest

-- the block that `dir_alloc_file` adds behind the others
append_block : (nblock : ℕ) → (dir : Place) → Fs → Op Place
unfolding with_block
append_block nblock dir s =
    let grown = record (load s dir) { f_size = (load s dir).f_size + blksize } in
    with_block dir s (λ b t. some (ok (entry b 0), t)) (file_get_block nblock grown s.disk)

-- the outer loop of `dir_alloc_file`, for `n` blocks from `i` on, and what follows it
unfoldable pub unused_from : (n i : ℕ) → (dir : Place) → Fs → Op Place
unfolding with_block lookup_block find_unused append_block
unused_from zero i dir s = append_block i dir s
unused_from (suc n) i dir s =
    with_block dir s
      (λ b t. lookup_block (unused_from n (i + 1) dir) b t (find_unused 16 0 t.disk b))
      (file_get_block i (load s dir) s.disk)

-- `dir_alloc_file`
unfoldable pub dir_alloc_file : (dir : Place) → Fs → Op Place
unfolding unused_from load
dir_alloc_file dir s =
    if (load s dir).f_size % blksize == 0
    then unused_from ((load s dir).f_size / blksize) 0 dir s
    else none
