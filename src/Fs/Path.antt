-- ===== src/Fs/Path.antt =====
-- fs/fs.c: path names, as lists of bytes before the NUL.
pub mod Components
mod Tests
use oscourse.Base.{
  ℕ, zero, suc, ◌+◌, ◌*◌, Bool, true, false, not, ◌&&◌, ◌||◌, Option, none, some, List, [], ◌∷◌,
  ◌++◌, ltb, leb, ◌==◌, if◌then◌else◌, length,
}
use oscourse.Fs.Bytes.{write_bytes}
use oscourse.Fs.File.{File, Error, Result, ok, err, not_found, bad_path, file_exists}
use oscourse.Fs.Dir.{Place, root, entry, Fs, load, Op, dir_lookup, dir_alloc_file}

-- the byte '/'
abbrev pub slash : ℕ
slash = 47

-- `skip_slash`
unfoldable pub skip_slash : List ℕ → List ℕ
skip_slash [] = []
skip_slash (c ∷ p) = if c == slash then skip_slash p else c ∷ p

-- `while (*path != '/' && *path != '\0') path++`: what the loop passes, and what follows
unfoldable pub element : List ℕ → List ℕ × List ℕ
element [] = ([], [])
element (c ∷ p) = let rest = element p in if c == slash then ([], c ∷ p) else (c ∷ rest.0, rest.1)

-- How `walk_path` ends: at a file, with its directory if it is not the root; before a last element
-- that its directory does not have; or with an error that leaves `*pdir` NULL.
pub data Walk : Type 0 where
  found : (dir : Option Place) → (f : Place) → Walk
  missing : (dir : Place) → (lastelem : List ℕ) → Walk
  failed : Error → Walk

abbrev pub is_not_found : Error → Bool
is_not_found not_found = true
is_not_found _ = false

abbrev pub is_end : List ℕ → Bool
is_end [] = true
is_end (c ∷ p) = false

-- what follows `dir_lookup` in a round; `last` if the path ends behind `name`
pub looked_up :
    (dir : Place)
    → (name : List ℕ) → (last : Bool) → (more : Place → Fs → Option (Walk × Fs)) → Op Place
    → Option (Walk × Fs)
looked_up dir name last more none = none
looked_up dir name last more (some (ok f, s)) = more f s
looked_up dir name last more (some (err e, s)) =
    if is_not_found e && last then some (missing dir name, s) else some (failed e, s)

-- a round for the element `name` of the file `f`
unfoldable pub step :
    (f : Place)
    → (name : List ℕ) → (last : Bool) → (more : Place → Fs → Option (Walk × Fs)) → Fs
    → Option (Walk × Fs)
unfolding looked_up
step f name last more s =
    if leb 128 (length name)
    then some (failed bad_path, s)
    else if not ((load s f).f_type == 1)
    then some (failed not_found, s)
    else looked_up f name last more (dir_lookup f name s)

-- the loop of `walk_path`, on fuel
unfoldable pub walk_from :
    (fuel : ℕ) → (dir : Option Place) → (f : Place) → List ℕ → Fs → Option (Walk × Fs)
unfolding step element skip_slash
walk_from zero dir f path s = none
walk_from (suc fuel) dir f [] s = some (found dir f, s)
walk_from (suc fuel) dir f (c ∷ path) s =
    let e = element (c ∷ path) in
    let rest = skip_slash e.1 in step f e.0 (is_end rest) (λ g. walk_from fuel (some f) g rest) s

-- `walk_path`; every round takes a byte of the path
unfoldable pub walk_path : List ℕ → Fs → Option (Walk × Fs)
unfolding walk_from
walk_path path s = walk_from (suc (length path)) none root (skip_slash path) s

opened : Option (Walk × Fs) → Op Place
opened none = none
opened (some (found dir f, s)) = some (ok f, s)
opened (some (missing dir name, s)) = some (err not_found, s)
opened (some (failed e, s)) = some (err e, s)

-- `file_open`
unfoldable pub file_open : List ℕ → Fs → Op Place
unfolding opened walk_path
file_open path s = opened (walk_path path s)

-- `strcpy(f->f_name, name)`; the entry of the root is not written
named : List ℕ → Op Place → Op Place
named name none = none
named name (some (err e, s)) = some (err e, s)
named name (some (ok root, s)) = some (ok root, s)
named name (some (ok (entry b j), s)) =
    some (ok (entry b j), record s { disk = write_bytes s.disk b (256 * j) (name ++ (0 ∷ [])) })

created : Option (Walk × Fs) → Op Place
unfolding named
created none = none
created (some (found dir f, s)) = some (err file_exists, s)
created (some (failed e, s)) = some (err e, s)
created (some (missing dir name, s)) = named name (dir_alloc_file dir s)

-- `file_create`
unfoldable pub file_create : List ℕ → Fs → Op Place
unfolding created walk_path
file_create path s = created (walk_path path s)
