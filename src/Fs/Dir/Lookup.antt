-- ===== src/Fs/Dir/Lookup.antt =====
-- The entry that `dir_lookup` finds.
use oscourse.Base.{
  ℕ, zero, suc, ◌+◌, ◌*◌, ◌/◌, ◌%◌, ◌≤◌, ◌<◌, ◌≡◌, refl, sym, ap, ◌∙◌, inl, inr, Option, none, some,
  List, arith, ◌==◌, ==_iff, Bool-cases,
}
use oscourse.User.Strings.{strcmp}
use oscourse.User.Strings.Copy.{IsString, strcmp_iff}
use oscourse.Fs.Bitmap.{Disk}
use oscourse.Fs.Bytes.{byte_at}
use oscourse.Fs.File.{ok, err, Run, file_get_block}
use oscourse.Fs.Data.{blksize}
use oscourse.Fs.Dir.{
  Place, entry, Fs, load, save, Op, string_at, name_at, with_block, find_name, lookup_block,
  lookup_from, dir_lookup,
}

byte_at-lt : (d : Disk) (b i : ℕ) → byte_at d b i < 256
unfolding byte_at
byte_at-lt d b i = omega arith

string_at-IsString : (n : ℕ) (d : Disk) (b i : ℕ) → IsString (string_at n d b i)
unfolding string_at
string_at-IsString zero d b i = tt
string_at-IsString (suc n) d b i = elim (Bool-cases (byte_at d b i == 0)) [
  | inl end ↦ rw end tt
  | inr on ↦ rw on ((ground (arith, on), byte_at-lt d b i), string_at-IsString n d b (i + 1))
]

-- An entry with this name, in a place that a directory has.
pub record HasName (d : Disk) (name : List ℕ) (p : Place) (b j : ℕ) : Type 0 where
  pub at : p ≡ entry b j
  pub inside : j < 16
  pub same : name_at d b j ≡ name

found_name :
    (n j : ℕ) (name : List ℕ) (d : Disk) (b k : ℕ)
    → IsString name
    → find_name n j name d b ≡ some k
    → (j ≤ k) × (k < j + n) × (name_at d b k ≡ name)
unfolding find_name
found_name zero j name d b k str h = absurd (ground arith)
found_name (suc n) j name d b k str h = elim (Bool-cases (strcmp (name_at d b j) name == 0)) [
  | inl same ↦
      let e : j ≡ k = ground (arith, same, h) in
      let s = (==_iff (strcmp (name_at d b j) name) 0).0 same in
      let eq = (strcmp_iff (name_at d b j) name (string_at-IsString 128 d b (256 * j)) str).0 s in
      (omega arith, omega arith, ap (name_at d b) (sym e) ∙ eq)
  | inr other ↦
      let i = found_name n (j + 1) name d b k str (sym (rw other refl) ∙ h) in
      (omega (arith, i), omega (arith, i), i.2)
]

block_found :
    (name : List ℕ) (rest : Fs → Op Place) (b : ℕ) (s t : Fs) (o : Option ℕ) (p : Place)
    → IsString name
    → ((k : ℕ) → o ≡ some k → (k < 16) × (name_at s.disk b k ≡ name))
    → (rest s ≡ some (ok p, t) → (c : ℕ) × (j : ℕ) × HasName t.disk name p c j)
    → lookup_block rest b s o ≡ some (ok p, t)
    → (c : ℕ) × (j : ℕ) × HasName t.disk name p c j
unfolding lookup_block
block_found name rest b s t none p str here there h = there h
block_found name rest b s t (some k) p str here there h =
    let at : p ≡ entry b k = ground arith in
    let e : t ≡ s = ground arith in
    let r = here k refl in
    (b, k, record { at = at; inside = r.0; same = ap (λ (t : Fs). name_at t.disk b k) e ∙ r.1 })

round_found :
    (dir : Place) (s t : Fs) (k : ℕ → Fs → Op Place) (r : Run ℕ) (p : Place) (name : List ℕ)
    → ((b : ℕ) (u : Fs) → k b u ≡ some (ok p, t) → (c : ℕ) × (j : ℕ) × HasName t.disk name p c j)
    → with_block dir s k r ≡ some (ok p, t)
    → (c : ℕ) × (j : ℕ) × HasName t.disk name p c j
unfolding with_block
round_found dir s t k none p name g h = absurd (ground arith)
round_found dir s t k (some (err e, f, d)) p name g h = absurd (ground arith)
round_found dir s t k (some (ok b, f, d)) p name g h = g b (save (record s { disk = d }) dir f) h

lookup_from-HasName :
    (n i : ℕ) (dir : Place) (name : List ℕ) (s t : Fs) (p : Place)
    → IsString name
    → lookup_from n i dir name s ≡ some (ok p, t)
    → (b : ℕ) × (j : ℕ) × HasName t.disk name p b j
unfolding lookup_from
lookup_from-HasName zero i dir name s t p str h = absurd (ground arith)
lookup_from-HasName (suc n) i dir name s t p str h =
    round_found dir s t _ (file_get_block i (load s dir) s.disk) p name
      (λ b u.
        block_found name (lookup_from n (i + 1) dir name) b u t (find_name 16 0 name u.disk b) p str
          (λ k e. let f = found_name 16 0 name u.disk b k str e in (omega (arith, f), f.2))
          (lookup_from-HasName n (i + 1) dir name u t p str))
      h

-- What `dir_lookup` finds is one of the sixteen entries of a block, whose name is the one asked for.
pub dir_lookup-HasName :
    (dir : Place) (name : List ℕ) (s t : Fs) (p : Place)
    → IsString name
    → dir_lookup dir name s ≡ some (ok p, t)
    → (b : ℕ) × (j : ℕ) × HasName t.disk name p b j
unfolding dir_lookup
dir_lookup-HasName dir name s t p str h = elim (Bool-cases ((load s dir).f_size % blksize == 0)) [
  | inl whole ↦
      lookup_from-HasName ((load s dir).f_size / blksize) 0 dir name s t p str
        (sym (rw whole refl) ∙ h)
  | inr part ↦ absurd (ground (arith, part, h))
]
