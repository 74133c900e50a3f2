-- ===== src/Fs/Path/Components.antt =====
-- `walk_path` goes by the elements of a path alone.
use oscourse.Base.{
  ℕ, zero, suc, ◌≤◌, ◌<◌, ◌≡◌, refl, sym, ap, ap₂, ◌∙◌, inl, inr, Bool, true, false, not, Option,
  none, some, List, [], ◌∷◌, arith, leb, ◌==◌, if◌then◌else◌, Bool-cases, length,
}
use oscourse.Fs.File.{ok, err}
use oscourse.Fs.Dir.{Place, root, Fs, load, Op, dir_lookup}
use oscourse.Fs.Path.{
  slash, skip_slash, element, Walk, found, is_end, looked_up, step, walk_from, walk_path,
}

add : List ℕ → List (List ℕ) → List (List ℕ)
add [] names = names
add (c ∷ name) names = (c ∷ name) ∷ names

-- the bytes before the first slash, and the elements behind it
unfoldable pub parts : List ℕ → List ℕ × List (List ℕ)
unfolding add
parts [] = ([], [])
parts (c ∷ p) = let r = parts p in if c == slash then ([], add r.0 r.1) else (c ∷ r.0, r.1)

-- The elements of a path: what stands between its slashes and is not empty.
unfoldable pub components : List ℕ → List (List ℕ)
unfolding parts
components p = add (parts p).0 (parts p).1

abbrev is_nil : List (List ℕ) → Bool
is_nil [] = true
is_nil (n ∷ ns) = false

-- Walking down elements that are given as a list.
unfoldable pub walk_names :
    (dir : Option Place) → (f : Place) → List (List ℕ) → Fs → Option (Walk × Fs)
walk_names dir f [] s = some (found dir f, s)
walk_names dir f (name ∷ names) s = step f name (is_nil names) (λ g. walk_names (some f) g names) s

element-parts : (p : List ℕ) → (element p).0 ≡ (parts p).0
unfolding element parts
element-parts [] = refl
element-parts (c ∷ p) = elim (Bool-cases (c == slash)) [
  | inl at ↦ rw at refl
  | inr on ↦ rw on (ap (λ l. c ∷ l) (element-parts p))
]

components-element : (p : List ℕ) → components (element p).1 ≡ (parts p).1
unfolding element components
components-element [] = refl
components-element (c ∷ p) = elim (Bool-cases (c == slash)) [
  | inl at ↦ rw (at, at) refl
  | inr on ↦ rw on (components-element p)
]

components-skip_slash : (p : List ℕ) → components (skip_slash p) ≡ components p
unfolding skip_slash components
components-skip_slash [] = refl
components-skip_slash (c ∷ p) = elim (Bool-cases (c == slash)) [
  | inl at ↦ rw at (components-skip_slash p)
  | inr on ↦ rw (on, on) refl
]

is_end-skip_slash : (p : List ℕ) → is_end (skip_slash p) ≡ is_nil (components p)
unfolding skip_slash components
is_end-skip_slash [] = refl
is_end-skip_slash (c ∷ p) = elim (Bool-cases (c == slash)) [
  | inl at ↦ rw at (is_end-skip_slash p)
  | inr on ↦ rw on refl
]

skip_slash-head : (p q : List ℕ) (c : ℕ) → skip_slash p ≡ c ∷ q → (c == slash) ≡ false
unfolding skip_slash
skip_slash-head [] q c h = absurd (ground arith)
skip_slash-head (a ∷ p) q c h = elim (Bool-cases (a == slash)) [
  | inl at ↦ skip_slash-head p q c (sym (rw at refl) ∙ h)
  | inr on ↦ ground (arith, on, h)
]

length-skip_slash : (p : List ℕ) → length (skip_slash p) ≤ length p
unfolding skip_slash
length-skip_slash [] = omega arith
length-skip_slash (c ∷ p) = ground (arith, length-skip_slash p)

length-element : (p : List ℕ) → length (element p).1 ≤ length p
unfolding element
length-element [] = omega arith
length-element (c ∷ p) = ground (arith, length-element p)

-- Rounds that go on alike are alike.
looked_up-ext :
    (f : Place) (name : List ℕ) (last : Bool) (m m' : Place → Fs → Option (Walk × Fs))
    (r : Op Place)
    → ((g : Place) (t : Fs) → m g t ≡ m' g t)
    → looked_up f name last m r ≡ looked_up f name last m' r
unfolding looked_up
looked_up-ext f name last m m' none h = refl
looked_up-ext f name last m m' (some (ok g, t)) h = h g t
looked_up-ext f name last m m' (some (err e, t)) h = refl

step-ext :
    (f : Place) (name : List ℕ) (last : Bool) (m m' : Place → Fs → Option (Walk × Fs)) (s : Fs)
    → ((g : Place) (t : Fs) → m g t ≡ m' g t)
    → step f name last m s ≡ step f name last m' s
unfolding step
step-ext f name last m m' s h = elim (Bool-cases (leb 128 (length name))) [
  | inl long ↦ rw long refl
  | inr short ↦ elim (Bool-cases (not ((load s f).f_type == 1))) [
    | inl plain ↦ rw (short, plain) refl
    | inr dir ↦ rw (short, dir) (looked_up-ext f name last m m' (dir_lookup f name s) h)
  ]
]

length-element-cons :
    (c : ℕ) (p : List ℕ) → (c == slash) ≡ false → length (element (c ∷ p)).1 ≤ length p
unfolding element
length-element-cons c p on = rw on (length-element p)

components-parts :
    (c : ℕ) (p : List ℕ)
    → (c == slash) ≡ false
    → components (c ∷ p) ≡ (parts (c ∷ p)).0 ∷ (parts (c ∷ p)).1
unfolding components
components-parts c p on = rw on refl

components-nil : components [] ≡ []
unfolding components
components-nil = refl

components-cons :
    (c : ℕ) (p : List ℕ)
    → (c == slash) ≡ false
    → components (c ∷ p) ≡ (element (c ∷ p)).0 ∷ components (skip_slash (element (c ∷ p)).1)
components-cons c p on =
    components-parts c p on
    ∙ ap₂ (λ n ns. n ∷ ns) (sym (element-parts (c ∷ p)))
        (sym (components-element (c ∷ p)) ∙ sym (components-skip_slash (element (c ∷ p)).1))

walk_from-walk_names :
    (fuel : ℕ) (dir : Option Place) (f : Place) (p q : List ℕ) (s : Fs)
    → length q < fuel
    → skip_slash p ≡ q
    → walk_from fuel dir f q s ≡ walk_names dir f (components q) s
unfolding walk_from walk_names
walk_from-walk_names zero dir f p q s h e = absurd (omega arith)
walk_from-walk_names (suc fuel) dir f p [] s h e =
    ap (λ ns. walk_names dir f ns s) (sym components-nil)
walk_from-walk_names (suc fuel) dir f p (c ∷ q) s h e =
    let on = skip_slash-head p q c e in
    let el = element (c ∷ q) in
    let rest = skip_slash el.1 in
    let shorter : length rest < fuel =
      omega (arith, length-skip_slash el.1, length-element-cons c q on, h) in
    step-ext f el.0 (is_end rest) (λ g. walk_from fuel (some f) g rest)
      (λ g. walk_names (some f) g (components rest)) s
      (λ g t. walk_from-walk_names fuel (some f) g el.1 rest t shorter refl)
    ∙ ap (λ b. step f el.0 b (λ g. walk_names (some f) g (components rest)) s)
        (is_end-skip_slash el.1 ∙ ap is_nil (sym (components-skip_slash el.1)))
    ∙ ap (λ ns. walk_names dir f ns s) (sym (components-cons c q on))

-- `walk_path` walks down the elements of a path, that is what stands between slashes
-- and is not empty: how many slashes there are, at the start and the end too, makes no difference.
pub walk_path-components :
    (path : List ℕ) (s : Fs) → walk_path path s ≡ walk_names none root (components path) s
unfolding walk_path
walk_path-components path s =
    walk_from-walk_names (suc (length path)) none root path (skip_slash path) s
      (omega (arith, length-skip_slash path)) refl
    ∙ ap (λ ns. walk_names none root ns s) (components-skip_slash path)
