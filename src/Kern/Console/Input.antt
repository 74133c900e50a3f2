-- ===== src/Kern/Console/Input.antt =====
-- The input buffer of the console is a queue of at most 511 characters.
use oscourse.Base.{
  ℕ, suc, ◌+◌, ◌%◌, ◌<◌, ◌≢◌, true, false, List, [], ◌∷◌, ◌++◌, ◌==◌, if◌then◌else◌, ◌≡◌, inl, inr,
  refl, sym, ap, subst, ◌∙◌, arith, update, update_self, update_ne, Bool-cases, length,
  length-append, append_assoc, append-nil, get_or, drop,
}
use oscourse.Kern.Console.{Cons, consbufsize, next_pos, push_char, cons_intr, next_char, cons_getc}

-- The characters `q` stand in `buf` from `pos` on, up to `last`.
abbrev pub Ring : (buf : ℕ → ℕ) → (pos : ℕ) → List ℕ → (last : ℕ) → Type 0
Ring buf pos [] last = pos ≡ last
Ring buf pos (c ∷ q) last = (buf pos ≡ c) × Ring buf (next_pos pos) q last

-- The characters `q` wait in the buffer.
pub record IsQueue (s : Cons) (q : List ℕ) : Type 0 where
  pub inside : s.rpos < consbufsize
  pub ring : Ring s.buf s.rpos q s.wpos
  pub room : length q < consbufsize

-- the characters that `cons_intr` takes from its input
abbrev pub chars : List ℕ → List ℕ
chars [] = []
chars (c ∷ cs) = if c == 0 then chars cs else (c % 256) ∷ chars cs

Ring-end :
    (buf : ℕ → ℕ) (pos : ℕ) (q : List ℕ) (last : ℕ)
    → pos < consbufsize
    → Ring buf pos q last
    → last ≡ (pos + length q) % consbufsize
Ring-end buf pos [] last inside r = omega arith
Ring-end buf pos (c ∷ q) last inside r =
    let next : next_pos pos < consbufsize = ground arith in
    ground (arith, Ring-end buf (next_pos pos) q last next r.1)

Ring-push :
    (buf : ℕ → ℕ) (pos : ℕ) (q : List ℕ) (last c : ℕ)
    → pos < consbufsize
    → length q + 1 < consbufsize
    → Ring buf pos q last
    → Ring (update buf last c) pos (q ++ (c ∷ [])) (next_pos last)
Ring-push buf pos [] last c inside room r =
    (subst (λ k. update buf last c k ≡ c) (sym r) (update_self buf last c), ap next_pos r)
Ring-push buf pos (d ∷ q) last c inside room r =
    let next : next_pos pos < consbufsize = ground arith in
    let apart : pos ≢ last = λ e. ground (arith, Ring-end buf (next_pos pos) q last next r.1) in
    (
      update_ne buf last pos c apart ∙ r.0,
      Ring-push buf (next_pos pos) q last c next (omega arith) r.1,
    )

push_char-IsQueue :
    (s : Cons) (q : List ℕ) (c : ℕ)
    → IsQueue s q
    → length q + 1 < consbufsize
    → IsQueue (push_char c s) (q ++ ((c % 256) ∷ []))
unfolding push_char
push_char-IsQueue s q c i room = record {
  inside = i.inside;
  ring = Ring-push s.buf s.rpos q s.wpos (c % 256) i.inside room i.ring;
  room = omega (arith, length-append q ((c % 256) ∷ []));
}

-- `cons_intr` puts the characters behind those that wait.
pub cons_intr-IsQueue :
    (cs : List ℕ) (s : Cons) (q : List ℕ)
    → IsQueue s q
    → length q + length (chars cs) < consbufsize
    → IsQueue (cons_intr cs s) (q ++ chars cs)
unfolding cons_intr
cons_intr-IsQueue [] s q i room = subst (IsQueue s) (sym (append-nil q)) i
cons_intr-IsQueue (c ∷ cs) s q i room = elim (Bool-cases (c == 0)) [
  | inl e ↦ rw e (cons_intr-IsQueue cs s q i (ground arith))
  | inr e ↦
      let fits : length q + suc (length (chars cs)) < consbufsize = ground arith in
      rw e (
        subst (IsQueue (cons_intr cs (push_char c s))) (append_assoc q ((c % 256) ∷ []) (chars cs))
          (cons_intr-IsQueue cs (push_char c s) (q ++ ((c % 256) ∷ []))
            (push_char-IsQueue s q c i (omega arith))
            (omega (arith, length-append q ((c % 256) ∷ [])))))
]

-- Taking a character from a queue: the first one, or 0 if none waits.
next_char-IsQueue :
    (s : Cons) (q : List ℕ)
    → IsQueue s q
    → ((next_char s).0 ≡ get_or q 0 0) × IsQueue (next_char s).1 (drop 1 q)
next_char-IsQueue s [] i =
    let e : (s.rpos == s.wpos) ≡ true = ground (arith, i.ring) in rw e (refl, i)
next_char-IsQueue s (c ∷ q) i =
    let next : next_pos s.rpos < consbufsize = ground (arith, i.inside) in
    let e : (s.rpos == s.wpos) ≡ false =
      ground (arith, i.room, i.inside, Ring-end s.buf (next_pos s.rpos) q s.wpos next i.ring.1) in
    rw e (i.ring.0, record { inside = next; ring = i.ring.1; room = omega (arith, i.room) })

-- If the characters that wait and those that the polls find are fewer than 512, then `cons_getc`
-- returns the first of them all, first those that waited, then the serial line's, then the
-- keyboard's, and the others wait in this order; it returns 0 if there are none.
pub cons_getc-IsQueue :
    (serial keyboard : List ℕ) (s : Cons) (q : List ℕ)
    → IsQueue s q
    → length q + length (chars serial) + length (chars keyboard) < consbufsize
    → let all = q ++ chars serial ++ chars keyboard in
      let r = cons_getc serial keyboard s in (r.0 ≡ get_or all 0 0) × IsQueue r.1 (drop 1 all)
unfolding cons_getc
cons_getc-IsQueue serial keyboard s q i room =
    let a = cons_intr-IsQueue serial s q i (omega arith) in
    let b =
      cons_intr-IsQueue keyboard (cons_intr serial s) (q ++ chars serial) a
        (omega (arith, length-append q (chars serial))) in
    next_char-IsQueue (cons_intr keyboard (cons_intr serial s))
      ((q ++ chars serial) ++ chars keyboard) b

-- If 511 characters wait and one more comes in, `cons_getc` returns 0, as if none waited.
pub cons_getc-overrun :
    (c : ℕ) (s : Cons) (q : List ℕ)
    → IsQueue s q
    → length q ≡ 511
    → c ≢ 0
    → (cons_getc (c ∷ []) [] s).0 ≡ 0
unfolding cons_getc cons_intr push_char
cons_getc-overrun c s q i full other =
    let e : (c == 0) ≡ false = ground arith in
    let w : next_pos s.wpos ≡ s.rpos =
      ground (arith, i.inside, Ring-end s.buf s.rpos q s.wpos i.inside i.ring) in
    let z : (s.rpos == next_pos s.wpos) ≡ true = ground arith in rw (e, z) refl
