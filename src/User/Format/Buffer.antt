-- ===== src/User/Format/Buffer.antt =====
-- What `vsnprintf` leaves in memory.
use oscourse.Base.{
  ℕ, zero, suc, ◌+◌, ◌-◌, ◌%◌, ◌^◌, ◌≤◌, ◌<◌, ◌≡◌, refl, ap, ◌∙◌, true, false, ◌&&◌, some, List, [],
  ◌∷◌, arith, ltb, leb, ◌==◌, if◌then◌else◌, update, length, take, get_or,
}
use oscourse.User.Memory.{Memory}
use oscourse.User.Format.{Arg, vprintfmt}
use oscourse.User.Format.Print.{SprintBuf, put_all, terminated, filled, vsnprintf}

-- What `put_all` leaves of `b`, with room for `room` characters: `t` is stored.
record PutAll (b c : SprintBuf) (len : ℕ) (t : List ℕ) : Type 0 where
  counted : c.cnt ≡ b.cnt + len
  moved : c.buf ≡ b.buf + length t
  stored :
      (j : ℕ)
      → c.mem j ≡ (
          if leb b.buf j && ltb j (b.buf + length t)
          then get_or t (j - b.buf) 0 % 2 ^ 8
          else b.mem j)

get_or-tail :
    (c : ℕ) (t : List ℕ) (i : ℕ) → get_or (c ∷ t) i 0 ≡ (if i == 0 then c else get_or t (i - 1) 0)
get_or-tail c t zero = refl
get_or-tail c t (suc i) =
    let first : (suc i == 0) ≡ false = ground arith in
    let back : suc i - 1 ≡ i = omega arith in rw (first, back) refl

stored-next :
    (c : ℕ) (t : List ℕ) (p j : ℕ) (mem : Memory)
    → (if leb (p + 1) j && ltb j (p + 1 + length t)
        then get_or t (j - (p + 1)) 0 % 2 ^ 8
        else update mem p (c % 2 ^ 8) j)
      ≡ (if leb p j && ltb j (p + suc (length t)) then get_or (c ∷ t) (j - p) 0 % 2 ^ 8 else mem j)
unfolding update
stored-next c t p j mem =
    let e : j - (p + 1) ≡ j - p - 1 = omega arith in rw e (ground (arith, get_or-tail c t (j - p)))

put_all-PutAll :
    (out : List ℕ) (room : ℕ) (b : SprintBuf)
    → b.ebuf - b.buf ≡ room
    → PutAll b (put_all out b) (length out) (take room out)
unfolding put_all
put_all-PutAll [] zero b h = record {
  counted = omega arith;
  moved = omega arith;
  stored = λ j. ground arith;
}
put_all-PutAll [] (suc room) b h = record {
  counted = omega arith;
  moved = omega arith;
  stored = λ j. ground arith;
}
put_all-PutAll (c ∷ out) zero b h =
    let e : ltb b.buf b.ebuf ≡ false = ground arith in
    let r = put_all-PutAll out 0 (record b { cnt = b.cnt + 1 }) h in
    rw e (record { counted = omega (arith, r.counted); moved = r.moved; stored = r.stored })
put_all-PutAll (c ∷ out) (suc room) b h =
    let e : ltb b.buf b.ebuf ≡ true = ground arith in
    let n : SprintBuf = record b {
      cnt = b.cnt + 1;
      mem = update b.mem b.buf (c % 2 ^ 8);
      buf = b.buf + 1;
    } in
    let r = put_all-PutAll out room n (omega arith) in
    rw e (record {
      counted = omega (arith, r.counted);
      moved = omega (arith, r.moved);
      stored = λ j. r.stored j ∙ stored-next c (take room out) b.buf j b.mem;
    })

get_or-length : (xs : List ℕ) → get_or xs (length xs) 0 ≡ 0
get_or-length [] = refl
get_or-length (x ∷ xs) = get_or-length xs

length-take_le : (n : ℕ) (xs : List ℕ) → length (take n xs) ≤ n
length-take_le zero xs = omega arith
length-take_le (suc n) [] = omega arith
length-take_le (suc n) (x ∷ xs) = omega (arith, length-take_le n xs)

-- If the formatted text is `out`, then `vsnprintf` returns its whole length; the bytes that fit into
-- the buffer, and a NUL within it, are stored, and no other byte of memory changes.
pub vsnprintf-stored :
    (buf n : ℕ) (fmt : List ℕ) (args : List Arg) (mem : Memory) (out : List ℕ)
    → vprintfmt fmt args ≡ some out
    → let t = take n out in
      (m : Memory) × (vsnprintf buf (n + 1) fmt args mem ≡ some (some (length out, m)))
      × ((j : ℕ)
          → m j
            ≡ (if leb buf j && leb j (buf + length t) then get_or t (j - buf) 0 % 2 ^ 8 else mem j))
      × (length t < n + 1)
unfolding vsnprintf filled terminated update
vsnprintf-stored buf n fmt args mem out e =
    let b : SprintBuf = record { buf = buf; ebuf = buf + (n + 1) - 1; cnt = 0; mem = mem } in
    let r = put_all-PutAll out n b (omega arith) in
    let some_room : ltb (n + 1) 1 ≡ false = ground arith in
    let count : (put_all out b).cnt ≡ length out = omega (arith, r.counted) in
    let last = (terminated (put_all out b)).1 in
    (
      last,
      rw some_room (ap (filled buf (n + 1) mem) e ∙ ap (λ k. some (some (k, last))) count),
      λ j. ground (arith, r.stored j, r.moved, get_or-length (take n out)),
      omega (arith, length-take_le n out),
    )
