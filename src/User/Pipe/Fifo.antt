-- ===== src/User/Pipe/Fifo.antt =====
-- The reader gets the bytes that were sent, in order, however the two sides are interleaved.
use oscourse.Base.{
  ℕ, ◌+◌, ◌%◌, ◌^◌, ◌≤◌, ◌<◌, ◌≡◌, refl, sym, ap, ◌∙◌, inl, inr, Bool-cases, ◌&&◌, true, false,
  arith, ◌==◌, ==_iff, if◌then◌else◌, update, ltb,
}
use oscourse.User.Pipe.{
  State, store, write, take, release, Reach, begin, after, start, stored, wrote, taken, released,
  store_byte, is_full, is_empty,
}

-- How the positions, the buffer and the bytes received belong together.
pub record IsFifo (input : ℕ → ℕ) (s : State) : Type 0 where
  pub write_at : s.pipe.p_wpos ≡ s.sent
  pub read_at : s.pipe.p_rpos ≡ s.got
  pub behind : s.got + (if s.taking then 1 else 0) ≤ s.sent
  pub fits : s.sent + (if s.storing then 1 else 0) ≤ s.got + 32
  pub buffered : (k : ℕ) → s.got ≤ k → k < s.sent → s.pipe.p_buf (k % 32) ≡ input k
  pub pending : s.storing ≡ true → s.pipe.p_buf (s.sent % 32) ≡ input s.sent
  pub in_order : (k : ℕ) → k < s.got + (if s.taking then 1 else 0) → s.received k ≡ input k

module _ (input : ℕ → ℕ) (s : State) (inv : IsFifo input s) (bound : s.sent < 2 ^ 31) where
  stored-IsFifo : s.storing ≡ false → is_full s.pipe ≡ false → IsFifo input (stored input s)
  unfolding store_byte update
  stored-IsFifo free room = record {
    write_at = inv.write_at;
    read_at = inv.read_at;
    behind = inv.behind;
    fits = ground (arith, inv.write_at, inv.read_at, inv.behind, free, room);
    buffered = λ k low high. ground (
      arith,
      inv.buffered k low high,
      inv.write_at,
      inv.read_at,
      inv.fits,
      free,
      room,
      inv.behind,
    );
    pending = λ _. ground (arith, inv.write_at);
    in_order = inv.in_order;
  }

  wrote-IsFifo : s.storing ≡ true → IsFifo input (wrote s)
  wrote-IsFifo full = record {
    write_at = ground (arith, inv.write_at);
    read_at = inv.read_at;
    behind = ground (arith, inv.behind);
    fits = ground (arith, inv.fits, full);
    buffered = λ k low high. elim (Bool-cases (k == s.sent)) [
      | inl last ↦
          let e = (==_iff k s.sent).0 last in
          ap (λ n. s.pipe.p_buf (n % 32)) e ∙ inv.pending full ∙ ap input (sym e)
      | inr before ↦ inv.buffered k low (ground (arith, high, before))
    ];
    pending = λ e. ground arith;
    in_order = inv.in_order;
  }

  taken-IsFifo : s.taking ≡ false → is_empty s.pipe ≡ false → IsFifo input (taken s)
  unfolding update
  taken-IsFifo free filled = record {
    write_at = inv.write_at;
    read_at = inv.read_at;
    behind = ground (arith, inv.write_at, inv.read_at, inv.behind, free, filled);
    fits = inv.fits;
    buffered = inv.buffered;
    pending = inv.pending;
    in_order = λ k h.
        let ready : s.got < s.sent =
          ground (arith, inv.write_at, inv.read_at, inv.behind, free, filled) in
        elim (Bool-cases (k == s.got)) [
          | inl now ↦
              let e = (==_iff k s.got).0 now in
              rw (now, inv.read_at) (inv.buffered s.got (omega arith) ready ∙ ap input (sym e))
          | inr before ↦ rw before (inv.in_order k (ground (arith, h, before, free)))
        ];
  }

  released-IsFifo : s.taking ≡ true → IsFifo input (released s)
  released-IsFifo full = record {
    write_at = inv.write_at;
    read_at = ground (arith, inv.read_at, inv.behind);
    behind = ground (arith, inv.behind, full);
    fits = ground (arith, inv.fits);
    buffered = λ k low high. inv.buffered k (omega arith) high;
    pending = inv.pending;
    in_order = λ k h. inv.in_order k (ground (arith, h, full));
  }

start-IsFifo : (input : ℕ → ℕ) → IsFifo input start
start-IsFifo input = record {
  write_at = refl;
  read_at = refl;
  behind = omega arith;
  fits = omega arith;
  buffered = λ k low high. absurd (omega arith);
  pending = λ e. absurd (ground arith);
  in_order = λ k h. absurd (omega arith);
}

Reach-IsFifo : (input : ℕ → ℕ) (s : State) → Reach input s → s.sent < 2 ^ 31 → IsFifo input s
Reach-IsFifo input s begin bound = start-IsFifo input
Reach-IsFifo input t (after {s} r (store free room)) bound =
    stored-IsFifo input s (Reach-IsFifo input s r bound) bound free room
Reach-IsFifo input t (after {s} r (write full)) bound =
    let small : s.sent < 2 ^ 31 = omega arith in
    wrote-IsFifo input s (Reach-IsFifo input s r small) small full
Reach-IsFifo input t (after {s} r (take free filled)) bound =
    taken-IsFifo input s (Reach-IsFifo input s r bound) bound free filled
Reach-IsFifo input t (after {s} r (release full)) bound =
    released-IsFifo input s (Reach-IsFifo input s r bound) bound full

-- In every state that the steps of one writer and one reader lead to, in any order, before 2^31
-- bytes are sent: the bytes read are the first bytes sent, in order, no byte is read that was not
-- sent, and at most PIPEBUFSIZ bytes wait in the pipe.
pub Reach-in_order :
    (input : ℕ → ℕ) (s : State)
    → Reach input s
    → s.sent < 2 ^ 31
    → ((k : ℕ) → (if ltb k s.got then s.received k else input k) ≡ input k)
      × (s.got ≤ s.sent)
      × (s.sent ≤ s.got + 32)
Reach-in_order input s r bound =
    let inv = Reach-IsFifo input s r bound in
    (λ k. got_sent k (inv.in_order k), ground (arith, inv.behind), ground (arith, inv.fits))
  where
    got_sent :
        (k : ℕ)
        → (k < s.got + (if s.taking then 1 else 0) → s.received k ≡ input k)
        → (if ltb k s.got then s.received k else input k) ≡ input k
    got_sent k h = ground (arith, h)

-- In every such state the pipe is not both empty and full, so that one of the two sides does not
-- wait.
pub Reach-never_stuck :
    (input : ℕ → ℕ) (s : State)
    → Reach input s
    → s.sent < 2 ^ 31
    → (is_empty s.pipe && is_full s.pipe) ≡ false
Reach-never_stuck input s r bound =
    let inv = Reach-IsFifo input s r bound in ground (arith, inv.write_at, inv.read_at, inv.behind)
