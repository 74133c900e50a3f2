-- ===== src/User/Pipe/Tests.antt =====
-- The pipe after the writer has stored a second byte while the reader takes the first.
use oscourse.Base.{ltb, if◌then◌else◌, ℕ, ◌+◌, ◌≤◌, ◌≡◌, refl, arith}
use oscourse.User.Pipe.{
  State, store, write, take, release, Reach, begin, after, start, stored, wrote, taken, released,
  store_byte,
}
use oscourse.User.Pipe.Fifo.{Reach-in_order}

abbrev input : ℕ → ℕ
input k = k + 65

abbrev mixed : State
mixed = released (stored input (taken (wrote (stored input start))))

mixed-Reach : Reach input mixed
unfolding store_byte
mixed-Reach =
    after
      (after (after (after (after begin (store refl refl)) (write refl)) (take refl refl))
        (store refl refl))
      (release refl)

Reach-in_order_example :
    ((k : ℕ) → (if ltb k 1 then mixed.received k else input k) ≡ input k) × (1 ≤ 1) × (1 ≤ 1 + 32)
Reach-in_order_example = Reach-in_order input mixed mixed-Reach (omega arith)
