-- ===== src/Kern/Lock/Tests.antt =====
-- Two processors ask for a lock, and the first gets it; and the lock of kern/alloc.c.
use oscourse.Base.{ℕ, ◌≡◌, ◌≢◌, refl, arith, update}
use oscourse.Kern.Lock.{
  outside, holding, LockState, spin_initlock, entered, exchanged, enter, exchange, LockReach, begin,
  after,
}
use oscourse.Kern.Lock.Exclusion.{IsStuck, LockReach-exclusive, LockReach-stuck}

both_ask : LockReach spin_initlock (entered 1 (entered 0 spin_initlock))
unfolding spin_initlock update
both_ask = after (after begin (enter 0 refl)) (enter 1 refl)

first_in : LockReach spin_initlock (exchanged 0 (entered 1 (entered 0 spin_initlock)))
unfolding update
first_in = after both_ask (exchange 0 refl)

holds : (exchanged 0 (entered 1 (entered 0 spin_initlock))).stage 0 ≡ holding
unfolding exchanged spin_initlock update
holds = refl

abbrev winner : ℕ
winner = 0

LockReach-exclusive_example : winner ≡ 0
LockReach-exclusive_example =
    LockReach-exclusive (exchanged 0 (entered 1 (entered 0 spin_initlock))) 0 0 first_in holds holds

-- `static struct spinlock lk = { .locked = 1 }`
abbrev lk : LockState
lk = record { locked = 1; stage = λ c. outside }

lk-IsStuck : IsStuck lk
lk-IsStuck = record { stays_locked = refl; nobody = λ c h. ground arith }

stays_out : (exchanged 5 (entered 5 lk)).stage 5 ≢ holding
unfolding update
stays_out =
    LockReach-stuck lk (exchanged 5 (entered 5 lk)) 5 lk-IsStuck
      (after (after begin (enter 5 refl)) (exchange 5 refl))
