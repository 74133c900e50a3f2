-- ===== src/Kern/Lock.antt =====
-- kern/spinlock.c: spin locks, without DEBUG_SPINLOCK. `xchg` is atomic, so that one execution of it
-- is a step; any number of processors take their steps in any order.
pub mod Exclusion
mod Tests
use oscourse.Base.{ℕ, Bool, true, false, ◌==◌, if◌then◌else◌, ◌≡◌, update}

-- Where a processor stands: outside, in the loop of `spin_lock`, or behind it.
pub data Stage : Type 0 where
  outside spinning holding : Stage

-- `lk->locked`, and the stage of each processor
pub record LockState : Type 0 where
  pub locked : ℕ
  pub stage : ℕ → Stage

-- `__spin_initlock`, before any processor asks for the lock
unfoldable pub spin_initlock : LockState
spin_initlock = record { locked = 0; stage = λ c. outside }

-- processor `c` enters `spin_lock`
abbrev pub entered : ℕ → LockState → LockState
entered c s = record s { stage = update s.stage c spinning }

-- `xchg(&lk->locked, 1) != 0` in the loop of processor `c`, which goes on spinning or leaves the loop
unfoldable pub exchanged : ℕ → LockState → LockState
exchanged c s = record {
  locked = 1;
  stage = if s.locked == 0 then update s.stage c holding else s.stage;
}

-- `spin_unlock` of processor `c`
unfoldable pub spin_unlock : ℕ → LockState → LockState
spin_unlock c s = record { locked = 0; stage = update s.stage c outside }

-- One step of a processor. The lock is released by the processor that holds it.
pub data LockStep : LockState → LockState → Type 0 where
  enter : {s : LockState} (c : ℕ) → s.stage c ≡ outside → LockStep s (entered c s)
  exchange : {s : LockState} (c : ℕ) → s.stage c ≡ spinning → LockStep s (exchanged c s)
  unlock : {s : LockState} (c : ℕ) → s.stage c ≡ holding → LockStep s (spin_unlock c s)

-- the states that steps lead to from `s`
pub data LockReach (s : LockState) : LockState → Type 0 where
  begin : LockReach s s
  after : {t u : LockState} → LockReach s t → LockStep t u → LockReach s u
