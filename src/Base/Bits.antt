-- ===== src/Base/Bits.antt =====
-- Single bits of machine words: what the source writes with `&`, `|` and `~` on `1 << k`, by
-- recursion on the digits, so that the laws hold for every word and every place.
use Prim.Native.Nat.{ℕ, zero, suc, ◌+◌, ◌*◌, ◌/◌, ◌%◌}
use mathlib.Core.Path.{◌≡◌, refl}
use mathlib.Core.Logic.{◌≢◌}
use mathlib.Core.Bool.{Bool, true, false}
use native.Mathlib.Omega.{arith}
use oscourse.Base.Tests.{◌==◌}

-- `w & (1 << k)`, as a truth value
unfoldable pub test_bit : ℕ → ℕ → Bool
test_bit w zero = w % 2 == 1
test_bit w (suc k) = test_bit (w / 2) k

-- `w | (1 << k)`
unfoldable pub set_bit : ℕ → ℕ → ℕ
set_bit w zero = w / 2 * 2 + 1
set_bit w (suc k) = set_bit (w / 2) k * 2 + w % 2

-- `w & ~(1 << k)`
unfoldable pub clear_bit : ℕ → ℕ → ℕ
clear_bit w zero = w / 2 * 2
clear_bit w (suc k) = clear_bit (w / 2) k * 2 + w % 2

half_of : (n b : ℕ) → (n * 2 + b % 2) / 2 ≡ n
half_of n b = omega arith

pub test_bit-set_bit : (w k : ℕ) → test_bit (set_bit w k) k ≡ true
unfolding test_bit set_bit
test_bit-set_bit w zero = ground arith
test_bit-set_bit w (suc k) = rw (half_of (set_bit (w / 2) k) w) (test_bit-set_bit (w / 2) k)

pub test_bit-clear_bit : (w k : ℕ) → test_bit (clear_bit w k) k ≡ false
unfolding test_bit clear_bit
test_bit-clear_bit w zero = ground arith
test_bit-clear_bit w (suc k) = rw (half_of (clear_bit (w / 2) k) w) (test_bit-clear_bit (w / 2) k)

pub test_bit-set_bit_ne : (w j k : ℕ) → j ≢ k → test_bit (set_bit w k) j ≡ test_bit w j
unfolding test_bit set_bit
test_bit-set_bit_ne w zero zero h = absurd (omega arith)
test_bit-set_bit_ne w zero (suc k) h = ground arith
test_bit-set_bit_ne w (suc j) zero h = ground (arith, half_of (w / 2) 1)
test_bit-set_bit_ne w (suc j) (suc k) h =
    rw (half_of (set_bit (w / 2) k) w) (test_bit-set_bit_ne (w / 2) j k (omega arith))

pub test_bit-clear_bit_ne : (w j k : ℕ) → j ≢ k → test_bit (clear_bit w k) j ≡ test_bit w j
unfolding test_bit clear_bit
test_bit-clear_bit_ne w zero zero h = absurd (omega arith)
test_bit-clear_bit_ne w zero (suc k) h = ground arith
test_bit-clear_bit_ne w (suc j) zero h = ground (arith, half_of (w / 2) 0)
test_bit-clear_bit_ne w (suc j) (suc k) h =
    rw (half_of (clear_bit (w / 2) k) w) (test_bit-clear_bit_ne (w / 2) j k (omega arith))

pub test_bit-zero : (k : ℕ) → test_bit 0 k ≡ false
unfolding test_bit
test_bit-zero zero = refl
test_bit-zero (suc k) = test_bit-zero k
