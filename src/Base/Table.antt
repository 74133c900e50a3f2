-- ===== src/Base/Table.antt =====
-- Arrays and memories as functions of the index, and writes to them.
use Prim.Native.Nat.{ℕ}
use mathlib.Core.Path.{◌≡◌}
use mathlib.Core.Logic.{◌≢◌}
use native.Mathlib.Omega.{arith}
use oscourse.Base.Tests.{◌==◌, if◌then◌else◌}

module _ {ℓ} {A : Type ℓ} where
  -- `t[i] = v`
  unfoldable pub update : (ℕ → A) → ℕ → A → ℕ → A
  update t i v j = if j == i then v else t j

  pub update_self : (t : ℕ → A) (i : ℕ) (v : A) → update t i v i ≡ v
  unfolding update
  update_self t i v = ground arith

  pub update_ne : (t : ℕ → A) (i j : ℕ) (v : A) → j ≢ i → update t i v j ≡ t j
  unfolding update
  update_ne t i j v h = ground arith
