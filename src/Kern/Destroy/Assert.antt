-- ===== src/Kern/Destroy/Assert.antt =====
-- `user_mem_assert` where the check succeeds.
use oscourse.Base.{ℕ, ◌≡◌, ap, ◌∙◌, none, some, bit_or}
use oscourse.Kern.Env.{Kernel}
use oscourse.Kern.UserMem.{user_mem_check}
use oscourse.Kern.Destroy.{user_mem_assert, assert_in, asserted}

-- Where the environment may access the range, `user_mem_assert` does nothing.
pub user_mem_assert-passed :
    (c va len perm pd : ℕ) (s : Kernel)
    → (s.envs c).env_pgdir ≡ some pd
    → user_mem_check pd va len (bit_or perm 4) s.phys ≡ some none
    → user_mem_assert c va len perm s ≡ some (none, s)
unfolding user_mem_assert assert_in asserted
user_mem_assert-passed c va len perm pd s d h =
    ap (λ o. assert_in c o va len perm s) d ∙ ap (λ o. asserted c o s) h
