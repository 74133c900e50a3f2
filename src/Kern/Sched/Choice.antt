-- ===== src/Kern/Sched/Choice.antt =====
-- Which environment `sched_yield` chooses: the first runnable one after the current, round the
-- table, and the current one if there is none.
use oscourse.Base.{
  ℕ, zero, suc, ◌+◌, ◌-◌, ◌%◌, ◌<◌, ◌≡◌, refl, ap, ◌∙◌, true, false, ◌&&◌, ◌||◌, inl, inr,
  Bool-cases, some, arith, ◌==◌, ==_iff, leb, ltb,
}
use oscourse.Kern.Env.{Kernel, nenv, is_runnable}
use oscourse.Kern.Sched.{scan, start_at, next_env}

-- the slot `k` places after the one that follows `cur`
abbrev pub after : (cur k : ℕ) → ℕ
after cur k = (cur + 1 + k) % nenv

-- The loop stops `stop` places on: at `cur` or at a runnable slot, none before it being runnable.
pub record Chosen (s : Kernel) (cur from stop : ℕ) : Type 0 where
  pub within : stop < nenv
  pub ends : ((after cur stop == cur) || is_runnable (s.envs (after cur stop)).env_status) ≡ true
  pub first :
      (j : ℕ)
      → (leb from j && (ltb j stop && is_runnable (s.envs (after cur j)).env_status)) ≡ false

after-suc : (cur k : ℕ) → (after cur k + 1) % nenv ≡ after cur (k + 1)
after-suc cur k = omega arith

-- NENV places on the loop is back at `cur`.
after-last : (cur k : ℕ) → cur < nenv → k + 1 ≡ nenv → (after cur k == cur) ≡ true
after-last cur k inside e = ground arith

-- A slot that the loop passes is added to those known not to be runnable.
Chosen-extend :
    (s : Kernel) (cur k stop : ℕ)
    → ((after cur k == cur) || is_runnable (s.envs (after cur k)).env_status) ≡ false
    → Chosen s cur (k + 1) stop
    → Chosen s cur k stop
Chosen-extend s cur k stop on c = record {
  within = c.within;
  ends = c.ends;
  first = λ j. elim (Bool-cases (j == k)) [
    | inl same ↦ rw ((==_iff j k).0 same) (ground (arith, on))
    | inr other ↦ ground (arith, c.first j)
  ];
}

pub scan-Chosen :
    (fuel k : ℕ) (s : Kernel) (cur : ℕ)
    → cur < nenv
    → k + fuel ≡ nenv
    → 0 < fuel
    → (stop : ℕ) × (scan fuel s cur (after cur k) ≡ some (after cur stop)) × Chosen s cur k stop
unfolding scan
scan-Chosen zero k s cur inside e more = absurd (omega arith)
scan-Chosen (suc fuel) k s cur inside e more =
    elim (Bool-cases ((after cur k == cur) || is_runnable (s.envs (after cur k)).env_status)) [
      | inl done ↦
          (k, rw done, record { within = omega arith; ends = done; first = λ j. ground arith })
      | inr on ↦
          let left : 0 < fuel = ground (arith, after-last cur k inside) in
          let rest = scan-Chosen fuel (k + 1) s cur inside (omega arith) left in
          (
            rest.0,
            rw on (ap (scan fuel s cur) (after-suc cur k) ∙ rest.1),
            Chosen-extend s cur k rest.0 on rest.2,
          )
    ]

-- If the search starts inside the table, the loop of `sched_yield` ends within NENV rounds, at the
-- first runnable slot after the current one, round the table, or at the current one if there is
-- none.
pub next_env-Chosen :
    (s : Kernel)
    → start_at s.curenv < nenv
    → (stop : ℕ) × (next_env s ≡ some (after (start_at s.curenv) stop))
      × Chosen s (start_at s.curenv) 0 stop
unfolding next_env
next_env-Chosen s inside =
    let c = scan-Chosen nenv 0 s (start_at s.curenv) inside refl (omega arith) in
    (c.0, ap (scan nenv s (start_at s.curenv)) (omega arith) ∙ c.1, c.2)

-- how many places after `cur` slot `i` comes
abbrev place : (cur i : ℕ) → ℕ
place cur i = (i + nenv - cur - 1) % nenv

after-place : (cur i : ℕ) → cur < nenv → i < nenv → after cur (place cur i) ≡ i
after-place cur i h k = omega arith

-- If any environment is runnable, the chosen one is.
pub Chosen-is_runnable :
    (s : Kernel) (cur stop i : ℕ)
    → cur < nenv
    → i < nenv
    → is_runnable (s.envs i).env_status ≡ true
    → Chosen s cur 0 stop
    → is_runnable (s.envs (after cur stop)).env_status ≡ true
Chosen-is_runnable s cur stop i h k ready c =
    let at : (s.envs (after cur (place cur i))).env_status ≡ (s.envs i).env_status =
      ap (λ j. (s.envs j).env_status) (after-place cur i h k) in
    ground (arith, c.first (place cur i), c.ends, c.within, at)
