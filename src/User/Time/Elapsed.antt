-- ===== src/User/Time/Elapsed.antt =====
-- What the fields that `mktime` finds add up to, and where they are out of range.
use oscourse.Base.{
  ℕ, zero, suc, ◌+◌, ◌-◌, ◌*◌, ◌%◌, ◌≤◌, ◌<◌, ◌≡◌, ap, inl, inr, Bool, true, false, arith, ltb,
  Bool-cases,
}
use oscourse.User.Time.{
  d_to_s, year_days, month_days, sum, year_secs, month_secs, timestamp, exceeds, drop, mktime,
}

-- What a loop leaves of `time`: it stopped at `count`, which is `k` rounds on, with `left` seconds.
pub record Leaves (strict : Bool) (len : ℕ → ℕ) (start time count left k : ℕ) : Type 0 where
  pub stopped : count ≡ start + k
  pub total : time ≡ sum len k start + left
  pub ended : exceeds strict left (len count) ≡ false

module _ (strict : Bool) (len : ℕ → ℕ) (pos : (i : ℕ) → 0 < len i) where
  drop-more :
      (fuel count time k : ℕ)
      → len count ≤ time
      → let r = drop strict len fuel (count + 1) (time - len count) in
        Leaves strict len (count + 1) (time - len count) r.0 r.1 k
        → Leaves strict len count time r.0 r.1 (suc k)
  unfolding sum
  drop-more fuel count time k below l = record {
    stopped = omega (arith, l.stopped);
    total = omega (arith, l.total, below);
    ended = l.ended;
  }

  exceeds-le : (time n : ℕ) → exceeds strict time n ≡ true → n ≤ time
  exceeds-le time n h = elim (Bool-cases strict) [
    | inl t ↦ ground (arith, t, h)
    | inr f ↦ ground (arith, f, h)
  ]

  exceeds-false : (time n : ℕ) → time < n → exceeds strict time n ≡ false
  exceeds-false time n h = elim (Bool-cases strict) [
    | inl t ↦ ground (arith, t)
    | inr f ↦ ground (arith, f)
  ]

  drop-Leaves :
      (fuel count time : ℕ)
      → time ≤ fuel
      → let r = drop strict len fuel count time in (k : ℕ) × Leaves strict len count time r.0 r.1 k
  unfolding drop sum
  drop-Leaves zero count time h = (
    0,
    record {
      stopped = omega arith;
      total = omega arith;
      ended = exceeds-false time (len count) (omega (arith, pos count));
    },
  )
  drop-Leaves (suc fuel) count time h = elim (Bool-cases (exceeds strict time (len count))) [
    | inl more ↦
        let below = exceeds-le time (len count) more in
        let i = drop-Leaves fuel (count + 1) (time - len count) (omega (arith, pos count)) in
        (suc i.0, rw more (drop-more fuel count time i.0 below i.1))
    | inr done ↦ (0, rw done (record { stopped = omega arith; total = omega arith; ended = done }))
  ]

-- A loop with `>` leaves something of a time that is not 0, and no part of a day if it took whole
-- days off whole days.
drop-pos : (len : ℕ → ℕ) (fuel count time : ℕ) → 0 < time → 0 < (drop true len fuel count time).1
unfolding drop
drop-pos len zero count time h = h
drop-pos len (suc fuel) count time h = elim (Bool-cases (ltb (len count) time)) [
  | inl more ↦ rw more (drop-pos len fuel (count + 1) (time - len count) (ground (arith, more)))
  | inr done ↦ rw done h
]

drop-whole :
    (days : ℕ → ℕ) (fuel count time : ℕ)
    → time % 86400 ≡ 0
    → (drop true (λ i. d_to_s (days i)) fuel count time).1 % 86400 ≡ 0
unfolding drop
drop-whole days zero count time h = h
drop-whole days (suc fuel) count time h = elim (Bool-cases (ltb (d_to_s (days count)) time)) [
  | inl more ↦
      rw more
        (drop-whole days fuel (count + 1) (time - d_to_s (days count)) (ground (arith, more, h)))
  | inr done ↦ rw done h
]

sum-const : (c n i : ℕ) → sum (λ _. c) n i ≡ n * c
unfolding sum
sum-const c zero i = omega arith
sum-const c (suc n) i = omega (arith, sum-const c n (i + 1))

year_secs-pos : (year : ℕ) → 0 < year_secs year
unfolding year_days
year_secs-pos year = ground arith

month_secs-pos : (year month : ℕ) → 0 < month_secs year month
unfolding month_days
month_secs-pos year month = ground arith

-- The loops over days, hours and minutes, whose lengths do not change.
drop_days-total :
    (time : ℕ)
    → let r = drop true (λ _. d_to_s 1) time 0 time in (time ≡ r.0 * 86400 + r.1) × (r.1 ≤ 86400)
drop_days-total time =
    let l = drop-Leaves true (λ _. d_to_s 1) (λ i. omega arith) time 0 time (omega arith) in
    let e = sum-const 86400 l.0 0 in
    (omega (arith, l.1.stopped, l.1.total, e), ground (arith, l.1.ended))

drop_units-total :
    (unit time : ℕ)
    → 0 < unit
    → let r = drop false (λ _. unit) time 0 time in
      (time ≡ sum (λ _. unit) r.0 0 + r.1) × (r.1 < unit)
drop_units-total unit time pos =
    let l = drop-Leaves false (λ _. unit) (λ i. pos) time 0 time (omega arith) in
    let e : (drop false (λ _. unit) time 0 time).0 ≡ l.0 = omega (arith, l.1.stopped) in
    (omega (arith, l.1.total, ap (λ n. sum (λ _. unit) n 0) e), ground (arith, l.1.ended))

-- For times from the year 2000 on, `timestamp` gives back the time that `mktime` took apart; the
-- one counts years from 1900, the other from 2000.
pub timestamp-mktime :
    (t : ℕ)
    → 100 ≤ (mktime t).tm_year
    → timestamp (record (mktime t) { tm_year = (mktime t).tm_year - 100 }) ≡ t
unfolding timestamp mktime
timestamp-mktime t late =
    let y = drop true year_secs t 70 t in
    let ly = drop-Leaves true year_secs year_secs-pos t 70 t (omega arith) in
    let months = month_secs (1900 + y.0) in
    let m = drop true months y.1 0 y.1 in
    let lm = drop-Leaves true months (month_secs-pos (1900 + y.0)) y.1 0 y.1 (omega arith) in
    let d = drop true (λ _. d_to_s 1) m.1 0 m.1 in
    let h = drop false (λ _. 60 * 60) d.1 0 d.1 in
    let s = drop false (λ _. 60) h.1 0 h.1 in
    let late' : 100 ≤ y.0 = late in
    let e1 : y.0 - 100 + 30 ≡ ly.0 = omega (arith, ly.1.stopped, late') in
    let e2 : y.0 - 100 + 2000 ≡ 1900 + y.0 = omega (arith, late') in
    let e3 : m.0 ≡ lm.0 = omega (arith, lm.1.stopped) in
    omega (
      arith,
      ap (λ n. sum year_secs n 70) e1,
      ap (λ n. sum (month_secs n) m.0 0) e2,
      ap (λ n. sum months n 0) e3,
      ly.1.total,
      lm.1.total,
      drop_days-total m.1,
      drop_units-total (60 * 60) d.1 (omega arith),
      sum-const (60 * 60) h.0 0,
      drop_units-total 60 h.1 (omega arith),
      sum-const 60 s.0 0,
    )

-- At midnight of every day but the first, `mktime` reports the hour 24 of the day before, since its
-- loops over years, months and days stop one second late.
pub mktime-midnight :
    (t : ℕ)
    → 0 < t
    → t % 86400 ≡ 0
    → ((mktime t).tm_hour ≡ 24) × ((mktime t).tm_min ≡ 0) × ((mktime t).tm_sec ≡ 0)
unfolding mktime
mktime-midnight t pos whole =
    let y = drop true year_secs t 70 t in
    let months = month_secs (1900 + y.0) in
    let m = drop true months y.1 0 y.1 in
    let d = drop true (λ _. d_to_s 1) m.1 0 m.1 in
    let h = drop false (λ _. 60 * 60) d.1 0 d.1 in
    let s = drop false (λ _. 60) h.1 0 h.1 in
    let left =
      drop-pos (λ _. d_to_s 1) m.1 0 m.1
        (drop-pos months y.1 0 y.1 (drop-pos year_secs t 70 t pos)) in
    let day =
      drop-whole (λ _. 1) m.1 0 m.1
        (drop-whole (month_days (1900 + y.0)) y.1 0 y.1
          (drop-whole (λ i. year_days (1900 + i)) t 70 t whole)) in
    let full : d.1 ≡ 86400 = omega (arith, left, day, drop_days-total m.1) in
    let hours = drop_units-total (60 * 60) d.1 (omega arith) in
    let c = sum-const (60 * 60) h.0 0 in
    let e : (h.0 ≡ 24) × (h.1 ≡ 0) =
      (omega (arith, full, hours, c), omega (arith, full, hours, c)) in
    let minutes = drop_units-total 60 h.1 (omega arith) in
    let c' = sum-const 60 s.0 0 in
    (e.0, omega (arith, e.1, minutes, c'), omega (arith, e.1, minutes, c'))
