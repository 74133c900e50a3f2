-- ===== src/User/Time.antt =====
-- inc/time.h: calendar time. The numbers are non-negative `int`s; the products of seconds stay below
-- 2^31 for the times that a `time_t` of 31 bits counts.
pub mod Elapsed
mod Tests
use oscourse.Base.{
  ℕ, zero, suc, ◌+◌, ◌-◌, ◌*◌, ◌%◌, Bool, true, false, not, ◌&&◌, ◌||◌, ltb, leb, ◌==◌,
  if◌then◌else◌,
}

-- `struct tm`
pub record Tm : Type 0 where
  pub tm_sec : ℕ
  pub tm_min : ℕ
  pub tm_hour : ℕ
  pub tm_mday : ℕ
  pub tm_mon : ℕ
  pub tm_year : ℕ

unfoldable pub is_leap_year : ℕ → Bool
is_leap_year year = (year % 400 == 0) || ((year % 4 == 0) && not (year % 100 == 0))

abbrev pub d_to_s : ℕ → ℕ
d_to_s d = d * 24 * 60 * 60

-- `365 + is_leap_year(year)`
unfoldable pub year_days : ℕ → ℕ
unfolding is_leap_year
year_days year = if is_leap_year year then 366 else 365

-- `months[month]`; `mktime` reads no entry from 12 on
unfoldable pub month_days : (year month : ℕ) → ℕ
unfolding is_leap_year
month_days year month =
    if month == 1
    then if is_leap_year year then 29 else 28
    else if (month == 3) || ((month == 5) || ((month == 8) || (month == 10)))
    then 30
    else 31

-- `len(i) + len(i + 1) + ...`, `n` of them
unfoldable pub sum : (len : ℕ → ℕ) → (n i : ℕ) → ℕ
sum len zero i = 0
sum len (suc n) i = len i + sum len n (i + 1)

-- the seconds of the year 1900 + `year`, and of a month
abbrev pub year_secs : ℕ → ℕ
year_secs year = d_to_s (year_days (1900 + year))

abbrev pub month_secs : (year month : ℕ) → ℕ
month_secs year month = d_to_s (month_days year month)

-- `timestamp`, for a year counted from 2000; the loops add the years from 1970 on and the months
unfoldable pub timestamp : Tm → ℕ
timestamp time =
    sum year_secs (time.tm_year + 30) 70
    + sum (month_secs (time.tm_year + 2000)) time.tm_mon 0
    + (d_to_s time.tm_mday + time.tm_hour * 60 * 60 + time.tm_min * 60 + time.tm_sec)

-- `time > len` or `time >= len`
abbrev pub exceeds : (strict : Bool) → (time len : ℕ) → Bool
exceeds true time len = ltb len time
exceeds false time len = leb len time

-- The loops of `mktime`: while `time` exceeds `len(count)`, take that off and count on. On fuel;
-- the count and the seconds that are left.
unfoldable pub drop : (strict : Bool) → (len : ℕ → ℕ) → (fuel count time : ℕ) → ℕ × ℕ
drop strict len zero count time = (count, time)
drop strict len (suc fuel) count time =
    let rest = drop strict len fuel (count + 1) (time - len count) in
    if exceeds strict time (len count) then rest else (count, time)

-- `mktime`; `time` rounds are enough for each loop, since every round takes a second or more
unfoldable pub mktime : ℕ → Tm
mktime time =
    let y = drop true year_secs time 70 time in
    let m = drop true (month_secs (1900 + y.0)) y.1 0 y.1 in
    let d = drop true (λ _. d_to_s 1) m.1 0 m.1 in
    let h = drop false (λ _. 60 * 60) d.1 0 d.1 in
    let s = drop false (λ _. 60) h.1 0 h.1 in
    record { tm_sec = s.1; tm_min = s.0; tm_hour = h.0; tm_mday = d.0; tm_mon = m.0; tm_year = y.0 }
