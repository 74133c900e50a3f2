-- ===== src/User/Time/Tests.antt =====
-- Calendar time at a few instants.
use oscourse.Base.{ℕ, ◌-◌, ◌≤◌, ◌≡◌, refl, arith}
use oscourse.User.Time.{timestamp, mktime, drop, year_days, is_leap_year}
use oscourse.User.Time.Elapsed.{timestamp-mktime}

-- 2017-12-05, a quarter past ten
abbrev instant : ℕ
instant = 1512468900

instant_year : (mktime instant).tm_year ≡ 117
unfolding mktime drop year_days is_leap_year
instant_year = refl

instant_late : 100 ≤ (mktime instant).tm_year
instant_late = omega (arith, instant_year)

timestamp-mktime_example :
    timestamp (record (mktime instant) { tm_year = (mktime instant).tm_year - 100 }) ≡ instant
timestamp-mktime_example = timestamp-mktime instant instant_late
