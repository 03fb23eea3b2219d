-- ===== src/Calendar.antt =====
-- What the program uses of Go's `time` package: instants, the fixed zone UTC+8 and the Gregorian
-- calendar. An instant is a count of seconds from 0001-01-01 00:00 UTC, the zero `time.Time`; a
-- local instant counts from 0001-01-01 00:00 in Asia/Shanghai. A month is its index from January of
-- year 1, so `time.Date(year, month + k, ...)` is the index plus k, with the carry into the year.
pub mod Months
pub mod Clock
pub mod Boundary
use vps_panel.Prelude.{
  ℕ, zero, suc, ◌+◌, ◌-◌, ◌*◌, ◌/◌, ◌%◌, Bool, true, false, ◌&&◌, ◌||◌, not, ltb, ◌==◌,
  if◌then◌else◌,
}

abbrev pub day_seconds : ℕ
day_seconds = 86400

abbrev pub zone_offset : ℕ
zone_offset = 28800

-- t.In(location) and t.UTC()
abbrev pub in_zone : ℕ → ℕ
in_zone t = t + zone_offset

abbrev pub to_utc : ℕ → ℕ
to_utc l = l - zone_offset

-- The year after `y` full years.
unfoldable pub is_leap : ℕ → Bool
is_leap y = let n = y + 1 in (n % 4 == 0) && (not (n % 100 == 0) || (n % 400 == 0))

unfoldable pub days_before_year : ℕ → ℕ
days_before_year y = 365 * y + y / 4 - y / 100 + y / 400

-- The days of a year before its month number `m`, from 0, and the length of that month.
unfoldable pub days_before_month : Bool → ℕ → ℕ
days_before_month leap m =
    let february = if leap then 29 else 28 in
    if m == 0
    then 0
    else if m == 1
    then 31
    else february
      + (if m == 2
          then 31
          else if m == 3
          then 62
          else if m == 4
          then 92
          else if m == 5
          then 123
          else if m == 6
          then 153
          else if m == 7
          then 184
          else if m == 8
          then 215
          else if m == 9
          then 245
          else if m == 10
          then 276
          else 306)

unfoldable pub month_start : ℕ → ℕ
unfolding is_leap days_before_year days_before_month
month_start k = days_before_year (k / 12) + days_before_month (is_leap (k / 12)) (k % 12)

abbrev pub month_len : ℕ → ℕ
month_len k = month_start (suc k) - month_start k

-- The month of a day: a search from a year that is not too late.
unfoldable pub month_scan : ℕ → ℕ → ℕ → ℕ
month_scan zero k d = k
month_scan (suc fuel) k d =
    let later = month_scan fuel (suc k) d in if ltb d (month_start (suc k)) then k else later

unfoldable pub month_of : ℕ → ℕ
unfolding month_scan month_start
month_of d = month_scan (suc d) (12 * (d / 366)) d

-- The parts of a local instant: its day, its month, the day of that month from 1, the clock.
abbrev pub day_of : ℕ → ℕ
day_of l = l / day_seconds

abbrev pub local_month : ℕ → ℕ
local_month l = month_of (day_of l)

abbrev pub month_day : ℕ → ℕ
month_day l = day_of l - month_start (local_month l) + 1

abbrev pub clock_of : ℕ → ℕ
clock_of l = l % day_seconds

-- time.Weekday, Sunday being 0; 0001-01-01 was a Monday.
abbrev pub weekday : ℕ → ℕ
weekday d = (d + 1) % 7

-- time.Date for a month index, a day of the month from 1 and a time of day in seconds. A day past
-- the month's end falls into the next month.
unfoldable pub date : ℕ → ℕ → ℕ → ℕ
date k day clock = (month_start k + (day - 1)) * day_seconds + clock
