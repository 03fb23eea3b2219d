-- ===== src/Subscriber/Drift.antt =====
-- panel/internal/subscription/usage.go: where a subscriber's cycle begins. `AddDate(0, -1, 0)` keeps
-- the day of the month, so that at the end of a month it can stay in the month.
use vps_panel.Prelude.{ℕ, suc, ◌+◌, ◌-◌, ◌*◌, ◌/◌, ◌%◌, ◌≤◌, ◌<◌, ◌≡◌, refl, arith, true, ok}
use vps_panel.Prelude.Int.{pos}
use vps_panel.Prelude.Text.{trim_space}
use vps_panel.Calendar.{
  in_zone, to_utc, month_len, month_start, local_month, month_day, clock_of, date, day_seconds,
}
use vps_panel.Calendar.Months.{month_of_unique, month_start_bounds}
use vps_panel.Calendar.Boundary.{
  boundary, last_boundary, IsLastBoundary, last_boundary-IsLastBoundary, date_month,
  local_month_bounds,
}
use vps_panel.Calendar.Clock.{
  format_clock, is_clock, is_clock_iff, parse_clock-format_clock, clock_seconds, clock_seconds_lt,
}
use vps_panel.Subscriber.Cycle.{
  monthly, subscriber_monthly_boundary, month_before, current_local_start,
  current_subscriber_cycle_start, parsed_clock,
}

boundary_lem : (k day clock : ℕ) → subscriber_monthly_boundary k day clock ≡ boundary day clock k
unfolding subscriber_monthly_boundary boundary
boundary_lem k day clock = refl

-- Where the month before has the day, going back a month lands in it.
month_before-short :
    (l : ℕ)
    → 1 ≤ local_month l
    → month_day l ≤ month_len (local_month l - 1)
    → local_month (month_before l) ≡ local_month l - 1
unfolding month_before
month_before-short l m fits =
    date_month (local_month l - 1) (month_day l) (clock_of l) (omega arith) fits (omega arith)

past_end :
    (l : ℕ)
    → 1 ≤ local_month l
    → month_len (local_month l - 1) < month_day l
    → month_start (local_month l) ≤ month_start (local_month l - 1) + (month_day l - 1)
past_end l m over =
    let same : suc (local_month l - 1) ≡ local_month l = omega arith in
    let over' = rw same at over in omega (arith, over')

-- Where it has not, the day falls into the month that one is in.
month_before-long :
    (l : ℕ)
    → 1 ≤ local_month l
    → month_len (local_month l - 1) < month_day l
    → local_month (month_before l) ≡ local_month l
unfolding month_before date
month_before-long l m over =
    let k = local_month l in
    let same : suc (k - 1) ≡ k = omega arith in
    let short : month_start (suc (k - 1)) ≤ month_start (k - 1) + 31 =
      omega (arith, month_start_bounds (k - 1)) in
    let long : month_start (k - 1) + 28 ≤ month_start (suc (k - 1)) =
      omega (arith, month_start_bounds (k - 1)) in
    let lo = rw same at long in
    let hi = rw same at short in
    let inside = local_month_bounds l in
    let day : ((month_start (k - 1) + (month_day l - 1)) * day_seconds + l % day_seconds)
          / day_seconds
        ≡ month_start (k - 1) + (month_day l - 1) =
      omega arith in
    rw day (
      month_of_unique (month_start (k - 1) + (month_day l - 1)) k (past_end l m over)
        (omega (arith, lo, inside, month_start_bounds k)))

module _ (day clock l : ℕ) (m : 1 ≤ local_month l) where
  pub current_local_start-short :
      month_day l ≤ month_len (local_month l - 1)
      → current_local_start day clock l ≡ last_boundary day clock l
  unfolding current_local_start last_boundary
  current_local_start-short fits = rw (month_before-short l m fits, boundary_lem) refl

  pub current_local_start-long :
      month_len (local_month l - 1) < month_day l
      → current_local_start day clock l ≡ boundary day clock (local_month l)
  unfolding current_local_start
  current_local_start-long over = rw (month_before-long l m over, boundary_lem) (ground arith)

trim_space-format_clock :
    (h m : ℕ) → h < 24 → m < 60 → trim_space (format_clock h m) ≡ format_clock h m
unfolding trim_space format_clock
trim_space-format_clock h m p q = ground arith

cycle_start_value :
    (now day : ℕ) (c : ℕ × ℕ)
    → c.0 < 24
    → c.1 < 60
    → 1 ≤ day
    → day ≤ 31
    → current_subscriber_cycle_start now monthly (pos day) (format_clock c.0 c.1)
      ≡ ok (to_utc (current_local_start day (clock_seconds c) (in_zone now)))
unfolding current_subscriber_cycle_start
cycle_start_value now day c p q h f =
    let valid : is_clock (format_clock c.0 c.1) ≡ true =
      (is_clock_iff (format_clock c.0 c.1)).1 (c, p, q, refl) in
    rw
      (
        valid,
        trim_space-format_clock c.0 c.1 p q,
        parsed_clock,
        parse_clock-format_clock c.0 c.1 p q,
      )
      (ground arith)

-- For a reset day from 1 to 31 and a time of day written HH:MM, at an instant from February of
-- year 1 on, on a day of the month that the month before has too, the cycle begins at the last
-- monthly boundary that is not after now.
pub current_subscriber_cycle_start-IsLastBoundary :
    (now day : ℕ) (c : ℕ × ℕ)
    → c.0 < 24
    → c.1 < 60
    → 1 ≤ day
    → day ≤ 31
    → 1 ≤ local_month (in_zone now)
    → month_day (in_zone now) ≤ month_len (local_month (in_zone now) - 1)
    → (b : ℕ) × (current_subscriber_cycle_start now monthly (pos day) (format_clock c.0 c.1)
        ≡ ok (to_utc b))
      × IsLastBoundary day (clock_seconds c) (in_zone now) b
current_subscriber_cycle_start-IsLastBoundary now day c p q h f m fits =
    let l = in_zone now in
    (
      last_boundary day (clock_seconds c) l,
      rw (← current_local_start-short day (clock_seconds c) l m fits)
          (cycle_start_value now day c p q h f),
      last_boundary-IsLastBoundary day (clock_seconds c) h (clock_seconds_lt c (p, q)) l m,
    )

-- For a reset day from 1 to 31 and a time of day written HH:MM, at an instant from February of
-- year 1 on, on a day that the month before does not have, and before the month's reset, the
-- cycle is said to begin after now: the code steps back a month into the same month.
pub current_subscriber_cycle_start-ahead :
    (now day : ℕ) (c : ℕ × ℕ)
    → c.0 < 24
    → c.1 < 60
    → 1 ≤ day
    → day ≤ 31
    → 1 ≤ local_month (in_zone now)
    → month_len (local_month (in_zone now) - 1) < month_day (in_zone now)
    → in_zone now < boundary day (clock_seconds c) (local_month (in_zone now))
    → (s : ℕ) × (current_subscriber_cycle_start now monthly (pos day) (format_clock c.0 c.1) ≡ ok s)
      × (now < s)
current_subscriber_cycle_start-ahead now day c p q h f m over early =
    let l = in_zone now in
    (
      to_utc (boundary day (clock_seconds c) (local_month l)),
      rw (← current_local_start-long day (clock_seconds c) l m over)
          (cycle_start_value now day c p q h f),
      omega arith,
    )
