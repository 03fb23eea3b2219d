-- ===== src/ClientTraffic/Cycle/Bounds.antt =====
-- panel/internal/proxy/traffic.go: a cycle holds the instant that it is computed for.
use vps_panel.Prelude.{ℕ, ◌+◌, ◌*◌, ◌/◌, ◌≤◌, ◌<◌, ◌≡◌, refl, arith, Option-cases, inl, inr}
use vps_panel.Prelude.Text.{Text}
use vps_panel.Calendar.{month_start, local_month, month_day, date, day_of, clock_of, day_seconds}
use vps_panel.Calendar.Months.{month_of_bounds, month_start_mono}
use vps_panel.Calendar.Boundary.{last_boundary, local_month_bounds}
use vps_panel.Calendar.Clock.{parse_clock, parse_clock_bounds, clock_seconds_lt}
use vps_panel.ClientTraffic.Cycle.{
  daily, weekly, monthly, cycle_boundary, iso_weekday, clock_or_midnight,
}

-- time.Date on the day of an instant is that day at the given time.
date_today :
    (l clock : ℕ) → date (local_month l) (month_day l) clock ≡ day_of l * day_seconds + clock
unfolding date
date_today l clock = omega (arith, month_of_bounds (l / day_seconds))

pub clock_or_midnight_lt : (s : Text) → clock_or_midnight s < day_seconds
clock_or_midnight_lt s = elim (Option-cases (parse_clock s)) [
  | inl missing ↦ rw (missing, clock_or_midnight) (omega arith)
  | inr (c, found) ↦
      rw (found, clock_or_midnight) (clock_seconds_lt c (parse_clock_bounds s c found))
]

pub clock_or_midnight_minutes : (s : Text) → clock_or_midnight s / 60 * 60 ≡ clock_or_midnight s
clock_or_midnight_minutes s = elim (Option-cases (parse_clock s)) [
  | inl missing ↦ rw (missing, clock_or_midnight)
  | inr (c, found) ↦ rw (found, clock_or_midnight) (omega arith)
]

pub january : (l : ℕ) → 1 ≤ local_month l → 31 * day_seconds ≤ l
unfolding month_start
january l h = omega (arith, local_month_bounds l, month_start_mono 1 (local_month l) h)

module _ (wanted day clock : ℕ) (c : clock < day_seconds) where
  pub daily_bounds :
      (l : ℕ)
      → 1 ≤ local_month l
      → let start = cycle_boundary daily wanted day clock l in
        (start ≤ l) × (l < start + day_seconds) × (clock_of start ≡ clock)
  unfolding cycle_boundary
  daily_bounds l m = rw (date_today l clock) (ground (arith, january l m))

  pub weekly_bounds :
      (l : ℕ)
      → 1 ≤ wanted
      → wanted ≤ 7
      → 1 ≤ local_month l
      → let start = cycle_boundary weekly wanted day clock l in
        (start ≤ l)
        × (l < start + 7 * day_seconds)
        × (clock_of start ≡ clock)
        × (iso_weekday (day_of start) ≡ wanted)
  unfolding cycle_boundary
  weekly_bounds l h f m = rw (date_today l clock) (ground (arith, january l m))

  pub monthly_lem : (l : ℕ) → cycle_boundary monthly wanted day clock l ≡ last_boundary day clock l
  unfolding cycle_boundary last_boundary
  monthly_lem l = refl
