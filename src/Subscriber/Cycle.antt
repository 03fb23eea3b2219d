-- ===== src/Subscriber/Cycle.antt =====
-- panel/internal/subscription/usage.go: the cycle of a subscriber. Unlike the other cycles of the
-- program it goes back a month by `AddDate(0, -1, 0)`, which keeps the day of the month.
use vps_panel.Prelude.{
  ℕ, ◌+◌, ◌-◌, Bool, true, false, ◌||◌, not, Option, none, some, ltb, if◌then◌else◌, Result, ok,
  err, ◌>>=◌,
}
use vps_panel.Prelude.Int.{ℤ, pos, pos_part, ltb_ℤ}
use vps_panel.Prelude.Text.{Text, trim_space}
use vps_panel.Calendar.{in_zone, to_utc, month_len, local_month, month_day, clock_of, date}
use vps_panel.Calendar.Clock.{parse_clock, is_clock, clock_seconds}
use vps_panel.Subscriber.Charge.{Error, invalid_traffic_reset}

-- traffic_reset_mode; `other` is any other text.
pub data ResetMode : Type 0 where
  never monthly other : ResetMode

abbrev pub is_never : ResetMode → Bool
is_never never = true
is_never _ = false

abbrev is_monthly : ResetMode → Bool
is_monthly monthly = true
is_monthly _ = false

-- validResetTime of plan.go
unfoldable pub valid_reset_time : Text → Bool
valid_reset_time s = is_clock s

unfoldable pub subscriber_monthly_boundary : ℕ → ℕ → ℕ → ℕ
subscriber_monthly_boundary month day clock =
    let last_day = month_len month in date month (if ltb last_day day then last_day else day) clock

-- l.AddDate(0, -1, 0) and l.AddDate(0, 1, 0)
unfoldable pub month_before : ℕ → ℕ
month_before l = date (local_month l - 1) (month_day l) (clock_of l)

unfoldable pub month_after : ℕ → ℕ
month_after l = date (local_month l + 1) (month_day l) (clock_of l)

abbrev pub parsed_clock : Text → ℕ
parsed_clock s = elim (parse_clock s) [ none ↦ 0 | some c ↦ clock_seconds c ]

unfoldable pub current_local_start : ℕ → ℕ → ℕ → ℕ
unfolding subscriber_monthly_boundary month_before
current_local_start day clock local_now =
    let this = subscriber_monthly_boundary (local_month local_now) day clock in
    let before = subscriber_monthly_boundary (local_month (month_before local_now)) day clock in
    if ltb local_now this then before else this

unfoldable pub current_subscriber_cycle_start : ℕ → ResetMode → ℤ → Text → Result Error ℕ
unfolding valid_reset_time
current_subscriber_cycle_start now mode day reset_time =
    if is_never mode
    then ok now
    else if not (is_monthly mode)
        || ltb_ℤ day (pos 1)
        || ltb_ℤ (pos 31) day
        || not (valid_reset_time reset_time)
    then err invalid_traffic_reset
    else ok (
        to_utc
          (current_local_start (pos_part day) (parsed_clock (trim_space reset_time)) (in_zone now)))

unfoldable pub next_subscriber_reset : ℕ → ResetMode → ℤ → Text → Result Error (Option ℕ)
next_subscriber_reset now mode day reset_time =
    if is_never mode
    then ok none
    else (current_subscriber_cycle_start now mode day reset_time >>= λ current.
        let local = month_after (in_zone current) in
        ok (
          some (
            to_utc (
              subscriber_monthly_boundary (local_month local) (pos_part day)
                (parsed_clock reset_time)))))
