-- ===== src/ClientTraffic/Cycle.antt =====
-- panel/internal/proxy/traffic.go: the configuration of a client's traffic cycle, where the current
-- cycle began and when the next one begins.
pub mod Bounds
pub mod Window
use vps_panel.Prelude.{
  ℕ, suc, ◌+◌, ◌-◌, ◌*◌, ◌/◌, ◌%◌, Bool, true, false, ◌&&◌, ◌||◌, not, Option, none, some, List, [],
  ◌∷◌, ltb, leb, ◌==◌, if◌then◌else◌, Result, ok, err, ◌>>=◌,
}
use vps_panel.Prelude.Int.{ℤ, pos, negsuc, pos_part, ltb_ℤ, max_int64}
use vps_panel.Prelude.Text.{Text, trim_space}
use vps_panel.Calendar.{
  day_seconds, in_zone, to_utc, month_len, local_month, month_day, day_of, clock_of, weekday, date,
}
use vps_panel.Calendar.Clock.{parse_clock, reads_back, clock_seconds}
use vps_panel.ClientTraffic.{Error, invalid_client_traffic_config}

-- traffic_reset_mode; `unset` is the empty text and `other` any text that the program does not know.
pub data ResetMode : Type 0 where
  unset never daily weekly monthly other : ResetMode

pub record ClientTrafficConfig : Type 0 where
  pub limit : Option ℤ
  pub mode : ResetMode
  pub weekday : ℤ
  pub day : ℤ
  pub reset_time : Text

unfoldable pub valid_client_reset_time : Text → Bool
valid_client_reset_time s = reads_back s (parse_clock (trim_space s))

abbrev default_mode : ResetMode → ResetMode
default_mode unset = never
default_mode m = m

abbrev default_one : ℤ → ℤ
default_one (pos n) = if n == 0 then pos 1 else pos n
default_one n = n

abbrev default_time : Text → Text
default_time [] = b'0' ∷ b'0' ∷ b':' ∷ b'0' ∷ b'0' ∷ []
default_time s = s

abbrev positive_limit : Option ℤ → Option ℤ
positive_limit none = none
positive_limit (some n) = if ltb_ℤ (pos 0) n then some n else none

abbrev is_mode : ResetMode → Bool
is_mode unset = false
is_mode other = false
is_mode _ = true

unfoldable pub normalize_client_traffic_config :
    ClientTrafficConfig → Result Error ClientTrafficConfig
unfolding valid_client_reset_time
normalize_client_traffic_config c =
    let value : ClientTrafficConfig = record {
      limit = positive_limit c.limit;
      mode = default_mode c.mode;
      weekday = default_one c.weekday;
      day = default_one c.day;
      reset_time = default_time c.reset_time;
    } in
    if ltb_ℤ value.weekday (pos 1)
      || ltb_ℤ (pos 7) value.weekday
      || ltb_ℤ value.day (pos 1)
      || ltb_ℤ (pos 31) value.day
      || not (valid_client_reset_time value.reset_time)
    then err invalid_client_traffic_config
    else if is_mode value.mode
    then ok value
    else err invalid_client_traffic_config

unfoldable pub client_monthly_boundary : ℕ → ℕ → ℕ → ℕ
client_monthly_boundary month day clock =
    let last_day = month_len month in date month (if ltb last_day day then last_day else day) clock

-- The hour and minute of a text; a text that does not parse is midnight.
abbrev pub clock_or_midnight : Text → ℕ
clock_or_midnight s = elim (parse_clock s) [ none ↦ 0 | some c ↦ clock_seconds c ]

abbrev pub iso_weekday : ℕ → ℕ
iso_weekday d = let w = weekday d in if w == 0 then 7 else w

-- The boundary of a cycle at a local instant, for a mode other than `never`.
unfoldable pub cycle_boundary : ResetMode → ℕ → ℕ → ℕ → ℕ → ℕ
unfolding client_monthly_boundary
cycle_boundary mode wanted day clock local_now =
    let month = local_month local_now in
    let today = date month (month_day local_now) clock in
    let back = (iso_weekday (day_of local_now) + 7 - wanted) % 7 in
    let this_week = today - back * day_seconds in
    let this_month = client_monthly_boundary month day clock in
    elim mode [
      | daily ↦ if ltb local_now today then today - day_seconds else today
      | weekly ↦ if ltb local_now this_week then this_week - 7 * day_seconds else this_week
      | monthly ↦
          if ltb local_now this_month
          then client_monthly_boundary (month - 1) day clock
          else this_month
      | _ ↦ 0
    ]

abbrev pub config_of : ResetMode → ℤ → ℤ → Text → ClientTrafficConfig
config_of mode w d time = record {
  limit = none;
  mode = mode;
  weekday = w;
  day = d;
  reset_time = time;
}

abbrev pub is_never : ResetMode → Bool
is_never never = true
is_never _ = false

abbrev pub cycle_start_of : ClientTrafficConfig → ℕ → ℕ
cycle_start_of c now =
    if is_never c.mode
    then now
    else to_utc (
        cycle_boundary c.mode (pos_part c.weekday) (pos_part c.day) (clock_or_midnight c.reset_time)
          (in_zone now))

unfoldable pub current_client_cycle_start : ℕ → ResetMode → ℤ → ℤ → Text → Result Error ℕ
unfolding cycle_boundary
current_client_cycle_start now mode w d time =
    normalize_client_traffic_config (config_of mode w d time) >>= λ c. ok (cycle_start_of c now)

abbrev pub next_boundary : ClientTrafficConfig → ℕ → ℕ
next_boundary c local_current = elim c.mode [
  | daily ↦ local_current + day_seconds
  | weekly ↦ local_current + 7 * day_seconds
  | monthly ↦
      client_monthly_boundary (local_month local_current + 1) (pos_part c.day)
        (clock_of local_current / 60 * 60)
  | _ ↦ local_current
]

-- The cycle start is computed again from the normalised configuration, which gives the same.
unfoldable pub next_client_reset_at : ℕ → ResetMode → ℤ → ℤ → Text → Result Error (Option ℕ)
next_client_reset_at now mode w d time =
    normalize_client_traffic_config (config_of mode w d time) >>= λ c.
    if is_never c.mode
    then ok none
    else current_client_cycle_start now c.mode c.weekday c.day c.reset_time >>= λ current.
        ok (some (to_utc (next_boundary c (in_zone current))))
