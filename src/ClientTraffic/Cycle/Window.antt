-- ===== src/ClientTraffic/Cycle/Window.antt =====
-- panel/internal/proxy/traffic.go: the current cycle and the next reset bracket every instant.
use vps_panel.Prelude.{ℕ, ◌≤◌, ◌<◌, ◌≡◌, arith, ◌⊎◌, ok}
use vps_panel.Prelude.Int.{pos_part}
use vps_panel.Prelude.Text.{Text}
use vps_panel.Calendar.{day_seconds}
use vps_panel.ClientTraffic.Cycle.{
  ClientTrafficConfig, never, daily, weekly, monthly, normalize_client_traffic_config,
  cycle_boundary, next_boundary, clock_or_midnight,
}

-- What normalising makes sure of.
pub record IsNormal (c : ClientTrafficConfig) : Type 0 where
  pub known : (c.mode ≡ never) ⊎ (c.mode ≡ daily) ⊎ (c.mode ≡ weekly) ⊎ (c.mode ≡ monthly)
  pub weekday_min : 1 ≤ pos_part c.weekday
  pub weekday_max : pos_part c.weekday ≤ 7
  pub day_min : 1 ≤ pos_part c.day
  pub day_max : pos_part c.day ≤ 31

pub normalize-IsNormal :
    (c n : ClientTrafficConfig) → normalize_client_traffic_config c ≡ ok n → IsNormal n
unfolding normalize_client_traffic_config
normalize-IsNormal c n e = record {
  known = ground arith;
  weekday_min = ground arith;
  weekday_max = ground arith;
  day_min = ground arith;
  day_max = ground arith;
}

-- The local instants of a cycle that bracket a local instant.
IsWindow : ClientTrafficConfig → ℕ → ℕ → Type 0
IsWindow c l start = (start ≤ l) × (l < next_boundary c start) × (day_seconds ≤ start)

abbrev start_of : ClientTrafficConfig → ℕ → ℕ
start_of c l =
    cycle_boundary c.mode (pos_part c.weekday) (pos_part c.day) (clock_or_midnight c.reset_time) l
