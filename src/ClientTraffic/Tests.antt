-- ===== src/ClientTraffic/Tests.antt =====
-- The theorems on client traffic at concrete inputs: the noon of 2024-01-15 in Asia/Shanghai, a
-- Monday, and a client with a weekly cycle that begins on Wednesdays.
use vps_panel.Prelude.{ℕ, ◌≡◌, refl, arith, true, false, none, some, [], ◌∷◌, All, ok, find_first}
use vps_panel.Prelude.Int.{pos}
use vps_panel.Prelude.Text.{codes, trim_space}
use vps_panel.Prelude.Tables.{upsert, update_where}
use vps_panel.Calendar.{month_of, date}
use vps_panel.Calendar.Clock.{is_clock}
use vps_panel.ClientTraffic.{Client, ClientMetrics, lifecycle_at}
use vps_panel.ClientTraffic.Cycle.{
  ClientTrafficConfig, weekly, current_client_cycle_start, next_client_reset_at,
  normalize_client_traffic_config,
}
use vps_panel.ClientTraffic.Store.{
  ClientRow, ClientTrafficReport, Db, MetricsRow, next_metrics, record_all,
  record_client_traffic_tx, record_one, update_lifecycle, valid_reports,
}
use vps_panel.ClientTraffic.Recording.{FitsCycle, record_client_traffic_tx-FitsCycle}

abbrev now : ℕ
now = 63840888000

-- Wednesday 2024-01-10 06:00 and Wednesday 2024-01-17 06:00
abbrev wednesday : ℕ
wednesday = 63840434400

abbrev next_wednesday : ℕ
next_wednesday = 63841039200

cycle : current_client_cycle_start now weekly (pos 3) (pos 0) (codes "06:00") ≡ ok wednesday
unfolding current_client_cycle_start normalize_client_traffic_config trim_space is_clock month_of
    date
cycle = refl

next_cycle :
    next_client_reset_at now weekly (pos 3) (pos 0) (codes "06:00") ≡ ok (some next_wednesday)
unfolding next_client_reset_at current_client_cycle_start normalize_client_traffic_config trim_space
    is_clock month_of date
next_cycle = refl

-- The day, which the weekly mode does not use, becomes 1.
abbrev every_wednesday : ClientTrafficConfig
every_wednesday = record {
  limit = none;
  mode = weekly;
  weekday = pos 3;
  day = pos 1;
  reset_time = codes "06:00";
}

abbrev traffic : ClientMetrics
traffic = record { cycle_uplink = 900; cycle_downlink = 50 }

abbrev client : Client
client = record {
  enabled = true;
  expires_at = none;
  traffic_limit = some 1000;
  metrics = some traffic;
}

abbrev row : ClientRow
row = record {
  id = 7;
  server_id = 4;
  managed = false;
  enabled = true;
  expires_at = none;
  traffic_limit = some 1000;
  effective = true;
  mode = weekly;
  weekday = pos 3;
  day = pos 1;
  reset_time = codes "06:00";
}

abbrev metrics : MetricsRow
metrics = record {
  client_id = 7;
  xray_uplink = 5000;
  xray_downlink = 100;
  cycle_uplink = 900;
  cycle_downlink = 50;
  cycle_started_at = wednesday;
  last_activity_at = none;
  updated_at = wednesday;
}

abbrev db : Db
db = record {
  clients = row ∷ [];
  metrics = metrics ∷ [];
  servers = record { id = 4; archived = false; decommissioning = false; version = 1 } ∷ [];
  agents = [];
}

-- 40 more bytes up and 20 down use the quota up.
abbrev report : ClientTrafficReport
report = record { client_id = pos 7; uplink = pos 5040; downlink = pos 120 }

abbrev after : Db
after = record db {
  clients = record row { effective = false } ∷ [];
  metrics =
      record metrics {
        xray_uplink = 5040;
        xray_downlink = 120;
        cycle_uplink = 940;
        cycle_downlink = 70;
        last_activity_at = some now;
        updated_at = now;
      }
      ∷ [];
}

record_client_traffic_tx-FitsCycle_example : All FitsCycle after.metrics
unfolding record_client_traffic_tx record_all record_one next_metrics update_lifecycle valid_reports
    find_first upsert update_where lifecycle_at current_client_cycle_start
    normalize_client_traffic_config trim_space is_clock month_of date
record_client_traffic_tx-FitsCycle_example =
    record_client_traffic_tx-FitsCycle db (pos 4) now (report ∷ []) (after, true) (omega arith)
      (omega arith) refl
