-- ===== src/ServerTraffic/Tests.antt =====
-- The theorems on server traffic at concrete inputs. Instants are local: the noon of 2024-01-15 and
-- of 2024-01-20 in Asia/Shanghai.
use vps_panel.Prelude.{
  ℕ, ◌≤◌, ◌≡◌, refl, arith, Bool, true, false, some, List, [], ◌∷◌, All, ok, find_first, leb,
}
use vps_panel.Prelude.Int.{pos, negsuc}
use vps_panel.Prelude.Text.{codes}
use vps_panel.Prelude.Tables.{upsert}
use vps_panel.Calendar.{in_zone, to_utc, local_month, month_of, date}
use vps_panel.Calendar.Boundary.{IsLastBoundary}
use vps_panel.Calendar.Clock.{format_clock, clock_seconds}
use vps_panel.ServerTraffic.{
  Db, Metrics, Server, bidirectional, has_server, traffic_cycle_start, traffic_used_bytes,
  update_traffic_adjustment,
}
use vps_panel.ServerTraffic.Cycle.{traffic_cycle_start-IsLastBoundary}
use vps_panel.ServerTraffic.Usage.{traffic_used_bytes-update_traffic_adjustment}
use vps_panel.ServerTraffic.Report.{Agent, Counters, MetricsReport, Row, report_metrics}
use vps_panel.ServerTraffic.Counters.{
  FitsRow, report_metrics-FitsRow, run_reports, run_reports_total,
}

abbrev noon_15 : ℕ
noon_15 = 63840888000

abbrev noon_20 : ℕ
noon_20 = 63841320000

abbrev previous_cycle : ℕ
previous_cycle = 63838456200

cycle_from_the_18th : traffic_cycle_start noon_15 18 (codes "08:30") ≡ ok previous_cycle
unfolding traffic_cycle_start month_of date
cycle_from_the_18th = refl

is_late : (2 ≤ local_month (in_zone noon_15)) × (2 ≤ local_month (in_zone noon_20))
unfolding month_of
is_late = omega arith

traffic_cycle_start-IsLastBoundary_example :
    (b : ℕ) × (traffic_cycle_start noon_15 18 (format_clock 8 30) ≡ ok (to_utc b))
    × IsLastBoundary 18 (clock_seconds (8, 30)) (in_zone noon_15) b
traffic_cycle_start-IsLastBoundary_example =
    traffic_cycle_start-IsLastBoundary noon_15 18 (8, 30) (omega arith) (omega arith) (omega arith)
      (omega arith) (omega (arith, is_late))

abbrev this_cycle : ℕ
this_cycle = 63841134600

cycle_in_the_month : traffic_cycle_start noon_20 18 (codes "08:30") ≡ ok this_cycle
unfolding traffic_cycle_start month_of date
cycle_in_the_month = refl

abbrev row : Metrics
row = record {
  server_id = 4;
  nic_rx = 900;
  nic_tx = 700;
  cycle_rx = 300;
  cycle_tx = 200;
  adjustment = negsuc 99;
  cycle_started_at = some previous_cycle;
  updated_at = noon_15;
}

abbrev server : Server
server = record {
  id = 4;
  archived = false;
  monthly_limit = some 1000;
  count_mode = bidirectional;
  reset_day = 18;
  reset_time = codes "08:30";
  updated_at = 0;
}

abbrev db : Db
db = record { servers = server ∷ []; metrics = row ∷ [] }

abbrev corrected_db : Db
corrected_db = record db { metrics = record row { adjustment = pos 50 } ∷ [] }

traffic_used_bytes-update_traffic_adjustment_example :
    traffic_used_bytes bidirectional (find_first (has_server 4) corrected_db.metrics) ≡ pos 550
unfolding find_first update_traffic_adjustment upsert
traffic_used_bytes-update_traffic_adjustment_example =
    traffic_used_bytes-update_traffic_adjustment db corrected_db 4 550 noon_15 server refl
      (omega arith) (omega arith) refl

abbrev counters : Counters
counters = record {
  nic_rx = 900;
  nic_tx = 700;
  cycle_rx = 300;
  cycle_tx = 200;
  adjustment = pos 0;
  cycle_start = some previous_cycle;
}

abbrev reports : List (ℕ × ℕ)
reports = (950, 700) ∷ (1000, 900) ∷ []

run_reports_total_example :
    (after : Counters) × (run_reports counters previous_cycle reports ≡ ok after)
    × (after.cycle_rx ≡ 400)
    × (after.cycle_tx ≡ 400)
    × (after.adjustment ≡ pos 0)
    × (after.cycle_start ≡ some previous_cycle)
run_reports_total_example =
    run_reports_total counters previous_cycle previous_cycle reports refl (omega arith)
      (omega arith) (omega arith) (omega arith)

abbrev report : MetricsReport ℕ
report = record {
  gauges = record {
    cpu_percent = 12;
    memory_used = pos 1;
    memory_total = pos 2;
    disk_used = pos 1;
    disk_total = pos 2;
    uptime_seconds = pos 60;
  };
  has_network_usage = true;
  nic_rx = pos 950;
  nic_tx = pos 700;
}

abbrev agent : Agent
agent = record { id = 9; server_id = 4; reset_day = 18; reset_time = codes "08:30" }

abbrev stored : Row ℕ
stored = record { metrics = row; gauges = report.gauges }

abbrev reported : Row ℕ
reported = record {
  metrics = record row { nic_rx = 950; cycle_rx = 350; updated_at = noon_15 };
  gauges = report.gauges;
}

in_percent : ℕ → Bool
in_percent n = leb n 100

report_metrics-FitsRow_example : All (FitsRow in_percent) (reported ∷ [])
unfolding report_metrics find_first upsert traffic_cycle_start month_of date in_percent
report_metrics-FitsRow_example =
    report_metrics-FitsRow in_percent (agent ∷ []) (stored ∷ []) (reported ∷ []) 9 4 report noon_15
      (omega arith) (omega arith) (omega arith) refl
