-- ===== src/ServerTraffic/Report.antt =====
-- panel/internal/server/metrics.go: a report of an Agent, and the traffic counters of the cycle that
-- it updates. The percentage of CPU is a float: its type and the test of its range (not NaN, not
-- infinite, 0 to 100) are parameters.
use vps_panel.Prelude.{
  ℕ, ◌+◌, ◌-◌, Bool, ◌||◌, not, Option, none, some, List, ltb, ◌==◌, ◌&&◌, if◌then◌else◌,
  find_first, Result, ok, err, ◌>>=◌,
}
use vps_panel.Prelude.Int.{ℤ, pos, pos_part, ltb_ℤ, max_int64}
use vps_panel.Prelude.Text.{Text}
use vps_panel.Prelude.Tables.{upsert}
use vps_panel.ServerTraffic.{
  Metrics, Error, invalid_metrics, invalid_agent_token, traffic_delta, traffic_cycle_start,
}

-- The row of `server_metrics` without and with the gauges of the last report.
pub record Gauges (Percent : Type 0) : Type 0 where
  pub cpu_percent : Percent
  pub memory_used : ℤ
  pub memory_total : ℤ
  pub disk_used : ℤ
  pub disk_total : ℤ
  pub uptime_seconds : ℤ

pub record MetricsReport (Percent : Type 0) : Type 0 where
  pub gauges : Gauges Percent
  pub open gauges use *
  pub has_network_usage : Bool
  pub nic_rx : ℤ
  pub nic_tx : ℤ

-- `agents JOIN servers`, with what the report reads of the server.
pub record Agent : Type 0 where
  pub id : ℕ
  pub server_id : ℕ
  pub reset_day : ℕ
  pub reset_time : Text

pub record Row (Percent : Type 0) : Type 0 where
  pub metrics : Metrics
  pub open metrics use *
  pub gauges : Gauges Percent

-- The counters that a report reads and writes.
pub record Counters : Type 0 where
  pub nic_rx : ℕ
  pub nic_tx : ℕ
  pub cycle_rx : ℕ
  pub cycle_tx : ℕ
  pub adjustment : ℤ
  pub cycle_start : Option ℕ

abbrev pub stored_counters : {Percent : Type 0} → Option (Row Percent) → Counters
stored_counters none = record {
  nic_rx = 0;
  nic_tx = 0;
  cycle_rx = 0;
  cycle_tx = 0;
  adjustment = pos 0;
  cycle_start = none;
}
stored_counters (some r) = record {
  nic_rx = r.nic_rx;
  nic_tx = r.nic_tx;
  cycle_rx = r.cycle_rx;
  cycle_tx = r.cycle_tx;
  adjustment = r.adjustment;
  cycle_start = r.cycle_started_at;
}

-- The switch on the stored cycle: no cycle yet, one that has ended, or the current one.
unfoldable pub next_counters : Counters → ℕ → ℕ → ℕ → Result Error Counters
unfolding traffic_delta
next_counters c rx tx start = elim c.cycle_start [
  | none ↦
      ok (record c {
        nic_rx = rx;
        nic_tx = tx;
        cycle_rx = 0;
        cycle_tx = 0;
        cycle_start = some start;
      })
  | some stored ↦
      if ltb stored start
      then ok (record {
        nic_rx = rx;
        nic_tx = tx;
        cycle_rx = 0;
        cycle_tx = 0;
        adjustment = pos 0;
        cycle_start = some start;
      })
      else let delta_rx = traffic_delta rx c.nic_rx in
        let delta_tx = traffic_delta tx c.nic_tx in
        if ltb (max_int64 - delta_rx) c.cycle_rx || ltb (max_int64 - delta_tx) c.cycle_tx
        then err invalid_metrics
        else ok (record c {
          nic_rx = rx;
          nic_tx = tx;
          cycle_rx = c.cycle_rx + delta_rx;
          cycle_tx = c.cycle_tx + delta_tx;
          cycle_start = some stored;
        })
]

module _ {Percent : Type 0} (in_range : Percent → Bool) where
  unfoldable pub is_valid_report : MetricsReport Percent → Bool
  is_valid_report r = not (
      not (in_range r.cpu_percent)
      || ltb_ℤ r.memory_used (pos 0)
      || ltb_ℤ r.memory_total (pos 0)
      || ltb_ℤ r.memory_total r.memory_used
      || ltb_ℤ r.disk_used (pos 0)
      || ltb_ℤ r.disk_total (pos 0)
      || ltb_ℤ r.disk_total r.disk_used
      || ltb_ℤ r.uptime_seconds (pos 0)
      || ltb_ℤ r.nic_rx (pos 0)
      || ltb_ℤ r.nic_tx (pos 0))

  abbrev pub is_row_of : ℕ → Row Percent → Bool
  is_row_of id r = r.server_id == id

  abbrev pub counted : Counters → Agent → MetricsReport Percent → ℕ → Result Error Counters
  counted c agent report now =
      if report.has_network_usage
      then (traffic_cycle_start now agent.reset_day agent.reset_time
          >>= next_counters c (pos_part report.nic_rx) (pos_part report.nic_tx))
      else ok c

  abbrev pub row_of : ℕ → Counters → Gauges Percent → ℕ → Row Percent
  row_of server_id c gauges now = record {
    metrics = record {
      server_id = server_id;
      nic_rx = c.nic_rx;
      nic_tx = c.nic_tx;
      cycle_rx = c.cycle_rx;
      cycle_tx = c.cycle_tx;
      adjustment = c.adjustment;
      cycle_started_at = c.cycle_start;
      updated_at = now;
    };
    gauges = gauges;
  }

  unfoldable pub report_metrics :
      List Agent
      → List (Row Percent)
      → ℕ
      → ℕ
      → MetricsReport Percent
      → ℕ
      → Result Error (List (Row Percent))
  unfolding is_valid_report next_counters
  report_metrics agents rows agent_id server_id report now =
      if not (is_valid_report report)
      then err invalid_metrics
      else elim (find_first (λ (a : Agent). a.id == agent_id && a.server_id == server_id) agents) [
        | none ↦ err invalid_agent_token
        | some agent ↦ (do
          let stored = stored_counters (find_first (is_row_of server_id) rows)
          c ← counted stored agent report now
          let row = row_of server_id c report.gauges now
          ok (upsert (is_row_of server_id) (λ _. row) row rows))
      ]
