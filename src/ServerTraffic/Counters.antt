-- ===== src/ServerTraffic/Counters.antt =====
-- panel/internal/server/metrics.go: what a run of reports does to the counters of a cycle.
use vps_panel.Prelude.{
  ℕ, ◌+◌, ◌-◌, ◌≤◌, ◌≡◌, refl, subst, Bool, arith, some, List, [], ◌∷◌, Result, ok, ◌>>=◌, All,
  find_first, inl, inr, Option-cases, Bool-cases, >>=-eq-ok, ◌==◌, ◌&&◌,
}
use vps_panel.Prelude.Int.{pos_part, max_int64}
use vps_panel.Prelude.Tables.{upsert, All-find_first, All-upsert}
use vps_panel.ServerTraffic.{Error, traffic_cycle_start}
use vps_panel.ServerTraffic.Report.{
  Agent, Counters, MetricsReport, Row, next_counters, stored_counters, is_valid_report,
  report_metrics, counted, row_of, is_row_of,
}

-- The counters of successive reports, and the last of them.
abbrev pub Ascending : ℕ → ℕ → List (ℕ × ℕ) → Type 0
Ascending rx tx [] = Unit {0}
Ascending rx tx ((r, t) ∷ reports) = (rx ≤ r) × (tx ≤ t) × Ascending r t reports

abbrev pub last_of : ℕ → ℕ → List (ℕ × ℕ) → ℕ × ℕ
last_of rx tx [] = (rx, tx)
last_of rx tx ((r, t) ∷ reports) = last_of r t reports

last_of_ge :
    (rx tx : ℕ) (reports : List (ℕ × ℕ))
    → Ascending rx tx reports
    → (rx ≤ (last_of rx tx reports).0) × (tx ≤ (last_of rx tx reports).1)
last_of_ge rx tx [] h = omega arith
last_of_ge rx tx ((r, t) ∷ reports) h = omega (arith, last_of_ge r t reports h.2)

-- The reports of one cycle, one after the other.
pub run_reports : Counters → ℕ → List (ℕ × ℕ) → Result Error Counters
run_reports c start [] = ok c
run_reports c start ((r, t) ∷ reports) =
    next_counters c r t start >>= λ next. run_reports next start reports

-- When interface counters never fall over a series of reports in one cycle, which the row has
-- already begun, and the traffic they add fits an int64, every report succeeds, the traffic of
-- the cycle grows by exactly the growth of the counters, however many reports there were, and the
-- correction and the start of the cycle stay.
pub run_reports_total :
    (c : Counters) (stored start : ℕ) (reports : List (ℕ × ℕ))
    → c.cycle_start ≡ some stored
    → start ≤ stored
    → Ascending c.nic_rx c.nic_tx reports
    → c.cycle_rx + ((last_of c.nic_rx c.nic_tx reports).0 - c.nic_rx) ≤ max_int64
    → c.cycle_tx + ((last_of c.nic_rx c.nic_tx reports).1 - c.nic_tx) ≤ max_int64
    → (after : Counters) × (run_reports c start reports ≡ ok after)
      × (after.cycle_rx ≡ c.cycle_rx + ((last_of c.nic_rx c.nic_tx reports).0 - c.nic_rx))
      × (after.cycle_tx ≡ c.cycle_tx + ((last_of c.nic_rx c.nic_tx reports).1 - c.nic_tx))
      × (after.adjustment ≡ c.adjustment)
      × (after.cycle_start ≡ some stored)
unfolding run_reports next_counters
run_reports_total c stored start [] e le h p q = (c, refl, omega arith, omega arith, refl, e)
run_reports_total c stored start ((r, t) ∷ reports) e le h p q =
    let next = record c {
      nic_rx = r;
      nic_tx = t;
      cycle_rx = c.cycle_rx + (r - c.nic_rx);
      cycle_tx = c.cycle_tx + (t - c.nic_tx);
      cycle_start = some stored;
    } in
    let (ge_rx, ge_tx) = last_of_ge r t reports h.2 in
    let step : next_counters c r t start ≡ ok next = ground arith in
    let (after, done, rx, tx, a, s) =
      run_reports_total next stored start reports refl le h.2 (omega arith) (omega arith) in
    (after, rw step done, omega (arith, rx), omega (arith, tx), a, s)

-- Counters within the range of an int64.
abbrev pub FitsCounters : Counters → Type 0
FitsCounters c = (c.cycle_rx ≤ max_int64) × (c.cycle_tx ≤ max_int64)

next_counters-FitsCounters :
    (c next : Counters) (rx tx start : ℕ)
    → rx ≤ max_int64
    → tx ≤ max_int64
    → FitsCounters c
    → next_counters c rx tx start ≡ ok next
    → FitsCounters next
unfolding next_counters
next_counters-FitsCounters c next rx tx start p q h e = ground arith

module _ {Percent : Type 0} (in_range : Percent → Bool) where
  abbrev pub FitsRow : Row Percent → Type 0
  FitsRow r = (r.cycle_rx ≤ max_int64) × (r.cycle_tx ≤ max_int64)

  counted-FitsCounters :
      (c next : Counters) (agent : Agent) (report : MetricsReport Percent) (now : ℕ)
      → pos_part report.nic_rx ≤ max_int64
      → pos_part report.nic_tx ≤ max_int64
      → FitsCounters c
      → counted in_range c agent report now ≡ ok next
      → FitsCounters next
  counted-FitsCounters c next agent report now p q h e =
      elim (Bool-cases report.has_network_usage) [
        | inl network ↦
            let (start, found, f) =
              >>=-eq-ok (traffic_cycle_start now agent.reset_day agent.reset_time)
                (next_counters c (pos_part report.nic_rx) (pos_part report.nic_tx))
                (rw network at e) in
            next_counters-FitsCounters c next (pos_part report.nic_rx) (pos_part report.nic_tx)
              start p q h f
        | inr silent ↦ ground arith
      ]

  stored_fits :
      (rows : List (Row Percent)) (id : ℕ)
      → All FitsRow rows
      → FitsCounters (stored_counters (find_first (is_row_of in_range id) rows))
  stored_fits rows id h = elim (Option-cases (find_first (is_row_of in_range id) rows)) [
    | inl missing ↦ rw missing (omega arith)
    | inr (r, found) ↦ rw found (All-find_first FitsRow (is_row_of in_range id) rows found h)
  ]

  -- On a table whose counters are int64, no accepted report whose interface counters are int64
  -- takes a counter out of that range.
  pub report_metrics-FitsRow :
      (agents : List Agent) (rows after : List (Row Percent)) (agent_id server_id : ℕ)
      (report : MetricsReport Percent) (now : ℕ)
      → pos_part report.nic_rx ≤ max_int64
      → pos_part report.nic_tx ≤ max_int64
      → All FitsRow rows
      → report_metrics in_range agents rows agent_id server_id report now ≡ ok after
      → All FitsRow after
  unfolding report_metrics
  report_metrics-FitsRow agents rows after agent_id server_id report now p q h e =
      let mine = λ (a : Agent). a.id == agent_id && a.server_id == server_id in
      elim (Bool-cases (is_valid_report in_range report)) [
        | inr bad ↦ cc (rw (bad, report_metrics) at e)
        | inl good ↦ elim (Option-cases (find_first mine agents)) [
          | inl missing ↦ cc (rw (good, missing, report_metrics) at e)
          | inr (agent, found) ↦
              let c = stored_counters (find_first (is_row_of in_range server_id) rows) in
              let (next, counts, done) =
                >>=-eq-ok (counted in_range c agent report now)
                  (λ next. ok (
                    upsert (is_row_of in_range server_id)
                      (λ _. row_of in_range server_id next report.gauges now)
                      (row_of in_range server_id next report.gauges now) rows))
                  (rw (good, found, report_metrics) at e) in
              let row = row_of in_range server_id next report.gauges now in
              let same : upsert (is_row_of in_range server_id) (λ _. row) row rows ≡ after = cc in
              let fits =
                counted-FitsCounters c next agent report now p q (stored_fits rows server_id h)
                  counts in
              subst (All FitsRow) same (
                All-upsert FitsRow (is_row_of in_range server_id) (λ _. row) row (λ _ _. fits) fits
                  rows h)
        ]
      ]
