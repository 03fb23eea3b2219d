-- ===== src/ClientTraffic/Recording.antt =====
-- panel/internal/proxy/traffic.go: what reports keep, and what the snapshot of a client's state says.
use vps_panel.Prelude.{
  ℕ, ◌+◌, ◌≤◌, ◌≡◌, refl, subst, Bool, true, false, not, arith, Option, none, some, List, [], ◌∷◌,
  All, ok, >>=-eq-ok, find_first, Bool-cases, Option-cases, inl, inr, ◌||◌, if◌then◌else◌, ltb,
  ◌&&◌,
}
use vps_panel.Prelude.Int.{ℤ, pos_part, pos, leb_ℤ, max_int64}
use vps_panel.Prelude.Tables.{upsert, All-upsert, find_first-update_where}
use vps_panel.ClientTraffic.{counter_delta, lifecycle_at}
use vps_panel.ClientTraffic.Cycle.{current_client_cycle_start, is_never}
use vps_panel.ClientTraffic.Store.{
  ClientRow, ClientTrafficReport, Db, MetricsRow, bool_eq, client_of, metrics_of, next_metrics,
  on_server, record_all, record_client_traffic_tx, record_one, row_of, update_lifecycle,
  valid_reports, started, within_cycle,
}

-- Traffic whose two directions sum within an int64, so that the sum of a client never saturates.
abbrev pub FitsCycle : MetricsRow → Type 0
FitsCycle m = m.cycle_uplink + m.cycle_downlink ≤ max_int64

within_cycle-FitsCycle :
    (m next : MetricsRow) (up down now : ℕ)
    → up ≤ max_int64
    → down ≤ max_int64
    → within_cycle m up down now ≡ ok next
    → FitsCycle next
unfolding counter_delta
within_cycle-FitsCycle m next up down now p q e = ground arith

next_metrics-FitsCycle :
    (c : ClientRow) (old : Option MetricsRow) (next : MetricsRow) (up down now : ℕ)
    → up ≤ max_int64
    → down ≤ max_int64
    → next_metrics c old up down now ≡ ok next
    → FitsCycle next
unfolding next_metrics
next_metrics-FitsCycle c none next up down now p q e = ground arith
next_metrics-FitsCycle c (some m) next up down now p q e =
    let (start, found, f) =
      >>=-eq-ok (current_client_cycle_start now c.mode c.weekday c.day c.reset_time)
        (λ start.
          if not (is_never c.mode) && ltb m.cycle_started_at start
          then ok (started c up down start m.last_activity_at now)
          else within_cycle m up down now)
        e in
    elim (Bool-cases (not (is_never c.mode) && ltb m.cycle_started_at start)) [
      | inl due ↦
          let same : started c up down start m.last_activity_at now ≡ next = cc (rw due at f) in
          subst FitsCycle same (omega arith)
      | inr current ↦ within_cycle-FitsCycle m next up down now p q (rw current at f)
    ]

metrics-update_lifecycle :
    (db : Db) (c : ClientRow) (now up down : ℕ)
    → (update_lifecycle db c now up down).0.metrics ≡ db.metrics
unfolding update_lifecycle
metrics-update_lifecycle db c now up down = ground arith

bool_eq_sound : (a b : Bool) → bool_eq a b ≡ true → a ≡ b
bool_eq_sound a b e = ground arith

-- Where the client's row stands in the table, the row afterwards holds the state that the lifecycle
-- gives for the traffic, and a change is reported exactly if the row held another state.
pub effective-update_lifecycle :
    (db : Db) (c : ClientRow) (now up down : ℕ)
    → find_first (row_of c.id) db.clients ≡ some c
    → let next = (lifecycle_at (client_of c up down) now).effective_enabled in
      (find_first (row_of c.id) (update_lifecycle db c now up down).0.clients
        ≡ some (record c { effective = next }))
      × ((update_lifecycle db c now up down).1 ≡ not (bool_eq next c.effective))
unfolding update_lifecycle
effective-update_lifecycle db c now up down found =
    let next = (lifecycle_at (client_of c up down) now).effective_enabled in
    elim (Bool-cases (bool_eq next c.effective)) [
      | inl same ↦
          let e : record c { effective = next } ≡ c =
            ground (arith, bool_eq_sound next c.effective) in
          rw (same, e) (found, refl)
      | inr changed ↦ rw changed (
        find_first-update_where (row_of c.id) (λ r. record r { effective = next }) (λ x p. p)
            db.clients found,
        refl,
      )
    ]

-- Reports whose bytes an int64 can hold.
abbrev pub FitsReport : ClientTrafficReport → Type 0
FitsReport r = (pos_part r.uplink ≤ max_int64) × (pos_part r.downlink ≤ max_int64)

record_one-FitsCycle :
    (db : Db) (server now : ℕ) (r : ClientTrafficReport) (next : Db × Bool)
    → FitsReport r
    → All FitsCycle db.metrics
    → record_one db server r now ≡ ok next
    → All FitsCycle next.0.metrics
unfolding record_one
record_one-FitsCycle db server now r next f h e =
    let id = pos_part r.client_id in
    elim (Option-cases (find_first (on_server db server id) db.clients)) [
      | inl missing ↦ cc (rw (missing, record_one) at e)
      | inr (c, found) ↦
          let old = find_first (metrics_of id) db.metrics in
          let saved = λ (m : MetricsRow). record db {
            metrics = upsert (metrics_of id) (λ _. m) m db.metrics;
          } in
          let (m, step, done) =
            >>=-eq-ok (next_metrics c old (pos_part r.uplink) (pos_part r.downlink) now)
              (λ m. ok (update_lifecycle (saved m) c now m.cycle_uplink m.cycle_downlink))
              (rw (found, record_one) at e) in
          let fits =
            next_metrics-FitsCycle c old m (pos_part r.uplink) (pos_part r.downlink) now f.0 f.1
              step in
          let same : update_lifecycle (saved m) c now m.cycle_uplink m.cycle_downlink ≡ next = cc in
          subst (λ (d : Db × Bool). All FitsCycle d.0.metrics) same
            (rw (metrics-update_lifecycle (saved m) c now m.cycle_uplink m.cycle_downlink)
              (All-upsert FitsCycle (metrics_of id) (λ _. m) m (λ _ _. fits) fits db.metrics h))
    ]

record_all-FitsCycle :
    (db : Db) (server now : ℕ) (rs : List ClientTrafficReport) (changed : Bool) (next : Db × Bool)
    → All FitsReport rs
    → All FitsCycle db.metrics
    → record_all db server rs now changed ≡ ok next
    → All FitsCycle next.0.metrics
unfolding record_all
record_all-FitsCycle db server now [] changed next f h e =
    let same : ◌≡◌ {A = Db × Bool} (db, changed) next = cc in
    subst (λ (d : Db × Bool). All FitsCycle d.0.metrics) same h
record_all-FitsCycle db server now (r ∷ rs) changed next f h e =
    let ((after, again), step, more) =
      >>=-eq-ok (record_one db server r now) (λ d. record_all d.0 server rs now (changed || d.1))
        e in
    record_all-FitsCycle after server now rs (changed || again) next f.1
      (record_one-FitsCycle db server now r (after, again) f.0 h step) more

-- On a table where no client's traffic of a cycle sums past an int64, no batch of int64 reports
-- that is accepted takes one past it.
pub record_client_traffic_tx-FitsCycle :
    (db : Db) (server : ℤ) (now : ℕ) (rs : List ClientTrafficReport) (next : Db × Bool)
    → All FitsReport rs
    → All FitsCycle db.metrics
    → record_client_traffic_tx db server rs now ≡ ok next
    → All FitsCycle next.0.metrics
unfolding record_client_traffic_tx
record_client_traffic_tx-FitsCycle db server now rs next f h e =
    elim (Bool-cases (leb_ℤ server (pos 0))) [
      | inl bad ↦ cc (rw bad at e)
      | inr good ↦ elim (Bool-cases (valid_reports [] rs)) [
        | inr bad ↦ cc (rw (good, bad) at e)
        | inl valid ↦
            record_all-FitsCycle db (pos_part server) now rs false next f h (rw (good, valid) at e)
      ]
    ]
