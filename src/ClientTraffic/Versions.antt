-- ===== src/ClientTraffic/Versions.antt =====
-- panel/internal/proxy: the operations that end in a new version of a server's desired state:
-- bumpVersion of desired.go, and the reports, resets and reconciliation of traffic.go.
use vps_panel.Prelude.{
  ℕ, ◌+◌, Bool, true, false, ◌&&◌, ◌||◌, not, Option, none, some, List, [], ◌∷◌, ltb, ◌==◌,
  if◌then◌else◌, Result, ok, err, ◌>>=◌, any, find_first,
}
use vps_panel.Prelude.Int.{ℤ, pos_part}
use vps_panel.Prelude.Tables.{update_where, count_where}
use vps_panel.ClientTraffic.{
  Error, client_not_found, subscription_managed_client, server_not_found, server_decommissioning,
  lifecycle_at,
}
use vps_panel.ClientTraffic.Cycle.{is_never, current_client_cycle_start}
use vps_panel.ClientTraffic.Store.{
  ClientRow, ClientTrafficReport, Db, MetricsRow, Mutation, ServerRow, client_of, bool_eq, is_live,
  metrics_of, record_client_traffic_tx, row_of, update_lifecycle,
}

abbrev pub is_mutable : ℕ → ServerRow → Bool
is_mutable id s = s.id == id && not s.archived && not s.decommissioning

abbrev version_of : Option ServerRow → ℕ
version_of none = 0
version_of (some s) = s.version

unfoldable pub bump_version : Db → ℕ → Result Error (Db × ℕ)
bump_version db id =
    let servers =
      update_where (is_mutable id) (λ s. record s { version = s.version + 1 }) db.servers in
    let agents =
      update_where (λ a. a.server_id == id) (λ a. record a { sync_pending = true }) db.agents in
    if not (count_where (is_mutable id) db.servers == 1)
    then (if any (λ s. s.id == id && not s.archived && s.decommissioning) db.servers
        then err server_decommissioning
        else err server_not_found)
    else ok (
      record db { servers = servers; agents = agents },
      version_of (find_first (λ s. s.id == id) servers),
    )

-- A change of the lifecycle gives the server a new version; otherwise there is no mutation.
abbrev pub bump_if : ℕ → Db × Bool → Result Error (Db × Option Mutation)
bump_if id (db, changed) =
    if changed
    then (bump_version db id >>= λ (next, version).
        ok (next, some (record { server_id = id; version = version })))
    else ok (db, none)

-- RecordClientTrafficWithMutation
unfoldable pub record_client_traffic :
    Db → ℤ → List ClientTrafficReport → ℕ → Result Error (Db × Option Mutation)
record_client_traffic db server reports now =
    record_client_traffic_tx db server reports now >>= bump_if (pos_part server)

-- ResetClientTrafficWithMutation
unfoldable pub reset_client_traffic : Db → ℕ → ℕ → Result Error (Db × Option Mutation)
reset_client_traffic db id now =
    elim (find_first (λ c. c.id == id && is_live c.server_id db.servers) db.clients) [
      | none ↦ err client_not_found
      | some c ↦
          if any (λ s. s.id == c.server_id && s.decommissioning) db.servers
          then err server_decommissioning
          else if c.managed
          then err subscription_managed_client
          else let cleared = record db {
            metrics =
                update_where (metrics_of id)
                  (λ m. record m {
                    cycle_uplink = 0;
                    cycle_downlink = 0;
                    cycle_started_at = now;
                    updated_at = now;
                  })
                  db.metrics;
          } in
            bump_if c.server_id (update_lifecycle cleared c now 0 0)
    ]

-- What the reconciliation decides for a client: its new state, and a reset of its cycle.
pub record LifecycleUpdate : Type 0 where
  pub id : ℕ
  pub effective : Bool
  pub effective_changed : Bool
  pub cycle_start : Option ℕ

abbrev cycle_reset : ClientRow → Option MetricsRow → ℕ → Result Error (Option ℕ)
cycle_reset c none now = ok none
cycle_reset c (some m) now =
    if is_never c.mode
    then ok none
    else (current_client_cycle_start now c.mode c.weekday c.day c.reset_time >>= λ start.
        ok (if ltb m.cycle_started_at start then some start else none))

abbrev used_in_cycle : Option MetricsRow → Option ℕ → ℕ × ℕ
used_in_cycle none reset = (0, 0)
used_in_cycle (some m) none = (m.cycle_uplink, m.cycle_downlink)
used_in_cycle (some m) (some start) = (0, 0)

unfoldable pub lifecycle_update : ClientRow → Option MetricsRow → ℕ → Result Error LifecycleUpdate
lifecycle_update c m now = cycle_reset c m now >>= λ reset.
    let used = used_in_cycle m reset in
    let next = (lifecycle_at (client_of c used.0 used.1) now).effective_enabled in
    ok (record {
      id = c.id;
      effective = next;
      effective_changed = not (bool_eq next c.effective);
      cycle_start = reset;
    })

abbrev pub is_reconciled : Db → ℕ → ClientRow → Bool
is_reconciled db server c = c.server_id == server && is_live server db.servers && not c.managed

-- The loop over the rows of the query. An update that changes nothing is kept here, since applying it
-- does nothing.
unfoldable pub lifecycle_updates : Db → ℕ → List ClientRow → ℕ → Result Error (List LifecycleUpdate)
lifecycle_updates db server [] now = ok []
lifecycle_updates db server (c ∷ cs) now =
    let rest = lifecycle_updates db server cs now in
    if is_reconciled db server c
    then (lifecycle_update c (find_first (metrics_of c.id) db.metrics) now >>= λ u.
        rest >>= λ us. ok (u ∷ us))
    else rest

unfoldable pub apply_update : ℕ → Db → LifecycleUpdate → Db
apply_update now db u = record db {
  metrics = elim u.cycle_start [
    | none ↦ db.metrics
    | some start ↦
        update_where (metrics_of u.id)
          (λ m. record m {
            cycle_uplink = 0;
            cycle_downlink = 0;
            cycle_started_at = start;
            updated_at = now;
          })
          db.metrics
  ];
  clients =
      if u.effective_changed
      then update_where (row_of u.id) (λ c. record c { effective = u.effective }) db.clients
      else db.clients;
}

unfoldable pub apply_updates : ℕ → Db → List LifecycleUpdate → Db × Bool
unfolding apply_update
apply_updates now db [] = (db, false)
apply_updates now db (u ∷ us) =
    let (after, changed) = apply_updates now (apply_update now db u) us in
    (after, u.effective_changed || changed)

-- ReconcileClientLifecycleStateTx, and with the new version ReconcileClientLifecycle
unfoldable pub reconcile_client_lifecycle_state : Db → ℕ → ℕ → Result Error (Db × Bool)
reconcile_client_lifecycle_state db server now =
    lifecycle_updates db server db.clients now >>= λ us. ok (apply_updates now db us)

unfoldable pub reconcile_client_lifecycle : Db → ℕ → ℕ → Result Error (Db × Option Mutation)
reconcile_client_lifecycle db server now =
    reconcile_client_lifecycle_state db server now >>= bump_if server
