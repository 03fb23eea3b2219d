-- ===== src/ClientTraffic/Store.antt =====
-- panel/internal/proxy/traffic.go and bumpVersion of panel/internal/proxy/desired.go: the tables, and
-- the operations that report, reset and reconcile traffic. A client row holds what the queries join
-- to it: its proxy's server, and whether a subscription manages it. An operation that fails changes
-- nothing, since its transaction is rolled back. Identifiers and bytes of a report are signed.
use vps_panel.Prelude.{
  ℕ, ◌+◌, ◌-◌, Bool, true, false, ◌&&◌, ◌||◌, not, Option, none, some, List, [], ◌∷◌, ltb, ◌==◌,
  if◌then◌else◌, Result, ok, err, ◌>>=◌, any, find_first,
}
use vps_panel.Prelude.Int.{ℤ, pos, pos_part, ltb_ℤ, leb_ℤ, max_int64}
use vps_panel.Prelude.Text.{Text}
use vps_panel.Prelude.Tables.{update_where, upsert}
use vps_panel.ClientTraffic.{Client, Error, invalid_client_traffic, counter_delta, lifecycle_at}
use vps_panel.ClientTraffic.Cycle.{ResetMode, is_never, current_client_cycle_start}

pub record ClientRow : Type 0 where
  pub id : ℕ
  pub server_id : ℕ
  pub managed : Bool
  pub enabled : Bool
  pub expires_at : Option ℕ
  pub traffic_limit : Option ℕ
  pub effective : Bool
  pub mode : ResetMode
  pub weekday : ℤ
  pub day : ℤ
  pub reset_time : Text

pub record MetricsRow : Type 0 where
  pub client_id : ℕ
  pub xray_uplink : ℕ
  pub xray_downlink : ℕ
  pub cycle_uplink : ℕ
  pub cycle_downlink : ℕ
  pub cycle_started_at : ℕ
  pub last_activity_at : Option ℕ
  pub updated_at : ℕ

pub record ServerRow : Type 0 where
  pub id : ℕ
  pub archived : Bool
  pub decommissioning : Bool
  pub version : ℕ

pub record AgentRow : Type 0 where
  pub server_id : ℕ
  pub sync_pending : Bool

pub record Db : Type 0 where
  pub clients : List ClientRow
  pub metrics : List MetricsRow
  pub servers : List ServerRow
  pub agents : List AgentRow

pub record ClientTrafficReport : Type 0 where
  pub client_id : ℤ
  pub uplink : ℤ
  pub downlink : ℤ

-- The server that a change has to be sent to, with its new version.
pub record Mutation : Type 0 where
  pub server_id : ℕ
  pub version : ℕ

abbrev pub is_live : ℕ → List ServerRow → Bool
is_live id = any (λ s. s.id == id && not s.archived)

abbrev pub on_server : Db → ℕ → ℕ → ClientRow → Bool
on_server db server id c = c.id == id && c.server_id == server && is_live server db.servers

abbrev pub metrics_of : ℕ → MetricsRow → Bool
metrics_of id m = m.client_id == id

abbrev pub row_of : ℕ → ClientRow → Bool
row_of id c = c.id == id

-- The client of a row, with the traffic of its cycle. A limit of 0 is no limit.
abbrev pub client_of : ClientRow → ℕ → ℕ → Client
client_of c up down = record {
  enabled = c.enabled;
  expires_at = c.expires_at;
  traffic_limit = c.traffic_limit;
  metrics = some (record { cycle_uplink = up; cycle_downlink = down });
}

abbrev pub bool_eq : Bool → Bool → Bool
bool_eq true b = b
bool_eq false b = not b

-- updateLifecycle: the snapshot follows the lifecycle, and a change is reported.
unfoldable pub update_lifecycle : Db → ClientRow → ℕ → ℕ → ℕ → Db × Bool
update_lifecycle db c now up down =
    let next = (lifecycle_at (client_of c up down) now).effective_enabled in
    if bool_eq next c.effective then (db, false) else (
      record db {
        clients = update_where (row_of c.id) (λ r. record r { effective = next }) db.clients;
      },
      true,
    )

abbrev pub started : ClientRow → ℕ → ℕ → ℕ → Option ℕ → ℕ → MetricsRow
started c up down start activity now = record {
  client_id = c.id;
  xray_uplink = up;
  xray_downlink = down;
  cycle_uplink = 0;
  cycle_downlink = 0;
  cycle_started_at = start;
  last_activity_at = activity;
  updated_at = now;
}

abbrev pub within_cycle : MetricsRow → ℕ → ℕ → ℕ → Result Error MetricsRow
within_cycle m up down now =
    let delta_up = counter_delta m.xray_uplink up in
    let delta_down = counter_delta m.xray_downlink down in
    let new_up = m.cycle_uplink + delta_up in
    let new_down = m.cycle_downlink + delta_down in
    if ltb (max_int64 - delta_up) m.cycle_uplink || ltb (max_int64 - delta_down) m.cycle_downlink
    then err invalid_client_traffic
    else if ltb (max_int64 - new_down) new_up
    then err invalid_client_traffic
    else ok (record m {
      xray_uplink = up;
      xray_downlink = down;
      cycle_uplink = new_up;
      cycle_downlink = new_down;
      last_activity_at =
          if ltb 0 delta_up || ltb 0 delta_down then some now else m.last_activity_at;
      updated_at = now;
    })

-- The row of metrics after a report: a baseline, a new cycle, or more traffic in this one.
unfoldable pub next_metrics : ClientRow → Option MetricsRow → ℕ → ℕ → ℕ → Result Error MetricsRow
unfolding counter_delta
next_metrics c old up down now =
    current_client_cycle_start now c.mode c.weekday c.day c.reset_time >>= λ start. elim old [
      | none ↦ ok (started c up down start none now)
      | some m ↦
          if not (is_never c.mode) && ltb m.cycle_started_at start
          then ok (started c up down start m.last_activity_at now)
          else within_cycle m up down now
    ]

-- recordClientTraffic
unfoldable pub record_one : Db → ℕ → ClientTrafficReport → ℕ → Result Error (Db × Bool)
record_one db server report now =
    let id = pos_part report.client_id in
    elim (find_first (on_server db server id) db.clients) [
      | none ↦ err invalid_client_traffic
      | some c ↦
          next_metrics c (find_first (metrics_of id) db.metrics) (pos_part report.uplink)
            (pos_part report.downlink) now
          >>= λ m.
              let saved = record db { metrics = upsert (metrics_of id) (λ _. m) m db.metrics } in
              ok (update_lifecycle saved c now m.cycle_uplink m.cycle_downlink)
    ]

-- The loop that checks a batch: identifiers above 0, each once, and bytes of at least 0.
unfoldable pub valid_reports : List ℕ → List ClientTrafficReport → Bool
valid_reports seen [] = true
valid_reports seen (r ∷ rs) =
    let rest = valid_reports (pos_part r.client_id ∷ seen) rs in
    if leb_ℤ r.client_id (pos 0) || ltb_ℤ r.uplink (pos 0) || ltb_ℤ r.downlink (pos 0)
    then false
    else if any (λ id. id == pos_part r.client_id) seen
    then false
    else rest

unfoldable pub record_all : Db → ℕ → List ClientTrafficReport → ℕ → Bool → Result Error (Db × Bool)
record_all db server [] now changed = ok (db, changed)
record_all db server (r ∷ rs) now changed =
    record_one db server r now >>= λ (next, again). record_all next server rs now (changed || again)

-- RecordClientTrafficTx
unfoldable pub record_client_traffic_tx :
    Db → ℤ → List ClientTrafficReport → ℕ → Result Error (Db × Bool)
record_client_traffic_tx db server reports now =
    if leb_ℤ server (pos 0)
    then err invalid_client_traffic
    else if not (valid_reports [] reports)
    then err invalid_client_traffic
    else record_all db (pos_part server) reports now false
