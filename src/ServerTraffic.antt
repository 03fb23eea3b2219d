-- ===== src/ServerTraffic.antt =====
-- panel/internal/server/traffic.go: the traffic that a server has used, its correction by hand, and
-- the monthly cycle. The tables `servers` and `server_metrics` are lists of rows; a deleted row of
-- `servers` is archived. Counters in the tables are not negative, the correction is signed.
pub mod Report
pub mod Cycle
pub mod Counters
pub mod Usage
mod Tests
use vps_panel.Prelude.{
  ℕ, suc, ◌+◌, ◌-◌, ◌*◌, Bool, true, false, ◌&&◌, ◌||◌, not, Option, none, some, List, [], ◌∷◌, ltb,
  leb, ◌==◌, if◌then◌else◌, find_first, Result, ok, err, ◌>>=◌,
}
use vps_panel.Prelude.Int.{ℤ, pos, negsuc, pos_part, sub_ℕ, ◌+ℤ◌, ltb_ℤ, max_int64}
use vps_panel.Prelude.Text.{Text}
use vps_panel.Prelude.Tables.{update_where, count_where, upsert}
use vps_panel.Calendar.{day_seconds, in_zone, to_utc, month_len, local_month, date}
use vps_panel.Calendar.Clock.{parse_clock, is_clock, clock_seconds}

-- traffic_count_mode; `other` is any other text.
pub data CountMode : Type 0 where
  single bidirectional other : CountMode

abbrev pub is_bidirectional : CountMode → Bool
is_bidirectional bidirectional = true
is_bidirectional _ = false

abbrev pub is_known : CountMode → Bool
is_known other = false
is_known _ = true

pub data Error : Type 0 where
  invalid_traffic_config invalid_traffic_target invalid_metrics not_found : Error
  invalid_agent_token : Error

-- Bytes are int64: `max(x, 0)` is the positive part.
unfoldable pub measured_traffic_used_bytes : CountMode → ℤ → ℤ → ℕ
measured_traffic_used_bytes mode cycle_rx cycle_tx =
    let tx = pos_part cycle_tx in
    if not (is_bidirectional mode)
    then tx
    else let rx = pos_part cycle_rx in if ltb (max_int64 - tx) rx then max_int64 else rx + tx

pub record Metrics : Type 0 where
  pub server_id : ℕ
  pub nic_rx : ℕ
  pub nic_tx : ℕ
  pub cycle_rx : ℕ
  pub cycle_tx : ℕ
  pub adjustment : ℤ
  pub cycle_started_at : Option ℕ
  pub updated_at : ℕ

pub record Server : Type 0 where
  pub id : ℕ
  pub archived : Bool
  pub monthly_limit : Option ℕ
  pub count_mode : CountMode
  pub reset_day : ℕ
  pub reset_time : Text
  pub updated_at : ℕ

unfoldable pub measured_of : CountMode → Option Metrics → ℕ
unfolding measured_traffic_used_bytes
measured_of mode none = 0
measured_of mode (some m) = measured_traffic_used_bytes mode (pos m.cycle_rx) (pos m.cycle_tx)

-- `measured > math.MaxInt64 - adjustment` and `adjustment < -measured`
unfoldable pub adjusted : ℕ → ℤ → ℤ
unfolding ◌+ℤ◌
adjusted measured adjustment =
    if ltb_ℤ (pos 0) adjustment && ltb (max_int64 - pos_part adjustment) measured
    then pos max_int64
    else if ltb_ℤ adjustment (pos 0) && ltb_ℤ adjustment (sub_ℕ 0 measured)
    then pos 0
    else pos measured +ℤ adjustment

-- Server.TrafficUsedBytes
unfoldable pub traffic_used_bytes : CountMode → Option Metrics → ℤ
unfolding measured_of adjusted
traffic_used_bytes mode none = pos (measured_of mode none)
traffic_used_bytes mode (some m) = adjusted (measured_of mode (some m)) m.adjustment

pub record TrafficConfig : Type 0 where
  pub monthly_limit : Option ℤ
  pub count_mode : CountMode
  pub reset_day : ℤ
  pub reset_time : Text

unfoldable pub default_traffic_config : TrafficConfig
default_traffic_config = record {
  monthly_limit = none;
  count_mode = single;
  reset_day = pos 1;
  reset_time = b'0' ∷ b'0' ∷ b':' ∷ b'0' ∷ b'0' ∷ [];
}

pub record Db : Type 0 where
  pub servers : List Server
  pub metrics : List Metrics

abbrev pub is_active : ℕ → Server → Bool
is_active id s = s.id == id && not s.archived

abbrev pub has_server : ℕ → Metrics → Bool
has_server id m = m.server_id == id

abbrev negative_limit : Option ℤ → Bool
negative_limit none = false
negative_limit (some n) = ltb_ℤ n (pos 0)

abbrev stored_limit : Option ℤ → Option ℕ
stored_limit none = none
stored_limit (some n) = if ltb_ℤ (pos 0) n then some (pos_part n) else none

unfoldable pub update_traffic_config : Db → ℕ → TrafficConfig → ℕ → Result Error Db
update_traffic_config db id config now =
    if negative_limit config.monthly_limit
      || not (is_known config.count_mode)
      || ltb_ℤ config.reset_day (pos 1)
      || ltb_ℤ (pos 31) config.reset_day
      || not (is_clock config.reset_time)
    then err invalid_traffic_config
    else if not (count_where (is_active id) db.servers == 1)
    then err not_found
    else ok (record db {
      servers =
          update_where (is_active id)
            (λ s. record s {
              monthly_limit = stored_limit config.monthly_limit;
              count_mode = config.count_mode;
              reset_day = pos_part config.reset_day;
              reset_time = config.reset_time;
              updated_at = now;
            })
            db.servers;
    })

-- The measured traffic of the row that the LEFT JOIN yields, with 0 for a missing one.
abbrev pub joined : Option Metrics → ℤ × ℤ
joined none = (pos 0, pos 0)
joined (some m) = (pos m.cycle_rx, pos m.cycle_tx)

abbrev new_metrics : ℕ → ℤ → ℕ → Metrics
new_metrics id adjustment now = record {
  server_id = id;
  nic_rx = 0;
  nic_tx = 0;
  cycle_rx = 0;
  cycle_tx = 0;
  adjustment = adjustment;
  cycle_started_at = none;
  updated_at = now;
}

unfoldable pub update_traffic_adjustment : Db → ℕ → ℤ → ℕ → Result Error Db
unfolding measured_traffic_used_bytes
update_traffic_adjustment db id target now =
    if ltb_ℤ target (pos 0)
    then err invalid_traffic_target
    else elim (find_first (is_active id) db.servers) [
      | none ↦ err not_found
      | some s ↦
          let (rx, tx) = joined (find_first (has_server id) db.metrics) in
          let adjustment =
            sub_ℕ (pos_part target) (measured_traffic_used_bytes s.count_mode rx tx) in
          ok (record db {
            metrics =
                upsert (has_server id) (λ m. record m { adjustment = adjustment })
                  (new_metrics id adjustment now) db.metrics;
          })
    ]

unfoldable pub clear_traffic_adjustment : Db → ℕ → Result Error Db
clear_traffic_adjustment db id = elim (find_first (is_active id) db.servers) [
  | none ↦ err not_found
  | some s ↦ ok (record db {
    metrics = update_where (has_server id) (λ m. record m { adjustment = pos 0 }) db.metrics;
  })
]

-- trafficDelta
unfoldable pub traffic_delta : ℕ → ℕ → ℕ
traffic_delta current previous = if ltb current previous then 0 else current - previous

unfoldable pub monthly_traffic_boundary : ℕ → ℕ → ℕ → ℕ
monthly_traffic_boundary month reset_day clock =
    let last_day = month_len month in
    date month (if ltb last_day reset_day then last_day else reset_day) clock

abbrev cycle_start_at : ℕ → ℕ → ℕ → ℕ
cycle_start_at now reset_day clock =
    let local_now = in_zone now in
    let month = local_month local_now in
    let this = monthly_traffic_boundary month reset_day clock in
    let before = monthly_traffic_boundary (month - 1) reset_day clock in
    to_utc (if ltb local_now this then before else this)

unfoldable pub traffic_cycle_start : ℕ → ℕ → Text → Result Error ℕ
unfolding monthly_traffic_boundary is_clock
traffic_cycle_start now reset_day reset_time = elim (parse_clock reset_time) [
  | none ↦ err invalid_traffic_config
  | some c ↦
      if not (is_clock reset_time) || ltb reset_day 1 || ltb 31 reset_day
      then err invalid_traffic_config
      else ok (cycle_start_at now reset_day (clock_seconds c))
]
