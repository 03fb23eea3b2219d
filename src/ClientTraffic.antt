-- ===== src/ClientTraffic.antt =====
-- panel/internal/proxy/traffic.go: the lifecycle of a client, its traffic cycles (Cycle), and the
-- reports that count its traffic (Store). Here is the lifecycle, a function of a client and an instant.
pub mod Lifecycle
pub mod Cycle
pub mod Store
pub mod Versions
pub mod Recording
mod Tests
use vps_panel.Prelude.{
  ℕ, ◌+◌, ◌-◌, ◌/◌, Bool, true, false, ◌&&◌, not, Option, none, some, ltb, leb, if◌then◌else◌,
}
use vps_panel.Prelude.Int.{max_int64}

pub data Error : Type 0 where
  invalid_client_traffic invalid_client_traffic_config : Error
  client_not_found subscription_managed_client : Error
  server_not_found server_decommissioning : Error

pub data Status : Type 0 where
  disabled normal warning exhausted expired : Status

-- The traffic of the current cycle.
pub record ClientMetrics : Type 0 where
  pub cycle_uplink : ℕ
  pub cycle_downlink : ℕ

pub record Client : Type 0 where
  pub enabled : Bool
  pub expires_at : Option ℕ
  pub traffic_limit : Option ℕ
  pub metrics : Option ClientMetrics

pub record ClientLifecycle : Type 0 where
  pub is_expired : Bool
  pub quota_exhausted : Bool
  pub effective_enabled : Bool
  pub status : Status

unfoldable pub client_used_bytes : Option ClientMetrics → ℕ
client_used_bytes none = 0
client_used_bytes (some m) =
    if ltb (max_int64 - m.cycle_downlink) m.cycle_uplink
    then max_int64
    else m.cycle_uplink + m.cycle_downlink

abbrev pub expired_at : Option ℕ → ℕ → Bool
expired_at none now = false
expired_at (some t) now = not (ltb now t)

abbrev pub over_quota : Option ℕ → ℕ → Bool
over_quota none used = false
over_quota (some limit) used = ltb 0 limit && leb limit used

abbrev pub near_quota : Option ℕ → ℕ → Bool
near_quota none used = false
near_quota (some limit) used = ltb 0 limit && leb (limit - limit / 10) used

unfoldable pub lifecycle_at : Client → ℕ → ClientLifecycle
unfolding client_used_bytes
lifecycle_at c now =
    let used = client_used_bytes c.metrics in
    let gone = expired_at c.expires_at now in
    let full = over_quota c.traffic_limit used in
    record {
      is_expired = gone;
      quota_exhausted = full;
      effective_enabled = c.enabled && not gone && not full;
      status =
          if not c.enabled
          then disabled
          else if gone
          then expired
          else if full
          then exhausted
          else if near_quota c.traffic_limit used
          then warning
          else normal;
    }

-- counterDelta
unfoldable pub counter_delta : ℕ → ℕ → ℕ
counter_delta previous current = if ltb current previous then 0 else current - previous
