-- ===== src/ClientTraffic/Lifecycle.antt =====
-- panel/internal/proxy/traffic.go: what the lifecycle of a client says.
use vps_panel.Prelude.{ℕ, ◌+◌, ◌≤◌, ◌≡◌, ◌↔◌, ◌⊎◌, true, arith, some, min}
use vps_panel.Prelude.Int.{max_int64}
use vps_panel.ClientTraffic.{
  Client, ClientMetrics, client_used_bytes, lifecycle_at, normal, warning,
}

-- The traffic used is the sum of both directions, held to the largest int64, where the downlink
-- is an int64.
pub client_used_bytes-min :
    (m : ClientMetrics)
    → m.cycle_downlink ≤ max_int64
    → client_used_bytes (some m) ≡ min (m.cycle_uplink + m.cycle_downlink) max_int64
unfolding client_used_bytes
client_used_bytes-min m h = ground arith

-- A client is in effect enabled exactly if its status is normal or warning.
pub effective_enabled_iff :
    (c : Client) (now : ℕ)
    → ((lifecycle_at c now).effective_enabled ≡ true)
      ↔ (((lifecycle_at c now).status ≡ normal) ⊎ ((lifecycle_at c now).status ≡ warning))
unfolding lifecycle_at
effective_enabled_iff c now = ground arith
