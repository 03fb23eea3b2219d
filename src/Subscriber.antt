-- ===== src/Subscriber.antt =====
-- panel/internal/subscription/usage.go: what a subscriber is charged for traffic, and the subscriber's
-- cycle. Charge has the arithmetic, Cycle the calendar; here are the tables and the operations. The
-- rows of `client_metrics` are those of ClientTraffic. A plan node is joined to its published node.
pub mod Charge
pub mod Billing
pub mod Drift
pub mod Reset
mod Tests
pub mod Cycle
use vps_panel.Prelude.{
  ℕ, ◌+◌, ◌-◌, Bool, true, false, ◌&&◌, ◌||◌, not, Option, none, some, List, [], ◌∷◌, ltb, leb,
  ◌==◌, if◌then◌else◌, Result, ok, err, ◌>>=◌, find_first, keep, length, any,
}
use vps_panel.Prelude.Int.{ℤ, pos, pos_part, max_int64}
use vps_panel.Prelude.Text.{Text}
use vps_panel.Prelude.Tables.{update_where}
use vps_panel.ClientTraffic.Store.{MetricsRow, ClientTrafficReport, metrics_of}
use Charge.{
  Error, invalid_plan_nodes, subscriber_not_found, charge_overflow, saturating_add,
  subscriber_counter_delta, validate_traffic_multiplier, apply_traffic_multiplier_delta,
}
use Cycle.{ResetMode, never, monthly, other, is_never, current_subscriber_cycle_start}

pub record Mapping : Type 0 where
  pub client_id : ℕ
  pub user_id : ℕ
  pub proxy_id : ℕ
  pub charged_uplink : ℕ
  pub charged_downlink : ℕ
  pub uplink_remainder : ℕ
  pub downlink_remainder : ℕ

pub record Profile : Type 0 where
  pub user_id : ℕ
  pub plan_id : Option ℕ
  pub mode : ResetMode
  pub day : ℤ
  pub reset_time : Text

pub record Usage : Type 0 where
  pub user_id : ℕ
  pub archived_uplink : ℕ
  pub archived_downlink : ℕ
  pub cycle_started_at : ℕ
  pub updated_at : ℕ

pub record PlanNode : Type 0 where
  pub plan_id : ℕ
  pub target_proxy_id : ℕ
  pub multiplier : ℕ

pub record Db : Type 0 where
  pub mappings : List Mapping
  pub profiles : List Profile
  pub usages : List Usage
  pub nodes : List PlanNode
  pub metrics : List MetricsRow

abbrev pub of_client : ℕ → Mapping → Bool
of_client id m = m.client_id == id

abbrev pub of_user : ℕ → Mapping → Bool
of_user id m = m.user_id == id

abbrev has_plan : ℕ → Option ℕ → Bool
has_plan id none = false
has_plan id (some p) = p == id

-- The nodes of the user's plan that target a proxy.
abbrev pub matching_nodes : Db → ℕ → ℕ → List PlanNode
matching_nodes db user proxy =
    keep
      (λ n.
        n.target_proxy_id == proxy
        && any (λ p. p.user_id == user && has_plan n.plan_id p.plan_id) db.profiles)
      db.nodes

-- COUNT(*) = 1 and MIN(...) over those nodes
abbrev pub only_multiplier : List PlanNode → Option ℕ
only_multiplier [] = none
only_multiplier (n ∷ []) = some n.multiplier
only_multiplier (n ∷ m ∷ rest) = none

-- The mapping after a charge for the traffic since the last report.
unfoldable pub charged : Mapping → MetricsRow → ℕ → ℕ → ℕ → Result Error Mapping
unfolding subscriber_counter_delta
charged m old multiplier up down =
    apply_traffic_multiplier_delta (pos (subscriber_counter_delta old.xray_uplink up)) multiplier
      (pos m.uplink_remainder)
    >>= λ (charge_up, rest_up).
        apply_traffic_multiplier_delta (pos (subscriber_counter_delta old.xray_downlink down))
          multiplier (pos m.downlink_remainder)
        >>= λ (charge_down, rest_down).
            if ltb (max_int64 - charge_up) m.charged_uplink
              || ltb (max_int64 - charge_down) m.charged_downlink
            then err charge_overflow
            else ok (record m {
              charged_uplink = m.charged_uplink + charge_up;
              charged_downlink = m.charged_downlink + charge_down;
              uplink_remainder = rest_up;
              downlink_remainder = rest_down;
            })

-- recordSubscriberChargeTx
unfoldable pub record_subscriber_charge : Db → ClientTrafficReport → Result Error Db
unfolding validate_traffic_multiplier
record_subscriber_charge db report =
    let id = pos_part report.client_id in
    elim (find_first (of_client id) db.mappings) [
      | none ↦ ok db
      | some m ↦ elim (only_multiplier (matching_nodes db m.user_id m.proxy_id)) [
        | none ↦ err invalid_plan_nodes
        | some multiplier ↦ validate_traffic_multiplier multiplier >>= λ _.
            elim (find_first (metrics_of id) db.metrics) [
              | none ↦ ok db
              | some old ↦
                  charged m old multiplier (pos_part report.uplink) (pos_part report.downlink)
                  >>= λ m'.
                      ok
                        (record db { mappings = update_where (of_client id) (λ _. m') db.mappings })
            ]
      ]
    ]

abbrev pub uncharged : Mapping → Mapping
uncharged m = record m {
  charged_uplink = 0;
  charged_downlink = 0;
  uplink_remainder = 0;
  downlink_remainder = 0;
}

-- The three updates of a reset: the archive, the charges, and the traffic of the user's clients.
unfoldable pub reset_usage : Db → ℕ → ℕ → ℕ → Db
reset_usage db user start now = record db {
  usages =
      update_where (λ u. u.user_id == user)
        (λ u. record u {
          archived_uplink = 0;
          archived_downlink = 0;
          cycle_started_at = start;
          updated_at = now;
        })
        db.usages;
  mappings = update_where (of_user user) uncharged db.mappings;
  metrics =
      update_where (λ m. any (λ c. c.client_id == m.client_id && c.user_id == user) db.mappings)
        (λ m. record m {
          cycle_uplink = 0;
          cycle_downlink = 0;
          cycle_started_at = start;
          updated_at = now;
        })
        db.metrics;
}

-- The second half of resetSubscriberCycleIfDueTx, for the row that its query yields.
unfoldable pub reset_if_due : Db → ℕ → ℕ → Profile → Usage → Result Error (Db × Bool)
reset_if_due db user now p u =
    if is_never p.mode
    then ok (db, false)
    else (current_subscriber_cycle_start now p.mode p.day p.reset_time >>= λ start. ok (
        if leb start u.cycle_started_at
        then (db, false)
        else (reset_usage db user start now, true)))

-- resetSubscriberCycleIfDueTx
unfoldable pub reset_subscriber_cycle_if_due : Db → ℕ → ℕ → Result Error (Db × Bool)
reset_subscriber_cycle_if_due db user now = elim (find_first (λ p. p.user_id == user) db.profiles) [
  | none ↦ err subscriber_not_found
  | some p ↦ elim (find_first (λ u. u.user_id == user) db.usages) [
    | none ↦ err subscriber_not_found
    | some u ↦ reset_if_due db user now p u
  ]
]

unfoldable pub mapped_usage : List Mapping → ℕ → ℕ
unfolding saturating_add
mapped_usage [] used = used
mapped_usage (m ∷ ms) used =
    mapped_usage ms (saturating_add used (saturating_add m.charged_uplink m.charged_downlink))

-- currentSubscriberUsage
unfoldable pub current_subscriber_usage : Db → ℕ → ℕ → ℕ → ℕ
unfolding mapped_usage
current_subscriber_usage db user archived_up archived_down =
    mapped_usage (keep (of_user user) db.mappings) (saturating_add archived_up archived_down)
