-- ===== src/Subscriber/Tests.antt =====
-- The theorems on subscribers at concrete inputs: 2024-03-31 at 10:00 in Asia/Shanghai, with a reset
-- on day 31 at 12:00, and 2024-02-20 at 08:00.
use vps_panel.Prelude.{ℕ, ◌≤◌, ◌<◌, ◌≡◌, refl, arith, ok, ◌-◌}
use vps_panel.Prelude.Int.{pos}
use vps_panel.Calendar.{in_zone, to_utc, local_month, month_day, month_len, month_of, date}
use vps_panel.Calendar.Boundary.{IsLastBoundary, boundary}
use vps_panel.Calendar.Clock.{format_clock, clock_seconds}
use vps_panel.Subscriber.Charge.{apply_traffic_multiplier_delta}
use vps_panel.Subscriber.Billing.{
  apply_traffic_multiplier_delta-exact, apply_traffic_multiplier_delta-split,
}
use vps_panel.Prelude.{true, false, some, [], ◌∷◌, find_first}
use vps_panel.Prelude.Text.{codes, trim_space}
use vps_panel.Calendar.Clock.{is_clock}
use vps_panel.Subscriber.{Db, reset_if_due, reset_subscriber_cycle_if_due, reset_usage}
use vps_panel.Subscriber.Reset.{reset_subscriber_cycle_if_due_again}
use vps_panel.Subscriber.Cycle.{
  monthly, current_local_start, current_subscriber_cycle_start, subscriber_monthly_boundary,
  valid_reset_time,
}
use vps_panel.Subscriber.Drift.{
  current_subscriber_cycle_start-IsLastBoundary, current_subscriber_cycle_start-ahead,
}

abbrev march_31 : ℕ
march_31 = 63847447200

abbrev february_20 : ℕ
february_20 = 63843984000

apply_traffic_multiplier_delta-exact_example :
    apply_traffic_multiplier_delta (pos 1234) 150 (pos 50) ≡ ok (1851, 50)
apply_traffic_multiplier_delta-exact_example =
    apply_traffic_multiplier_delta-exact 1234 150 50 (omega arith) (omega arith) (omega arith)
      (omega arith)

apply_traffic_multiplier_delta-split_example :
    apply_traffic_multiplier_delta (pos 200) 33 (pos 0) ≡ ok (66, 0)
unfolding apply_traffic_multiplier_delta
apply_traffic_multiplier_delta-split_example =
    apply_traffic_multiplier_delta-split 101 99 33 0 (omega arith) (omega arith) (omega arith)
      (omega arith) 33 33 33 0 refl refl

february :
    (1 ≤ local_month (in_zone february_20))
    × (month_day (in_zone february_20) ≤ month_len (local_month (in_zone february_20) - 1))
unfolding month_of
february = omega arith

current_subscriber_cycle_start-IsLastBoundary_example :
    (b : ℕ) × (current_subscriber_cycle_start february_20 monthly (pos 31) (format_clock 12 0)
      ≡ ok (to_utc b))
    × IsLastBoundary 31 (clock_seconds (12, 0)) (in_zone february_20) b
current_subscriber_cycle_start-IsLastBoundary_example =
    current_subscriber_cycle_start-IsLastBoundary february_20 31 (12, 0) (omega arith) (omega arith)
      (omega arith) (omega arith) february.0 february.1

march :
    (1 ≤ local_month (in_zone march_31))
    × (month_len (local_month (in_zone march_31) - 1) < month_day (in_zone march_31))
    × (in_zone march_31 < boundary 31 (clock_seconds (12, 0)) (local_month (in_zone march_31)))
unfolding month_of boundary date
march = omega arith

current_subscriber_cycle_start-ahead_example :
    (s : ℕ) × (current_subscriber_cycle_start march_31 monthly (pos 31) (format_clock 12 0) ≡ ok s)
    × (march_31 < s)
current_subscriber_cycle_start-ahead_example =
    current_subscriber_cycle_start-ahead march_31 31 (12, 0) (omega arith) (omega arith)
      (omega arith) (omega arith) march.0 march.1 march.2

abbrev db : Db
db = record {
  mappings =
      record {
        client_id = 5;
        user_id = 1;
        proxy_id = 2;
        charged_uplink = 700;
        charged_downlink = 800;
        uplink_remainder = 4;
        downlink_remainder = 5;
      }
      ∷ [];
  profiles =
      record {
        user_id = 1;
        plan_id = some 3;
        mode = monthly;
        day = pos 18;
        reset_time = codes "12:00";
      }
      ∷ [];
  usages =
      record {
        user_id = 1;
        archived_uplink = 10;
        archived_downlink = 20;
        cycle_started_at = 63841000000;
        updated_at = 63841000000;
      }
      ∷ [];
  nodes = [];
  metrics = [];
}

-- 2024-02-18 at 12:00
abbrev february_18 : ℕ
february_18 = 63843825600

abbrev after : Db
after = reset_usage db 1 february_18 february_20

resets : reset_subscriber_cycle_if_due db 1 february_20 ≡ ok (after, true)
unfolding reset_subscriber_cycle_if_due reset_if_due current_subscriber_cycle_start
    current_local_start subscriber_monthly_boundary find_first valid_reset_time is_clock month_of
    date trim_space
resets = refl

reset_subscriber_cycle_if_due_again_example :
    reset_subscriber_cycle_if_due after 1 february_20 ≡ ok (after, false)
reset_subscriber_cycle_if_due_again_example =
    reset_subscriber_cycle_if_due_again db after 1 february_20 resets
