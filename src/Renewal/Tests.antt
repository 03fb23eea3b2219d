-- ===== src/Renewal/Tests.antt =====
-- The theorems on renewals at concrete inputs: a server whose contract ended on 2024-01-31 at
-- 23:59:59 in Asia/Shanghai, by the month, on 2024-03-31 at 10:00.
use vps_panel.Prelude.{
  ℕ, ◌≤◌, ◌≡◌, refl, arith, true, false, none, some, List, [], ◌∷◌, All, map, ok,
}
use vps_panel.Calendar.{in_zone, local_month, month_of}
use vps_panel.Renewal.{Server, apply_automatic_renewals, due, valid_renewal_period}
use vps_panel.Prelude.{find_first}
use vps_panel.Prelude.Tables.{update_where}
use vps_panel.Renewal.{SettingsUpdate, update_renewal_settings, updated_settings}
use vps_panel.Renewal.Laws.{IsStored, apply_automatic_renewals_total}

abbrev now : ℕ
now = 63847447200

abbrev ended : ℕ
ended = 63842313599

abbrev server : Server
server = record {
  id = 4;
  archived = false;
  expires_at = some ended;
  period = some 1;
  auto_renew = true;
  anchor = some 31;
  updated_at = 0;
}

is_late : 1 ≤ local_month (in_zone ended)
unfolding month_of
is_late = omega arith

server-IsStored : IsStored server
unfolding valid_renewal_period
server-IsStored = (λ t e. ground (arith, is_late), λ p e. ground arith, λ d e. ground arith)

apply_automatic_renewals_total_example :
    (after : List Server) × (apply_automatic_renewals (server ∷ []) now ≡ some (ok after))
    × (map (λ s. s.id) after ≡ 4 ∷ [])
    × All (λ s. due s now ≡ none) after
apply_automatic_renewals_total_example =
    apply_automatic_renewals_total (server ∷ []) now (server-IsStored, tt)

abbrev by_the_quarter : SettingsUpdate
by_the_quarter = record {
  expires_at_set = false;
  expires_at = none;
  period_set = true;
  period = some 3;
  auto_renew_set = false;
  auto_renew = false;
}

abbrev quarterly : Server
quarterly = record server { period = some 3; updated_at = now }

changed : update_renewal_settings (server ∷ []) 4 by_the_quarter now ≡ ok (quarterly ∷ [])
unfolding update_renewal_settings updated_settings valid_renewal_period find_first update_where
changed = refl
