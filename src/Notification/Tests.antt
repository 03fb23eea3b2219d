-- ===== src/Notification/Tests.antt =====
-- panel/internal/notification/watcher.go at a server with a limit of 1000 bytes, and at one that goes away.
use vps_panel.Prelude.{
  ℕ, ◌≤◌, ◌≡◌, ◌+◌, refl, Bool, true, false, none, some, List, [], ◌∷◌, All, arith, ok, find_first,
}
use vps_panel.Prelude.Tables.{upsert}
use vps_panel.Prelude.Text.{codes}
use vps_panel.Notification.{
  Entry, Server, Settings, State, Update, consumed, minimum, save, state_of, steps_from,
  sweep_traffic, told, traffic_step, valid_chat, valid_token, valid_update,
}
use vps_panel.Notification.Steps.{IsStepOf, traffic_step-IsStepOf}
use vps_panel.Notification.Ending.{save-sweep_traffic}
use vps_panel.Notification.Once.{Ascending, turns, turns-Ascending}
use vps_panel.Notification.Online.{Watch, turn, turn_absent}
use vps_panel.Notification.Outages.{
  Due, Look, is_down, num, outages_bounded, times_seen, told_back, told_gone, turn-gone,
  watch_after,
}

abbrev settings : Settings
settings = record {
  bot_token = codes "12:a_b";
  chat_id = codes "-7";
  online_enabled = true;
  offline_grace_minutes = 2;
  recovery_enabled = true;
  traffic_enabled = true;
  traffic_threshold_percent = 80;
  traffic_step_percent = 10;
  traffic_full_enabled = true;
}

abbrev update : Update
update = record { settings = settings; clear_token = false }

saved : save settings update ≡ ok settings
unfolding save valid_update valid_token valid_chat
saved = refl

step_905 : traffic_step 905 1000 settings ≡ some 90
unfolding traffic_step steps_from minimum
step_905 = refl

step_full : traffic_step 1000 1000 settings ≡ some 100
unfolding traffic_step
step_full = refl

traffic_step-IsStepOf_example :
    (step : ℕ) × (traffic_step 905 1000 settings ≡ some step) × IsStepOf 905 1000 settings step
traffic_step-IsStepOf_example = traffic_step-IsStepOf 905 1000 settings (omega arith)

abbrev servers : List Server
servers =
    record { id = 3; is_eligible = true; limit = some 1000; used = 905; cycle = some 50 }
    ∷ record { id = 4; is_eligible = true; limit = none; used = 905; cycle = some 50 }
    ∷ []

save-sweep_traffic_example :
    (r : List State × List Entry) × (sweep_traffic [] settings 7000 servers ≡ some r)
save-sweep_traffic_example = save-sweep_traffic settings update saved [] 7000 servers

abbrev sweeps : List (ℕ × ℕ)
sweeps = (80, 100) ∷ (90, 160) ∷ (80, 220) ∷ (90, 280) ∷ (100, 340) ∷ []

sweeps_told : (turns [] 3 50 sweeps).1 ≡ 80 ∷ 90 ∷ 100 ∷ []
unfolding told state_of upsert find_first
sweeps_told = refl

turns-Ascending_example :
    Ascending (consumed (state_of [] 3) 50 1) (turns [] 3 50 sweeps).1
    × (consumed (state_of [] 3) 50 1 ≤ consumed (state_of (turns [] 3 50 sweeps).0 3) 50 1)
    × All (λ (s : ℕ × ℕ). s.0 ≤ consumed (state_of (turns [] 3 50 sweeps).0 3) 50 1) sweeps
turns-Ascending_example =
    turns-Ascending [] 3 50 sweeps
      (omega arith, (omega arith, (omega arith, (omega arith, (omega arith, tt)))))

abbrev watch : Watch
watch = record { rows = []; first_absent = []; pending_offline = []; queue = [] }

abbrev look : ℕ → Bool → Look
look now connected = record {
  settings = settings;
  now = now;
  connected = connected;
  again = false;
  is_eligible = true;
}

abbrev looks : List Look
looks =
    look 1000000000 false
    ∷ look 61000000000 false
    ∷ look 121000000000 false
    ∷ look 181000000000 false
    ∷ look 241000000000 true
    ∷ []

outages_bounded_example :
    (told_back 3 looks watch + num (is_down 3 (watch_after 3 looks watch))
      ≤ told_gone 3 looks watch + num (is_down 3 watch))
    × (told_gone 3 looks watch + num (is_down 3 watch)
        ≤ times_seen 3 looks + num (is_down 3 (watch_after 3 looks watch)))
outages_bounded_example = outages_bounded 3 looks watch

abbrev absent : Watch
absent = record watch { first_absent = record { server_id = 3; since = 1000000000 } ∷ [] }

gone_now :
    (turn settings 121000000000 false false absent (record { id = 3; is_eligible = true })).gone
    ≡ some (record { server_id = 3; started_at = 1; step = 0 })
unfolding turn turn_absent find_first state_of
gone_now = refl

turn-gone_example :
    (false ≡ false)
    × (false ≡ false)
    × (is_down 3 absent ≡ false)
    × Due settings 121000000000 3 absent (record { server_id = 3; started_at = 1; step = 0 })
turn-gone_example =
    turn-gone settings 121000000000 false false absent (record { id = 3; is_eligible = true })
      (record { server_id = 3; started_at = 1; step = 0 }) gone_now
