-- ===== src/Notification.antt =====
-- panel/internal/notification: model.go, and of watcher.go the warnings on a server's traffic. A server's
-- used bytes are those of ServerTraffic, which are never below 0.
pub mod Steps
pub mod Ending
pub mod Once
pub mod Online
pub mod Outages
mod Tests
use vps_panel.Prelude.{
  ℕ, zero, suc, ◌+◌, ◌*◌, ◌/◌, ◌%◌, Bool, true, false, ◌&&◌, ◌||◌, not, Option, none, some, List,
  [], ◌∷◌, ◌++◌, ltb, leb, ◌==◌, if◌then◌else◌, find_first, Result, ok, err,
}
use vps_panel.Prelude.Text.{Text, byte_length, codes}
use vps_panel.Prelude.Tables.{upsert}
use vps_panel.AgentControl.{Status, is_none, pending}
use vps_panel.ServerLifecycle.{is_idle}

pub data Error : Type 0 where
  invalid_settings : Error

pub record Settings : Type 0 where
  pub bot_token : Text
  pub chat_id : Text
  pub online_enabled : Bool
  pub offline_grace_minutes : ℕ
  pub recovery_enabled : Bool
  pub traffic_enabled : Bool
  pub traffic_threshold_percent : ℕ
  pub traffic_step_percent : ℕ
  pub traffic_full_enabled : Bool

abbrev is_pending : Status → Bool
is_pending pending = true
is_pending _ = false

abbrev pub is_empty : Text → Bool
is_empty [] = true
is_empty (c ∷ cs) = false

-- A server that notices are due to, by its row and the time when its agent was last heard of.
unfoldable pub eligible : vps_panel.AgentControl.Server → Option ℕ → Bool
eligible s last_seen =
    not (is_pending s.status)
    && not (is_none last_seen)
    && is_none s.archived_at
    && is_none s.decommissioning_at
    && is_idle s.decommission_status

abbrev pub is_digit : ℕ → Bool
is_digit c = leb 48 c && leb c 57

-- [A-Za-z0-9_-]
abbrev pub is_token_code : ℕ → Bool
is_token_code c =
    is_digit c || (leb 65 c && leb c 90) || (leb 97 c && leb c 122) || c == 95 || c == 45

abbrev pub all_of : (ℕ → Bool) → Text → Bool
all_of p [] = true
all_of p (c ∷ cs) = p c && all_of p cs

-- What follows the first digit of ^[0-9]+:[A-Za-z0-9_-]+$
abbrev pub token_rest : Text → Bool
token_rest [] = false
token_rest (c ∷ cs) =
    let rest = token_rest cs in
    if c == 58 then not (is_empty cs) && all_of is_token_code cs else is_digit c && rest

abbrev pub matches_token : Text → Bool
matches_token [] = false
matches_token (c ∷ cs) = is_digit c && token_rest cs

unfoldable pub valid_token : Text → Bool
valid_token value = leb (byte_length value) 256 && matches_token value

abbrev pub digits : Text → Bool
digits value = not (is_empty value) && all_of is_digit value

-- ^-?[0-9]+$
abbrev pub matches_chat : Text → Bool
matches_chat [] = false
matches_chat (c ∷ cs) = if c == 45 then digits cs else digits (c ∷ cs)

unfoldable pub valid_chat : Text → Bool
valid_chat value = leb (byte_length value) 32 && matches_chat value

abbrev pub configured : Settings → Bool
configured s = not (is_empty s.bot_token) && not (is_empty s.chat_id)

-- The settings of an update, of which bot_token is the new token if it is not empty.
pub record Update : Type 0 where
  pub settings : Settings
  pub clear_token : Bool

unfoldable pub valid_update : Update → Bool
unfolding valid_token valid_chat
valid_update u =
    let s = u.settings in
    (is_empty s.bot_token || valid_token s.bot_token)
    && (is_empty s.chat_id || valid_chat s.chat_id)
    && not (u.clear_token && not (is_empty s.bot_token))
    && leb 1 s.offline_grace_minutes
    && leb s.offline_grace_minutes 60
    && leb 50 s.traffic_threshold_percent
    && leb s.traffic_threshold_percent 100
    && (s.traffic_step_percent == 5 || s.traffic_step_percent == 10 || s.traffic_step_percent == 20)

-- Save
unfoldable pub save : Settings → Update → Result Error Settings
unfolding valid_update
save old u =
    if not (valid_update u)
    then err invalid_settings
    else ok (record u.settings {
      bot_token =
          if u.clear_token
          then []
          else if is_empty u.settings.bot_token
          then old.bot_token
          else u.settings.bot_token;
    })

-- Exact ceil(limit*percent/100)
unfoldable pub minimum : ℕ → ℕ → ℕ
minimum limit percent = limit / 100 * percent + (limit % 100 * percent + 99) / 100

-- The loop of trafficStep: `last` is the step so far.
unfoldable pub steps_from : ℕ → ℕ → ℕ → ℕ → ℕ → ℕ → Option ℕ
unfolding minimum
steps_from zero used limit by percent last = none
steps_from (suc fuel) used limit by percent last =
    let rest = steps_from fuel used limit by (percent + by) percent in
    if not (ltb percent 100)
    then some last
    else if ltb used (minimum limit percent)
    then some last
    else rest

-- trafficStep
unfoldable pub traffic_step : ℕ → ℕ → Settings → Option ℕ
unfolding steps_from
traffic_step used limit s =
    if limit == 0
    then some 0
    else if leb limit used && s.traffic_full_enabled
    then some 100
    else steps_from 101 used limit s.traffic_step_percent s.traffic_threshold_percent 0

-- A row of server_notification_state
pub record State : Type 0 where
  pub server_id : ℕ
  pub started : Option ℕ
  pub notified : Option ℕ
  pub cycle : Option ℕ
  pub step : ℕ
  pub updated_at : ℕ

pub record Entry : Type 0 where
  pub server_id : ℕ
  pub started_at : ℕ
  pub step : ℕ

abbrev pub is_of : ℕ → State → Bool
is_of id s = s.server_id == id

abbrev pub fresh_state : ℕ → State
fresh_state id = record {
  server_id = id;
  started = none;
  notified = none;
  cycle = none;
  step = 0;
  updated_at = 0;
}

-- Service.state: a server without a row has the state of none.
unfoldable pub state_of : List State → ℕ → State
unfolding find_first
state_of rows id = elim (find_first (is_of id) rows) [ none ↦ fresh_state id | some s ↦ s ]

abbrev pub is_cycle : ℕ → Option ℕ → Bool
is_cycle cycle none = false
is_cycle cycle (some c) = c == cycle

-- `last` before the notice: what was consumed in this cycle, and nothing once the usage fell below the
-- threshold.
abbrev pub consumed : State → ℕ → ℕ → ℕ
consumed previous cycle step =
    if not (is_cycle cycle previous.cycle) || step == 0 then 0 else previous.step

abbrev pub last_step : State → ℕ → ℕ → ℕ
last_step previous cycle step =
    let last = consumed previous cycle step in if ltb last step then step else last

abbrev pub changes : State → ℕ → ℕ → Bool
changes previous cycle step =
    not (is_cycle cycle previous.cycle) || not (last_step previous cycle step == previous.step)

abbrev pub noted : ℕ → ℕ → ℕ → State → State
noted cycle step now s = record s { cycle = some cycle; step = step; updated_at = now }

-- One server's turn in sweepTraffic, from the state on: its row, and the entry that tells of it.
unfoldable pub told : List State → ℕ → ℕ → ℕ → ℕ → List State × List Entry
unfolding state_of
told rows id cycle step now =
    let previous = state_of rows id in
    let last = last_step previous cycle step in
    (
      if changes previous cycle step
          then upsert (is_of id) (noted cycle last now) (noted cycle last now (fresh_state id)) rows
          else rows,
      if ltb (consumed previous cycle step) step
          then record { server_id = id; started_at = cycle; step = step } ∷ []
          else [],
    )

-- What the sweep reads of a server: `is_eligible` is eligible's answer.
pub record Server : Type 0 where
  pub id : ℕ
  pub is_eligible : Bool
  pub limit : Option ℕ
  pub used : ℕ
  pub cycle : Option ℕ

-- One server's turn in sweepTraffic
unfoldable pub sweep_server : List State → Settings → ℕ → Server → Option (List State × List Entry)
unfolding traffic_step told
sweep_server rows settings now s = if not s.is_eligible then some (rows, []) else elim s.limit [
  | none ↦ some (rows, [])
  | some limit ↦ if limit == 0 then some (rows, []) else elim s.cycle [
    | none ↦ some (rows, [])
    | some cycle ↦ elim (traffic_step s.used limit settings) [
      | none ↦ none
      | some step ↦ some (told rows s.id cycle step now)
    ]
  ]
]

unfoldable pub sweep_servers :
    List State → Settings → ℕ → List Server → Option (List State × List Entry)
sweep_servers rows settings now [] = some (rows, [])
sweep_servers rows settings now (s ∷ servers) = elim (sweep_server rows settings now s) [
  | none ↦ none
  | some first ↦ elim (sweep_servers first.0 settings now servers) [
    | none ↦ none
    | some rest ↦ some (rest.0, first.1 ++ rest.1)
  ]
]

-- sweepTraffic
unfoldable pub sweep_traffic :
    List State → Settings → ℕ → List Server → Option (List State × List Entry)
unfolding sweep_servers
sweep_traffic rows settings now servers =
    if not (configured settings) || not settings.traffic_enabled
    then some (rows, [])
    else sweep_servers rows settings now servers
