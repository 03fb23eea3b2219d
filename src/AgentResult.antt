-- ===== src/AgentResult.antt =====
-- panel/internal/agentcontrol/result.go: what an agent reports of the configuration it was given. The
-- operations of the server get the receipt in the same transaction.
pub mod Progress
mod Tests
use vps_panel.Prelude.{
  ℕ, ◌+◌, max, Bool, true, false, ◌&&◌, ◌||◌, not, Option, none, some, List, [], ◌∷◌, ltb, leb,
  ◌==◌, if◌then◌else◌, find_first, Result, ok, err,
}
use vps_panel.Prelude.Int.{ℤ, pos, pos_part, leb_ℤ}
use vps_panel.Prelude.Text.{Text, byte_length, codes, text_eq}
use vps_panel.Prelude.Tables.{update_where}
use vps_panel.Operation.{record_receipt, is_success}

pub data Error : Type 0 where
  invalid_config_result invalid_agent_token config_version_ahead : Error

pub data SyncStatus : Type 0 where
  pending success failed : SyncStatus

pub record ConfigResult : Type 0 where
  pub version : ℤ
  pub status : Text
  pub message : Text

pub record Agent : Type 0 where
  pub id : ℕ
  pub server_id : ℕ
  pub applied_version : ℕ
  pub sync_status : SyncStatus
  pub sync_error : Text
  pub synced_at : Option ℕ
  pub updated_at : ℕ

pub record Server : Type 0 where
  pub id : ℕ
  pub archived : Bool
  pub desired_version : ℕ

pub record Db : Type 0 where
  pub agents : List Agent
  pub servers : List Server
  pub log : vps_panel.Operation.Db

abbrev pub max_error_bytes : ℕ
max_error_bytes = 4096

abbrev is_failure : Text → Bool
is_failure status = text_eq status (codes "failed")

unfoldable pub is_valid_result : ConfigResult → Bool
is_valid_result r = not (
    leb_ℤ r.version (pos 0)
    || not (is_success r.status || is_failure r.status)
    || ltb max_error_bytes (byte_length r.message))

abbrev pub is_agent : ℕ → ℕ → Agent → Bool
is_agent id server a = a.id == id && a.server_id == server

abbrev pub is_live : ℕ → Server → Bool
is_live id s = s.id == id && not s.archived

abbrev pub succeeded : ℕ → ℕ → Agent → Agent
succeeded version now a = record a {
  applied_version = max a.applied_version version;
  sync_status = success;
  sync_error = [];
  synced_at = some now;
  updated_at = now;
}

abbrev pub failed_with : Text → ℕ → Agent → Agent
failed_with message now a = record a {
  sync_status = failed;
  sync_error = message;
  synced_at = some now;
  updated_at = now;
}

-- The two updates of the agent, by the status of the result.
unfoldable pub noted : ConfigResult → ℕ → Agent → Agent
noted r now a =
    if is_success r.status
    then succeeded (pos_part r.version) now a
    else failed_with r.message now a

unfoldable pub saved : Db → ℕ → ℕ → ConfigResult → ℕ → Db
saved db agent server r now = record db {
  agents = update_where (is_agent agent server) (noted r now) db.agents;
  log = record_receipt db.log server (pos_part r.version) r.status r.message now;
}

-- RecordConfigResult: a version that is not yet desired is refused, one that is older than what is
-- applied changes nothing.
unfoldable pub record_config_result : Db → ℕ → ℕ → ConfigResult → ℕ → Result Error Db
record_config_result db agent server r now =
    if not (is_valid_result r)
    then err invalid_config_result
    else elim (find_first (is_agent agent server) db.agents) [
      | none ↦ err invalid_agent_token
      | some a ↦ elim (find_first (is_live server) db.servers) [
        | none ↦ err invalid_agent_token
        | some s ↦
            if ltb s.desired_version (pos_part r.version)
            then err config_version_ahead
            else if ltb (pos_part r.version) a.applied_version
            then ok db
            else ok (saved db agent server r now)
      ]
    ]

-- RecordDesiredStateFailure: the agent could not read its configuration.
unfoldable pub record_desired_state_failure : Db → ℕ → ℕ → Text → ℕ → Result Error Db
record_desired_state_failure db agent server message now =
    if text_eq message [] || ltb max_error_bytes (byte_length message)
    then err invalid_config_result
    else elim (find_first (is_agent agent server) db.agents) [
      | none ↦ err invalid_agent_token
      | some a ↦ elim (find_first (is_live server) db.servers) [
        | none ↦ err invalid_agent_token
        | some s ↦
            let receipt =
              record_receipt db.log server s.desired_version (codes "failed") message now in
            ok (record db {
              agents = update_where (is_agent agent server) (failed_with message now) db.agents;
              log = receipt;
            })
      ]
    ]
