-- ===== src/AgentControl/Connection.antt =====
-- panel/internal/agentcontrol/status.go: an agent connects, is heard of, and goes.
use vps_panel.Prelude.{
  ℕ, Bool, true, false, ◌&&◌, not, none, some, [], ltb, ◌==◌, if◌then◌else◌, find_first, length,
  Result, ok, err, ◌>>=◌,
}
use vps_panel.Prelude.Text.{Text, text_eq, trim_space}
use vps_panel.Prelude.Tables.{update_where, count_where}
use vps_panel.AgentMetadata.{Metadata, implementation_matches, is_empty, normalize_metadata}
use vps_panel.AgentControl.{
  Agent, Db, Error, Server, Status, implementation_mismatch, invalid_agent_token,
  invalid_agent_version, is_agent, is_archived, is_live, is_none, is_server, metadata_error,
  offline, online, server_not_found,
}

-- The upgrade is over when the agent runs the version that it was to reach.
abbrev pub reaches_target : Text → Agent → Bool
reaches_target version a = not (is_empty version) && text_eq a.upgrade_target version

abbrev pub seen : Text → ℕ → Agent → Agent
seen version now a =
    let done = reaches_target version a in
    record a {
      last_seen_at = some now;
      version = if is_empty version then a.version else version;
      upgrade_target = if done then [] else a.upgrade_target;
      upgrade_status = if done then [] else a.upgrade_status;
      upgrade_error = if done then [] else a.upgrade_error;
      updated_at = now;
    }

abbrev pub seen_with : Metadata → ℕ → Agent → Agent
seen_with m now a = record (seen m.version now a) {
  implementation = if is_empty a.implementation then m.implementation else a.implementation;
  api_version = m.api_version;
  capabilities = m.capabilities;
}

-- implementation = '' OR implementation = ?
abbrev pub is_same_agent : ℕ → ℕ → Text → Agent → Bool
is_same_agent id server implementation a =
    is_agent id server a && implementation_matches a.implementation implementation

-- The second half of setAgentConnected: the server is online, unless it is archived.
unfoldable pub set_server_online : Db → ℕ → ℕ → Result Error Db
set_server_online db server now =
    if not (count_where (is_live server) db.servers == 1)
    then err is_archived
    else ok (record db {
      servers =
          update_where (is_live server) (λ s. record s { status = online; updated_at = now })
            db.servers;
    })

abbrev refusal : Db → ℕ → ℕ → Text → Error
refusal db agent server implementation = elim (find_first (is_agent agent server) db.agents) [
  | none ↦ invalid_agent_token
  | some a ↦
      if text_eq a.implementation implementation
      then invalid_agent_token
      else implementation_mismatch
]

-- SetAgentConnectedMetadata
unfoldable pub set_agent_connected_metadata : Db → ℕ → ℕ → Metadata → ℕ → Result Error Db
unfolding set_server_online
set_agent_connected_metadata db agent server metadata now =
    metadata_error (normalize_metadata metadata) >>= λ m.
    let is_it = is_same_agent agent server m.implementation in
    if not (count_where is_it db.agents == 1)
    then err (refusal db agent server m.implementation)
    else set_server_online (record db { agents = update_where is_it (seen_with m now) db.agents })
        server now

-- SetAgentConnectedVersion
unfoldable pub set_agent_connected_version : Db → ℕ → ℕ → Text → ℕ → Result Error Db
unfolding set_server_online
set_agent_connected_version db agent server version now =
    let trimmed = trim_space version in
    if ltb 64 (length trimmed)
    then err invalid_agent_version
    else if not (count_where (is_agent agent server) db.agents == 1)
    then err invalid_agent_token
    else set_server_online
        (record db { agents = update_where (is_agent agent server) (seen trimmed now) db.agents })
        server now

unfoldable pub touch_agent : Db → ℕ → ℕ → ℕ → Result Error Db
touch_agent db agent server now =
    if not (count_where (is_agent agent server) db.agents == 1)
    then err invalid_agent_token
    else ok (record db {
      agents =
          update_where (is_agent agent server)
            (λ a. record a { last_seen_at = some now; updated_at = now }) db.agents;
    })

abbrev pub is_online : Status → Bool
is_online online = true
is_online _ = false

abbrev pub gone_offline : ℕ → Server → Server
gone_offline now s = record s { status = offline; updated_at = now }

unfoldable pub set_agent_offline : Db → ℕ → ℕ → Result Error Db
set_agent_offline db server now =
    if is_none (find_first (is_server server) db.servers)
    then err server_not_found
    else ok (record db {
      servers =
          update_where (λ s. is_live server s && is_online s.status) (gone_offline now) db.servers;
    })

unfoldable pub reset_online : Db → ℕ → Db
reset_online db now = record db {
  servers =
      update_where (λ s. is_online s.status && is_none s.archived_at) (gone_offline now) db.servers;
}

-- SetAgentOnline by setStatus
unfoldable pub set_agent_online : Db → ℕ → ℕ → Result Error Db
set_agent_online db server now = elim (find_first (is_server server) db.servers) [
  | none ↦ err server_not_found
  | some s ↦
      if not (count_where (is_live server) db.servers == 1)
      then err is_archived
      else ok (record db {
        servers =
            update_where (is_live server) (λ s. record s { status = online; updated_at = now })
              db.servers;
      })
]
