-- ===== src/ServerLifecycle/Connected.antt =====
-- panel/internal/agentcontrol/status.go: an agent's coming and going leaves the tables sound.
use vps_panel.Prelude.{
  ℕ, ◌≡◌, refl, Bool, not, ◌==◌, ltb, find_first, length, arith, ok, >>=-eq-ok, ok-inj, past_guard,
  past_search, subst,
}
use vps_panel.Prelude.Text.{Text, trim_space}
use vps_panel.Prelude.Tables.{update_where, count_where}
use vps_panel.Prelude.Counts.{All-map, count_where-update_where-same}
use vps_panel.AgentMetadata.{Metadata, normalize_metadata}
use vps_panel.AgentControl.{
  Agent, Db, Error, Server, agent_of, is_agent, is_live, is_none, is_server, metadata_error, online,
  offline,
}
use vps_panel.AgentControl.Connection.{
  is_same_agent, reset_online, seen, seen_with, set_agent_connected_metadata,
  set_agent_connected_version, set_agent_offline, set_agent_online, set_server_online, touch_agent,
}
use vps_panel.ServerLifecycle.Sound.{
  Settled, Settled-IsCalm, IsCalm, IsCalmUpdate, IsSound, calm-IsSound,
}

IsCalm-agents :
    (db after : Db) (q : Agent → Bool) (f : Agent → Agent)
    → ((x : Agent) → (f x).server_id ≡ x.server_id)
    → after.agents ≡ update_where q f db.agents
    → after.enrollments ≡ db.enrollments
    → after.next_id ≡ db.next_id
    → IsCalm db after
IsCalm-agents db after q f same agents enrollments next = record {
  later = omega (arith, next);
  agents_le = λ id.
      let e = count_where-update_where-same (agent_of id) q f (λ x. rw (same x) refl) db.agents in
      rw (agents, e) (omega arith);
  enrollments_le = λ id. rw enrollments (omega arith);
}

same-IsCalm :
    (db after : Db)
    → after.agents ≡ db.agents
    → after.enrollments ≡ db.enrollments
    → after.next_id ≡ db.next_id
    → IsCalm db after
same-IsCalm db after agents enrollments next = record {
  later = omega (arith, next);
  agents_le = λ id. rw agents (omega arith);
  enrollments_le = λ id. rw enrollments (omega arith);
}

-- Only agents are updated, none of them moves to another server.
agents-IsSound :
    (db : Db) (q : Agent → Bool) (f : Agent → Agent)
    → ((x : Agent) → (f x).server_id ≡ x.server_id)
    → IsSound db
    → IsSound (record db { agents = update_where q f db.agents })
agents-IsSound db q f same sound =
    let after : Db = record db { agents = update_where q f db.agents } in
    let calm = IsCalm-agents db after q f same refl refl refl in
    record {
      below = sound.below;
      own_id = sound.own_id;
      one_agent = λ id.
          let one = sound.one_agent id in let le = calm.agents_le id in omega (arith, one, le);
      settled =
          All-map (Settled db) (Settled after) (Settled-IsCalm {db = db} {after = after} calm)
            db.servers sound.settled;
    }

-- Only the servers' status is.
servers-IsSound :
    (db : Db) (p : Server → Bool) (f : Server → Server)
    → IsCalmUpdate f
    → IsSound db
    → IsSound (record db { servers = update_where p f db.servers })
servers-IsSound db p f keeps sound =
    let after : Db = record db { servers = update_where p f db.servers } in
    calm-IsSound db after p f keeps refl (same-IsCalm db after refl refl refl) sound

is_calm_update :
    (status : vps_panel.AgentControl.Status) (now : ℕ)
    → IsCalmUpdate (λ s. record s { status = status; updated_at = now })
is_calm_update status now = record {
  same_id = λ x. refl;
  same_archived = λ x. refl;
  same_idle = λ x. refl;
}

module _ {after : Db} where
  pub set_server_online-IsSound :
      (db : Db) (server now : ℕ)
      → set_server_online db server now ≡ ok after
      → IsSound db
      → IsSound after
  unfolding set_server_online
  set_server_online-IsSound db server now done sound =
      let (_, same) = past_guard (not (count_where (is_live server) db.servers == 1)) _ _ done in
      subst IsSound (ok-inj same)
        (servers-IsSound db (is_live server) _ (is_calm_update online now) sound)

  pub set_agent_connected_metadata-IsSound :
      (db : Db) (agent server : ℕ) (m : Metadata) (now : ℕ)
      → set_agent_connected_metadata db agent server m now ≡ ok after
      → IsSound db
      → IsSound after
  unfolding set_agent_connected_metadata
  set_agent_connected_metadata-IsSound db agent server m now done sound =
      let (n, _, passed) = >>=-eq-ok (metadata_error (normalize_metadata m)) _ done in
      let is_it = is_same_agent agent server n.implementation in
      let (_, set) = past_guard (not (count_where is_it db.agents == 1)) _ _ passed in
      set_server_online-IsSound _ server now set
        (agents-IsSound db is_it (seen_with n now) (λ x. refl) sound)

  pub set_agent_connected_version-IsSound :
      (db : Db) (agent server : ℕ) (version : Text) (now : ℕ)
      → set_agent_connected_version db agent server version now ≡ ok after
      → IsSound db
      → IsSound after
  unfolding set_agent_connected_version
  set_agent_connected_version-IsSound db agent server version now done sound =
      let (_, short) = past_guard (ltb 64 (length (trim_space version))) _ _ done in
      let (_, set) =
        past_guard (not (count_where (is_agent agent server) db.agents == 1)) _ _ short in
      set_server_online-IsSound _ server now set (
        agents-IsSound db (is_agent agent server) (seen (trim_space version) now) (λ x. refl) sound)

  pub touch_agent-IsSound :
      (db : Db) (agent server now : ℕ)
      → touch_agent db agent server now ≡ ok after
      → IsSound db
      → IsSound after
  unfolding touch_agent
  touch_agent-IsSound db agent server now done sound =
      let (_, same) =
        past_guard (not (count_where (is_agent agent server) db.agents == 1)) _ _ done in
      subst IsSound (ok-inj same) (agents-IsSound db (is_agent agent server) _ (λ x. refl) sound)

  pub set_agent_offline-IsSound :
      (db : Db) (server now : ℕ)
      → set_agent_offline db server now ≡ ok after
      → IsSound db
      → IsSound after
  unfolding set_agent_offline
  set_agent_offline-IsSound db server now done sound =
      let (_, same) = past_guard (is_none (find_first (is_server server) db.servers)) _ _ done in
      subst IsSound (ok-inj same) (servers-IsSound db _ _ (is_calm_update offline now) sound)

  pub set_agent_online-IsSound :
      (db : Db) (server now : ℕ)
      → set_agent_online db server now ≡ ok after
      → IsSound db
      → IsSound after
  unfolding set_agent_online
  set_agent_online-IsSound db server now done sound =
      let (_, _, found) = past_search (find_first (is_server server) db.servers) _ _ done in
      let (_, same) = past_guard (not (count_where (is_live server) db.servers == 1)) _ _ found in
      subst IsSound (ok-inj same) (servers-IsSound db _ _ (is_calm_update online now) sound)

pub reset_online-IsSound : (db : Db) (now : ℕ) → IsSound db → IsSound (reset_online db now)
unfolding reset_online
reset_online-IsSound db now sound = servers-IsSound db _ _ (is_calm_update offline now) sound
