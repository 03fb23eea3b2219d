-- ===== src/ServerLifecycle/Tests.antt =====
-- panel/internal/server/lifecycle.go: a server that is created, enrolled, decommissioned and archived, and one
-- that is archived by force.
use vps_panel.Prelude.{
  ℕ, ◌≡◌, ◌≢◌, refl, true, false, none, some, List, [], ◌∷◌, ok, err, arith, find_first, keep, All,
  ◌==◌,
}
use vps_panel.Prelude.Int.{pos}
use vps_panel.Prelude.Text.{Text, codes, text_eq, trim_space, trim_left, is_space}
use vps_panel.Prelude.Tables.{count_where, update_where, delete_where}
use vps_panel.ServerDependencies.{
  crossing_servers, disable_dependencies, personal_rests, proxy, published_rests, relay_rests,
  PersonalNode, Proxy, PublishedNode, Relay,
}
use vps_panel.ServerDependencies.Disabled.{disable_dependencies-off}
use vps_panel.AgentMetadata.{
  Metadata, normalize_metadata, normalize_capabilities, unique_sorted, insert_unique, text_before,
  valid_metadata_identifier, declares_capability,
}
use vps_panel.AgentControl.{
  Agent, Server, agent_of, is_live, is_server, Enrollment, authenticate_agent, initial,
  insert_enrollment, new_agent, new_enrollment, register_agent, register_with, registered,
}
use vps_panel.ServerLifecycle.{
  Reconciled, archived, reconciled_db, server_not_distributable, without_agent, requested_db,
  archive_server, can_decommission, finished, cleanup, bump_servers, affected_servers, Db,
  create_server, finalize_decommission, force_archive, request_decommission,
}
use vps_panel.ServerLifecycle.Sound.{IsSound}
use vps_panel.ServerLifecycle.History.{
  Reach-IsSound, creates, finalizes, here, next, registers, requests,
}
use vps_panel.ServerLifecycle.Rounds.{
  force_archive-authenticate_agent, request_decommission-finalize, request_decommission-other,
}

abbrev no_hash : Text → Text
no_hash t = t

abbrev metadata : Metadata
metadata = record {
  implementation = codes "singleton_agent";
  version = codes "1.2.0";
  api_version = pos 1;
  capabilities = codes "managed_runtime_purge" ∷ codes "self_decommission" ∷ [];
}

abbrev empty_db : Db
empty_db = record {
  core = record { servers = []; agents = []; enrollments = []; next_id = 1 };
  log = record { operations = []; next_id = 1 };
  dependencies = record { proxies = []; clients = []; relays = []; published = []; personal = [] };
}

empty_db-IsSound : IsSound empty_db.core
unfolding count_where
empty_db-IsSound = record {
  below = tt;
  own_id = λ id. omega arith;
  one_agent = λ id. omega arith;
  settled = tt;
}

abbrev with_server : Db
with_server = (create_server empty_db (codes "enrollment") 100).0

abbrev enrollment : Enrollment
enrollment = new_enrollment 2 1 (codes "enrollment") initial 100

abbrev with_agent : Db
with_agent = record with_server {
  core = registered no_hash with_server.core enrollment (codes "agent") metadata 200;
}

abbrev agent : Agent
agent = new_agent no_hash with_server.core 1 (codes "agent") metadata 200

abbrev requested : Db
requested = requested_db with_agent 1 2 300

-- The subscribers have no clients.
abbrev reconciled : Reconciled
reconciled = record { clients = []; servers = [] }

abbrev archived_db : Db → (Server → Server) → Db
archived_db db f =
    without_agent
      (reconciled_db
        (record db {
          core = record db.core { servers = update_where (is_server 1) f db.core.servers };
        })
        reconciled 1 400)
      1

abbrev gone : Db
gone = archived_db requested (archived 400)

step_register :
    register_agent no_hash with_server.core (codes "enrollment") (codes "agent") metadata 200
    ≡ ok (with_agent.core, agent)
unfolding register_agent register_with find_first count_where create_server insert_enrollment
    normalize_metadata normalize_capabilities unique_sorted insert_unique text_before text_eq
    trim_space trim_left is_space valid_metadata_identifier
step_register = refl

step_request : request_decommission with_agent 1 300 ≡ ok (requested, 2)
unfolding request_decommission find_first count_where registered create_server insert_enrollment
    can_decommission declares_capability text_eq update_where delete_where
step_request = refl

step_finalize :
    finalize_decommission requested (ok reconciled) 1 2 (codes "success") [] 400
    ≡ ok (gone, (true, []))
unfolding finalize_decommission finished find_first requested_db registered create_server
    insert_enrollment update_where delete_where text_eq archive_server cleanup reconciled_db
    bump_servers affected_servers crossing_servers keep
step_finalize = refl

Reach-IsSound_example : IsSound gone.core
Reach-IsSound_example = Reach-IsSound no_hash empty_db-IsSound (
    next
      (next
        (next (next here (creates empty_db (codes "enrollment") 100)) (
          registers with_server (codes "enrollment") (codes "agent") metadata 200 with_agent.core
            agent step_register))
        (requests with_agent requested 1 2 300 step_request))
      (finalizes requested gone (ok reconciled) 1 2 (codes "success") [] 400 true [] step_finalize))

request_decommission-finalize_example :
    ((last : Db) × (mutations : List (ℕ × ℕ)) × (finalize_decommission requested
          (ok reconciled)
          1
          2
          (codes "success")
          []
          400
        ≡ ok (last, (true, mutations)))
      × (count_where (is_live 1) last.core.servers ≡ 0)
      × (count_where (agent_of 1) last.core.agents ≡ 0))
    × (finalize_decommission requested (err server_not_distributable) 1 2 (codes "success") [] 400
        ≡ err server_not_distributable)
request_decommission-finalize_example =
    request_decommission-finalize with_agent 1 300 step_request reconciled server_not_distributable
      [] 400

request_decommission-other_example :
    finalize_decommission requested (ok reconciled) 1 1 (codes "success") [] 400
    ≡ ok (requested, (false, []))
request_decommission-other_example =
    request_decommission-other with_agent 1 300 step_request (ok reconciled) 1 (codes "success") []
      400 refl

-- A second server, whose agent stays.
abbrev with_second : Db
with_second = (create_server with_agent (codes "second") 210).0

abbrev second_agent : Agent
second_agent = new_agent no_hash with_second.core 4 (codes "other") metadata 220

abbrev with_two : Db
with_two = record with_second {
  core =
      registered no_hash with_second.core (new_enrollment 5 4 (codes "second") initial 210)
        (codes "other") metadata 220;
}

abbrev forced : Db
forced = archived_db with_two (archived 400)

step_force : force_archive with_two (ok reconciled) 1 400 ≡ ok (forced, [])
unfolding force_archive find_first registered create_server insert_enrollment update_where
    delete_where text_eq archive_server cleanup reconciled_db bump_servers affected_servers
    crossing_servers keep
step_force = refl

second_is_in : authenticate_agent no_hash forced.core (codes "other") ≡ ok second_agent
unfolding authenticate_agent find_first registered create_server insert_enrollment update_where
    delete_where text_eq archive_server cleanup reconciled_db bump_servers affected_servers
    crossing_servers keep
second_is_in = refl

force_archive-authenticate_agent_example : second_agent.server_id ≢ 1
force_archive-authenticate_agent_example =
    force_archive-authenticate_agent no_hash with_two (ok reconciled) 1 400 step_force
      (codes "other") second_agent second_is_in

-- A relay of another server that leads to a proxy of the first.
abbrev wired : vps_panel.ServerDependencies.Db
wired = record {
  proxies = record { id = 7; server_id = 1; enabled = true; updated_at = 0 } ∷ [];
  clients = record { id = 8; proxy_id = 7 } ∷ [];
  relays =
      record {
        id = 9;
        server_id = 4;
        target_proxy_id = none;
        source_client_id = some 8;
        enabled = true;
        updated_at = 0;
      }
      ∷ [];
  published =
      record {
        id = 10;
        target_proxy_id = none;
        source_server_id = none;
        relay_id = some 9;
        enabled = true;
        updated_at = 0;
      }
      ∷ [];
  personal =
      record { id = 11; source_type = proxy; source_id = 7; enabled = true; updated_at = 0 } ∷ [];
}

disable_dependencies-off_example :
    All
      (λ (p : Proxy). p.server_id == 1 ≡ true → p.enabled ≡ false)
      (disable_dependencies wired 1 400).proxies
    × All
        (λ (r : Relay).
          relay_rests (disable_dependencies wired 1 400) 1 r ≡ true → r.enabled ≡ false)
        (disable_dependencies wired 1 400).relays
    × All
        (λ (n : PublishedNode).
          published_rests (disable_dependencies wired 1 400) 1 n ≡ true → n.enabled ≡ false)
        (disable_dependencies wired 1 400).published
    × All
        (λ (n : PersonalNode).
          personal_rests (disable_dependencies wired 1 400) 1 n ≡ true → n.enabled ≡ false)
        (disable_dependencies wired 1 400).personal
disable_dependencies-off_example = disable_dependencies-off wired 1 400
