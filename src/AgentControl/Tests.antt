-- ===== src/AgentControl/Tests.antt =====
-- panel/internal/agentcontrol/registration.go on one server whose enrollment is open.
use vps_panel.Prelude.{◌≡◌, ◌≢◌, refl, ◌≤◌, none, [], ◌∷◌, ok, arith, find_first}
use vps_panel.Prelude.Int.{pos}
use vps_panel.Prelude.Text.{Text, codes, text_eq, trim_space, trim_left, is_space}
use vps_panel.Prelude.Tables.{count_where}
use vps_panel.AgentMetadata.{
  Metadata, insert_unique, normalize_capabilities, normalize_metadata, text_before, unique_sorted,
  valid_metadata_identifier,
}
use vps_panel.AgentControl.{
  Agent, Db, Enrollment, authenticate_agent, idle, initial, new_agent, new_enrollment, pending,
  register_agent, register_with, registered,
}
use vps_panel.AgentControl.Enrolling.{register_agent-authenticate_agent, register_agent-single_use}

abbrev no_hash : Text → Text
no_hash t = t

abbrev metadata : Metadata
metadata = record {
  implementation = codes "singleton_agent";
  version = codes "1.2.0";
  api_version = pos 1;
  capabilities = codes "metrics" ∷ [];
}

abbrev enrollment : Enrollment
enrollment = new_enrollment 2 1 (codes "enrollment") initial 100

abbrev enrolled : Db
enrolled = record {
  servers =
      record {
        id = 1;
        status = pending;
        archived_at = none;
        decommissioning_at = none;
        decommission_status = idle;
        decommission_error = [];
        desired_version = 1;
        updated_at = 100;
      }
      ∷ [];
  agents = [];
  enrollments = enrollment ∷ [];
  next_id = 3;
}

abbrev first_db : Db
first_db = registered no_hash enrolled enrollment (codes "agent") metadata 200

abbrev first_agent : Agent
first_agent = new_agent no_hash enrolled 1 (codes "agent") metadata 200

first_time :
    register_agent no_hash enrolled (codes "enrollment") (codes "agent") metadata 200
    ≡ ok (first_db, first_agent)
unfolding register_agent register_with find_first count_where normalize_metadata
    normalize_capabilities unique_sorted insert_unique text_before text_eq trim_space trim_left
    is_space valid_metadata_identifier
first_time = refl

own_hash :
    count_where
      (λ (x : Enrollment). text_eq x.token_hash (no_hash (codes "enrollment")))
      enrolled.enrollments
    ≤ 1
unfolding count_where text_eq
own_hash = omega arith

register_agent-single_use_example :
    register_agent no_hash first_db (codes "enrollment") (codes "thief") metadata 300
    ≢ ok (first_db, first_agent)
register_agent-single_use_example =
    register_agent-single_use no_hash enrolled (codes "enrollment") (codes "agent") metadata 200
      own_hash first_time (codes "thief") metadata 300 (first_db, first_agent)

register_agent-authenticate_agent_example :
    authenticate_agent no_hash first_db (codes "agent") ≡ ok first_agent
register_agent-authenticate_agent_example =
    register_agent-authenticate_agent no_hash enrolled (codes "enrollment") (codes "agent") metadata
      200 tt refl first_time
