-- ===== src/AgentResult/Tests.antt =====
-- The theorems on results of agents at a concrete server, whose version 4 is desired and whose agent has
-- applied version 2.
use vps_panel.Prelude.{◌≡◌, refl, true, false, none, some, [], ◌∷◌, All, find_first, ok, arith}
use vps_panel.Prelude.Int.{pos}
use vps_panel.Prelude.Text.{codes, text_eq}
use vps_panel.Operation.{Operation, is_success, sent}
use vps_panel.Operation.History.{IsDone}
use vps_panel.AgentResult.{
  Agent, ConfigResult, Db, is_agent, is_valid_result, pending, record_config_result, saved,
}
use vps_panel.AgentResult.Progress.{
  AllBehind, record_config_result-AllBehind, record_config_result-settles,
}

abbrev agent : Agent
agent = record {
  id = 7;
  server_id = 1;
  applied_version = 2;
  sync_status = pending;
  sync_error = [];
  synced_at = some 90;
  updated_at = 100;
}

abbrev change : Operation
change = record {
  id = 1;
  server_id = 1;
  resource_type = codes "relay";
  resource_id = 6;
  action = codes "create";
  version = 3;
  status = sent;
  error = [];
  created_at = 95;
  updated_at = 100;
  applied_at = none;
}

abbrev db : Db
db = record {
  agents = agent ∷ [];
  servers = record { id = 1; archived = false; desired_version = 4 } ∷ [];
  log = record { operations = change ∷ []; next_id = 2 };
}

abbrev result : ConfigResult
result = record { version = pos 3; status = codes "success"; message = [] }

agent-found : find_first (is_agent 7 1) db.agents ≡ some agent
unfolding find_first
agent-found = refl

is_good : is_success result.status ≡ true
unfolding text_eq
is_good = refl

taken : record_config_result db 7 1 result 110 ≡ ok (saved db 7 1 result 110)
unfolding record_config_result is_valid_result find_first text_eq
taken = refl

db-AllBehind : AllBehind db
unfolding find_first
db-AllBehind = (refl, tt)

record_config_result-AllBehind_example : AllBehind (saved db 7 1 result 110)
record_config_result-AllBehind_example =
    record_config_result-AllBehind db (saved db 7 1 result 110) 7 1 result 110 db-AllBehind taken

record_config_result-settles_example :
    (b : Agent) × (find_first (is_agent 7 1) (saved db 7 1 result 110).agents ≡ some b)
    × (b.applied_version ≡ 3)
    × All (IsDone 1 3) (saved db 7 1 result 110).log.operations
record_config_result-settles_example =
    record_config_result-settles db (saved db 7 1 result 110) 7 1 result 110 agent agent-found
      is_good (omega arith) taken
