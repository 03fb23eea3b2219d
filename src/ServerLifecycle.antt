-- ===== src/ServerLifecycle.antt =====
-- panel/internal/server/lifecycle.go and enrollment.go: a server is enrolled, decommissioned and archived.
-- The subscribers whose clients stood on the server are reconciled by
-- panel/internal/subscription/subscriber.go, which is not modelled: what it does to these tables is the
-- argument `reconciled`, the rows of `clients` that it leaves and the servers that it names, or its error.
pub mod Sound
pub mod Connected
pub mod Enrolled
pub mod Archived
pub mod History
pub mod Rounds
mod Tests
use vps_panel.Prelude.{
  ℕ, suc, ◌+◌, Bool, true, false, ◌&&◌, ◌||◌, not, Option, none, some, List, [], ◌∷◌, ◌++◌, ltb,
  leb, ◌==◌, if◌then◌else◌, find_first, keep, Result, ok, err, ◌>>=◌,
}
use vps_panel.Prelude.Text.{Text, codes, text_eq, trim_space}
use vps_panel.Prelude.Tables.{update_where, count_where, delete_where}
use vps_panel.AgentMetadata.{Metadata, declares_capability}
use vps_panel.AgentControl.{
  Agent, Decommission, Enrollment, Server, Status, agent_of, failed, idle, initial,
  insert_enrollment, is_live, is_none, is_server, is_unused_of, offline, pending, requested,
  rotate_enrollment,
}
use vps_panel.Operation.{record_operation, is_success}
use vps_panel.ServerDependencies.{Client, crossing_servers, disable_dependencies}

pub data Error : Type 0 where
  not_found decommissioning agent_not_registered decommission_unsupported : Error
  subscriber_not_found server_not_distributable reconciliation_failed : Error

pub record Db : Type 0 where
  pub core : vps_panel.AgentControl.Db
  pub log : vps_panel.Operation.Db
  pub dependencies : vps_panel.ServerDependencies.Db

-- What ReconcilePublishedNodesSubscribersTx and ReconcileServerSubscribersTx leave of `clients`, and the
-- servers that they name.
pub record Reconciled : Type 0 where
  pub clients : List Client
  pub servers : List ℕ

abbrev pub is_idle : Decommission → Bool
is_idle idle = true
is_idle _ = false

-- archived_at IS NULL AND decommission_status = ''
abbrev pub is_active : ℕ → Server → Bool
is_active id s = is_live id s && is_idle s.decommission_status

abbrev pub created : ℕ → ℕ → Server
created id now = record {
  id = id;
  status = pending;
  archived_at = none;
  decommissioning_at = none;
  decommission_status = idle;
  decommission_error = [];
  desired_version = 1;
  updated_at = now;
}

-- The part of CreateWithSettings that writes these tables, and the new server's id.
unfoldable pub create_server : Db → Text → ℕ → Db × ℕ
unfolding insert_enrollment
create_server db token_hash now =
    let id = db.core.next_id in
    let inserted = record db.core {
      servers = db.core.servers ++ (created id now ∷ []);
      next_id = suc id;
    } in
    (record db { core = insert_enrollment inserted id token_hash initial now }, id)

-- CreateEnrollment; `token_hash` is of the new token.
unfoldable pub create_enrollment : Db → ℕ → Text → ℕ → Result Error Db
unfolding rotate_enrollment
create_enrollment db id token_hash now = elim (find_first (is_server id) db.core.servers) [
  | none ↦ err not_found
  | some s ↦
      if not (is_idle s.decommission_status)
      then err decommissioning
      else ok (record db { core = rotate_enrollment db.core id token_hash now })
]

abbrev pub metadata_of : Agent → Metadata
metadata_of a = record {
  implementation = a.implementation;
  version = a.version;
  api_version = a.api_version;
  capabilities = a.capabilities;
}

unfoldable pub can_decommission : Agent → Bool
unfolding declares_capability
can_decommission a =
    declares_capability (metadata_of a) (codes "managed_runtime_purge")
    && declares_capability (metadata_of a) (codes "self_decommission")

-- desired_state_version + 1, and the agent's configuration pending again
abbrev pub raise : ℕ → Server → Server
raise now s = record s { desired_version = suc s.desired_version; updated_at = now }

abbrev pub unsynced : ℕ → Agent → Agent
unsynced now a = record a { sync_pending = true; updated_at = now }

abbrev pub decommissioned : ℕ → Server → Server
decommissioned now s = record (raise now s) {
  decommissioning_at = some now;
  decommission_status = requested;
  decommission_error = [];
}

-- The statements of RequestDecommission, once its guards hold.
unfoldable pub requested_db : Db → ℕ → ℕ → ℕ → Db
unfolding record_operation
requested_db db id version now = record db {
  core = record db.core {
    servers = update_where (is_active id) (decommissioned now) db.core.servers;
    agents = update_where (agent_of id) (unsynced now) db.core.agents;
    enrollments = delete_where (is_unused_of id) db.core.enrollments;
  };
  log = record_operation db.log id (codes "server") id (codes "update") version now;
}

-- RequestDecommission, with the version that the agent will report.
unfoldable pub request_decommission : Db → ℕ → ℕ → Result Error (Db × ℕ)
unfolding requested_db can_decommission
request_decommission db id now = elim (find_first (is_live id) db.core.servers) [
  | none ↦ err not_found
  | some s ↦
      if not (is_idle s.decommission_status)
      then err decommissioning
      else elim (find_first (agent_of id) db.core.agents) [
        | none ↦ err agent_not_registered
        | some a ↦
            if not (can_decommission a)
            then err decommission_unsupported
            else if not (count_where (is_active id) db.core.servers == 1)
            then err decommissioning
            else ok (requested_db db id (suc s.desired_version) now, suc s.desired_version)
      ]
]

-- The keys of a map, sorted.
abbrev pub insert_id : ℕ → List ℕ → List ℕ
insert_id n [] = n ∷ []
insert_id n (m ∷ ms) =
    let rest = insert_id n ms in if n == m then m ∷ ms else if ltb n m then n ∷ m ∷ ms else m ∷ rest

abbrev pub sorted_ids : List ℕ → List ℕ
sorted_ids [] = []
sorted_ids (n ∷ ns) = insert_id n (sorted_ids ns)

-- The statements of a round of bumpDependencyServersTx, for the server's new version.
unfoldable pub bumped : Db → ℕ → ℕ → ℕ → ℕ → Db
unfolding record_operation
bumped db resource id version now = record db {
  core = record db.core {
    servers = update_where (is_active id) (raise now) db.core.servers;
    agents = update_where (agent_of id) (unsynced now) db.core.agents;
  };
  log = record_operation db.log id (codes "server") resource (codes "reconcile") version now;
}

-- One round: nothing for a server that is archived or on its way there.
unfoldable pub bump_server : Db → ℕ → ℕ → ℕ → Db × List (ℕ × ℕ)
unfolding bumped
bump_server db resource id now = elim (find_first (is_active id) db.core.servers) [
  | none ↦ (db, [])
  | some s ↦ (bumped db resource id (suc s.desired_version) now, (id, suc s.desired_version) ∷ [])
]

unfoldable pub bump_servers : Db → ℕ → List ℕ → ℕ → Db × List (ℕ × ℕ)
unfolding bump_server
bump_servers db resource [] now = (db, [])
bump_servers db resource (id ∷ ids) now =
    let (bumped, first) = bump_server db resource id now in
    let (after, rest) = bump_servers bumped resource ids now in (after, first ++ rest)

-- The other servers that lose something, in the order of their ids.
unfoldable pub affected_servers : Db → List ℕ → ℕ → List ℕ
unfolding crossing_servers keep
affected_servers db reconciled id =
    let active = λ (server : ℕ). not (is_none (find_first (is_active server) db.core.servers)) in
    let crossing = crossing_servers db.dependencies active id in
    keep (λ n. not (n == id)) (sorted_ids (crossing ++ reconciled))

-- The tables that a reconciliation without an error leaves
unfoldable pub reconciled_db : Db → Reconciled → ℕ → ℕ → Db
unfolding disable_dependencies
reconciled_db db r id now = record db {
  dependencies = record (disable_dependencies db.dependencies id now) { clients = r.clients };
}

-- cleanupArchivedDependenciesTx, with the mutations to send
unfoldable pub cleanup : Db → Result Error Reconciled → ℕ → ℕ → Result Error (Db × List (ℕ × ℕ))
unfolding bump_servers reconciled_db affected_servers
cleanup db reconciled id now = reconciled >>= λ r.
    ok (bump_servers (reconciled_db db r id now) id (affected_servers db r.servers id) now)

abbrev pub archived : ℕ → Server → Server
archived now s = record s {
  status = offline;
  archived_at = some now;
  decommissioning_at = none;
  decommission_status = idle;
  decommission_error = [];
  updated_at = now;
}

abbrev pub without_agent : Db → ℕ → Db
without_agent db id = record db {
  core = record db.core {
    agents = delete_where (agent_of id) db.core.agents;
    enrollments = delete_where (is_unused_of id) db.core.enrollments;
  };
}

-- The archive of the rows that the condition picks, the cleanup, and the end of the server's agent and of
-- its open enrollments.
unfoldable pub archive_server :
    (Server → Bool) → Db → Result Error Reconciled → ℕ → ℕ → Result Error (Db × List (ℕ × ℕ))
unfolding cleanup
archive_server is_it db reconciled id now =
    let marked = record db {
      core = record db.core { servers = update_where is_it (archived now) db.core.servers };
    } in
    cleanup marked reconciled id now >>= λ (cleaned, mutations).
    ok (without_agent cleaned id, mutations)

unfoldable pub decommission_public_error : Text → Text
decommission_public_error message =
    if text_eq (trim_space message) (codes "Agent self-uninstall launch failed")
    then codes "Agent self-uninstall launch failed"
    else codes "managed runtime purge failed"

abbrev pub is_failure : Text → Bool
is_failure status = text_eq status (codes "failed")

abbrev pub purge_failed : Text → ℕ → Server → Server
purge_failed message now s = record s {
  decommission_status = failed;
  decommission_error = decommission_public_error message;
  updated_at = now;
}

unfoldable pub failed_db : Db → ℕ → Text → ℕ → Db
failed_db db id message now = record db {
  core = record db.core {
    servers = update_where (is_server id) (purge_failed message now) db.core.servers;
  };
}

-- The part of FinalizeDecommissionWithMutations behind its guards, by the status that the agent reports.
unfoldable pub finished :
    Db → Result Error Reconciled → ℕ → Text → Text → ℕ → Result Error (Db × (Bool × List (ℕ × ℕ)))
unfolding failed_db archive_server
finished db reconciled id status message now =
    if is_failure status
    then ok (failed_db db id message now, (false, []))
    else if not (is_success status)
    then ok (db, (false, []))
    else (archive_server (is_server id) db reconciled id now >>= λ (after, mutations).
        ok (after, (true, mutations)))

-- FinalizeDecommissionWithMutations: whether the server was archived, and the mutations.
unfoldable pub finalize_decommission :
    Db
    → Result Error Reconciled
    → ℕ
    → ℕ
    → Text
    → Text
    → ℕ
    → Result Error (Db × (Bool × List (ℕ × ℕ)))
unfolding finished
finalize_decommission db reconciled id version status message now =
    elim (find_first (is_live id) db.core.servers) [
      | none ↦ err not_found
      | some s ↦
          if not (version == s.desired_version) || is_idle s.decommission_status
          then ok (db, (false, []))
          else finished db reconciled id status message now
    ]

-- ForceArchiveWithMutations
unfoldable pub force_archive :
    Db → Result Error Reconciled → ℕ → ℕ → Result Error (Db × List (ℕ × ℕ))
unfolding archive_server
force_archive db reconciled id now =
    if is_none (find_first (is_live id) db.core.servers)
    then err not_found
    else archive_server (is_live id) db reconciled id now
