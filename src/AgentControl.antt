-- ===== src/AgentControl.antt =====
-- panel/internal/agentcontrol: enrollment.go, registration.go; Connection has status.go. The tables `servers`, `agents` and
-- `agent_enrollments`, with the columns that these and server/lifecycle.go read or write. `hash` is SHA-256
-- in hexadecimal; a token that is made at random is an argument. One counter numbers the rows of all
-- the tables.
pub mod Connection
pub mod Enrolling
mod Tests
use vps_panel.Prelude.{
  ℕ, suc, ◌+◌, Bool, true, false, ◌&&◌, ◌||◌, not, Option, none, some, List, [], ◌∷◌, ◌++◌, ltb,
  leb, ◌==◌, if◌then◌else◌, find_first, length, Result, ok, err, ◌>>=◌,
}
use vps_panel.Prelude.Int.{ℤ, pos}
use vps_panel.Prelude.Text.{Text, codes, text_eq, trim_space}
use vps_panel.Prelude.Tables.{update_where, count_where, delete_where}
use vps_panel.AgentMetadata.{
  Metadata, is_empty, implementation_matches, normalize_capabilities, normalize_metadata,
}

pub data Error : Type 0 where
  invalid_enrollment invalid_agent_token invalid_agent_version : Error
  implementation_mismatch is_archived server_not_found : Error
  rejected : vps_panel.AgentMetadata.Error → Error

pub data Status : Type 0 where
  pending online offline : Status

-- decommission_status: empty, 'pending' or 'failed'
pub data Decommission : Type 0 where
  idle requested failed : Decommission

pub data Purpose : Type 0 where
  initial rebind : Purpose

pub record Server : Type 0 where
  pub id : ℕ
  pub status : Status
  pub archived_at : Option ℕ
  pub decommissioning_at : Option ℕ
  pub decommission_status : Decommission
  pub decommission_error : Text
  pub desired_version : ℕ
  pub updated_at : ℕ

pub record Agent : Type 0 where
  pub id : ℕ
  pub server_id : ℕ
  pub token_hash : Text
  pub implementation : Text
  pub version : Text
  pub api_version : ℤ
  pub capabilities : List Text
  pub last_seen_at : Option ℕ
  pub sync_pending : Bool
  pub upgrade_target : Text
  pub upgrade_status : Text
  pub upgrade_error : Text
  pub updated_at : ℕ

pub record Enrollment : Type 0 where
  pub id : ℕ
  pub server_id : ℕ
  pub token_hash : Text
  pub purpose : Purpose
  pub expires_at : ℕ
  pub used_at : Option ℕ

pub record Db : Type 0 where
  pub servers : List Server
  pub agents : List Agent
  pub enrollments : List Enrollment
  pub next_id : ℕ

abbrev pub is_none : {A : Type 0} → Option A → Bool
is_none none = true
is_none (some a) = false

abbrev pub is_server : ℕ → Server → Bool
is_server id s = s.id == id

abbrev pub is_live : ℕ → Server → Bool
is_live id s = s.id == id && is_none s.archived_at

abbrev pub agent_of : ℕ → Agent → Bool
agent_of server a = a.server_id == server

abbrev pub is_agent : ℕ → ℕ → Agent → Bool
is_agent id server a = a.id == id && a.server_id == server

-- server_id = ? AND used_at IS NULL
abbrev pub is_unused_of : ℕ → Enrollment → Bool
is_unused_of server e = e.server_id == server && is_none e.used_at

abbrev pub enrollment_lifetime : ℕ
enrollment_lifetime = 86400

-- NewEnrollment, for the server that it is inserted for
abbrev pub new_enrollment : ℕ → ℕ → Text → Purpose → ℕ → Enrollment
new_enrollment id server token_hash purpose now = record {
  id = id;
  server_id = server;
  token_hash = token_hash;
  purpose = purpose;
  expires_at = now + enrollment_lifetime;
  used_at = none;
}

-- Enrollment.Insert
unfoldable pub insert_enrollment : Db → ℕ → Text → Purpose → ℕ → Db
insert_enrollment db server token_hash purpose now = record db {
  enrollments = db.enrollments ++ (new_enrollment db.next_id server token_hash purpose now ∷ []);
  next_id = suc db.next_id;
}

-- RotateEnrollment
unfoldable pub rotate_enrollment : Db → ℕ → Text → ℕ → Db
unfolding insert_enrollment
rotate_enrollment db server token_hash now =
    let cleared : Db = record db {
      enrollments = delete_where (is_unused_of server) db.enrollments;
      agents = delete_where (agent_of server) db.agents;
      servers =
          update_where (is_server server) (λ s. record s { status = pending; updated_at = now })
            db.servers;
    } in
    insert_enrollment cleared server token_hash rebind now

abbrev pub metadata_error : {A : Type 0} → Result vps_panel.AgentMetadata.Error A → Result Error A
metadata_error (ok a) = ok a
metadata_error (err e) = err (rejected e)

module _ (hash : Text → Text) where
  -- token_hash = ? AND used_at IS NULL AND expires_at > ?
  abbrev pub is_open : Text → ℕ → Enrollment → Bool
  is_open token now e =
      text_eq e.token_hash (hash token) && is_none e.used_at && ltb now e.expires_at

  abbrev pub new_agent : Db → ℕ → Text → Metadata → ℕ → Agent
  new_agent db server token metadata now = record {
    id = db.next_id;
    server_id = server;
    token_hash = hash token;
    implementation = metadata.implementation;
    version = metadata.version;
    api_version = metadata.api_version;
    capabilities = metadata.capabilities;
    last_seen_at = none;
    sync_pending = true;
    upgrade_target = [];
    upgrade_status = [];
    upgrade_error = [];
    updated_at = now;
  }

  -- The statements of a registration, once its enrollment is found.
  unfoldable pub registered : Db → Enrollment → Text → Metadata → ℕ → Db
  registered db e token metadata now = record {
    servers =
        update_where (is_server e.server_id)
          (λ s. record s { status = offline; archived_at = none; updated_at = now }) db.servers;
    agents =
        delete_where (agent_of e.server_id) db.agents
        ++ (new_agent db e.server_id token metadata now ∷ []);
    enrollments =
        update_where (λ x. x.id == e.id && is_none x.used_at && ltb now x.expires_at)
          (λ x. record x { used_at = some now }) db.enrollments;
    next_id = suc db.next_id;
  }

  -- The part of RegisterAgentWithMetadata from the search for the enrollment on.
  unfoldable pub register_with : Db → Text → Text → Metadata → ℕ → Result Error (Db × Agent)
  unfolding registered
  register_with db enrollment_token token metadata now =
      elim (find_first (is_open enrollment_token now) db.enrollments) [
        | none ↦ err invalid_enrollment
        | some e ↦
            if not (
              count_where (λ x. x.id == e.id && is_none x.used_at && ltb now x.expires_at)
                db.enrollments
              == 1)
            then err invalid_enrollment
            else if not (count_where (is_server e.server_id) db.servers == 1)
            then err invalid_enrollment
            else ok
                (registered db e token metadata now, new_agent db e.server_id token metadata now)
      ]

  -- RegisterAgentWithMetadata; `token` is the agent's new token.
  unfoldable pub register_agent : Db → Text → Text → Metadata → ℕ → Result Error (Db × Agent)
  unfolding register_with
  register_agent db enrollment_token token metadata now =
      if is_empty enrollment_token
      then err invalid_enrollment
      else (metadata_error (normalize_metadata metadata) >>= λ m.
          if is_empty m.version
          then err invalid_agent_version
          else register_with db enrollment_token token m now)

  -- AuthenticateAgent: an agent of a server that is not archived.
  abbrev pub is_authentic : Db → Text → Agent → Bool
  is_authentic db token a =
      text_eq a.token_hash (hash token)
      && not (is_none (find_first (is_live a.server_id) db.servers))

  unfoldable pub authenticate_agent : Db → Text → Result Error Agent
  authenticate_agent db token =
      if is_empty token
      then err invalid_agent_token
      else elim (find_first (is_authentic db token) db.agents) [
        | none ↦ err invalid_agent_token
        | some a ↦ ok a
      ]
