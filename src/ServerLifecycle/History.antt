-- ===== src/ServerLifecycle/History.antt =====
-- panel/internal/server/lifecycle.go, panel/internal/agentcontrol: any sequence of the transactions on servers,
-- agents and enrollments.
use vps_panel.Prelude.{ℕ, ◌≡◌, Bool, List, Result, ok}
use vps_panel.Prelude.Text.{Text}
use vps_panel.AgentMetadata.{Metadata}
use vps_panel.AgentControl.{Agent, register_agent}
use vps_panel.AgentControl.Connection.{
  reset_online, set_agent_connected_metadata, set_agent_connected_version, set_agent_offline,
  set_agent_online, touch_agent,
}
use vps_panel.ServerLifecycle.{
  Db, Error, Reconciled, create_enrollment, create_server, finalize_decommission, force_archive,
  request_decommission,
}
use vps_panel.ServerLifecycle.Sound.{IsSound}
use vps_panel.ServerLifecycle.Connected.{
  reset_online-IsSound, set_agent_connected_metadata-IsSound, set_agent_connected_version-IsSound,
  set_agent_offline-IsSound, set_agent_online-IsSound, touch_agent-IsSound,
}
use vps_panel.ServerLifecycle.Enrolled.{
  create_enrollment-IsSound, create_server-IsSound, register_agent-IsSound,
}
use vps_panel.ServerLifecycle.Archived.{
  finalize_decommission-IsSound, force_archive-IsSound, request_decommission-IsSound,
}

module _ (hash : Text → Text) where
  -- One transaction that is committed. What fails is rolled back, and is no step.
  pub data Step : Db → Db → Type 0 where
    creates : (db : Db) (token_hash : Text) (now : ℕ) → Step db (create_server db token_hash now).0
    enrolls :
        (db after : Db) (id : ℕ) (token_hash : Text) (now : ℕ)
        → create_enrollment db id token_hash now ≡ ok after
        → Step db after
    registers :
        (db : Db) (enrollment_token token : Text) (m : Metadata) (now : ℕ)
        (after : vps_panel.AgentControl.Db) (a : Agent)
        → register_agent hash db.core enrollment_token token m now ≡ ok (after, a)
        → Step db (record db { core = after })
    connects :
        (db : Db) (agent server : ℕ) (m : Metadata) (now : ℕ) (after : vps_panel.AgentControl.Db)
        → set_agent_connected_metadata db.core agent server m now ≡ ok after
        → Step db (record db { core = after })
    connects_by_version :
        (db : Db) (agent server : ℕ) (version : Text) (now : ℕ) (after : vps_panel.AgentControl.Db)
        → set_agent_connected_version db.core agent server version now ≡ ok after
        → Step db (record db { core = after })
    touches :
        (db : Db) (agent server now : ℕ) (after : vps_panel.AgentControl.Db)
        → touch_agent db.core agent server now ≡ ok after
        → Step db (record db { core = after })
    comes_online :
        (db : Db) (server now : ℕ) (after : vps_panel.AgentControl.Db)
        → set_agent_online db.core server now ≡ ok after
        → Step db (record db { core = after })
    goes_offline :
        (db : Db) (server now : ℕ) (after : vps_panel.AgentControl.Db)
        → set_agent_offline db.core server now ≡ ok after
        → Step db (record db { core = after })
    resets : (db : Db) (now : ℕ) → Step db (record db { core = reset_online db.core now })
    requests :
        (db after : Db) (id version now : ℕ)
        → request_decommission db id now ≡ ok (after, version)
        → Step db after
    finalizes :
        (db after : Db) (reconciled : Result Error Reconciled) (id version : ℕ)
        (status message : Text) (now : ℕ) (is_archived : Bool) (mutations : List (ℕ × ℕ))
        → finalize_decommission db reconciled id version status message now
          ≡ ok (after, (is_archived, mutations))
        → Step db after
    forces :
        (db after : Db) (reconciled : Result Error Reconciled) (id now : ℕ)
        (mutations : List (ℕ × ℕ))
        → force_archive db reconciled id now ≡ ok (after, mutations)
        → Step db after

  pub data Reach (db : Db) : Db → Type 0 where
    here : Reach db db
    next : {t u : Db} → Reach db t → Step t u → Reach db u

  Step-IsSound : {t u : Db} → Step t u → IsSound t.core → IsSound u.core
  Step-IsSound (creates db token_hash now) = create_server-IsSound db token_hash now
  Step-IsSound (enrolls db after id token_hash now e) =
      create_enrollment-IsSound db id token_hash now e
  Step-IsSound (registers db enrollment_token token m now after a e) =
      register_agent-IsSound hash db.core enrollment_token token m now e
  Step-IsSound (connects db agent server m now after e) =
      set_agent_connected_metadata-IsSound db.core agent server m now e
  Step-IsSound (connects_by_version db agent server version now after e) =
      set_agent_connected_version-IsSound db.core agent server version now e
  Step-IsSound (touches db agent server now after e) =
      touch_agent-IsSound db.core agent server now e
  Step-IsSound (comes_online db server now after e) = set_agent_online-IsSound db.core server now e
  Step-IsSound (goes_offline db server now after e) = set_agent_offline-IsSound db.core server now e
  Step-IsSound (resets db now) = reset_online-IsSound db.core now
  Step-IsSound (requests db after id version now e) = request_decommission-IsSound db id now e
  Step-IsSound
        (finalizes db after reconciled id version status message now is_archived mutations e) =
      finalize_decommission-IsSound db reconciled id version status message now e
  Step-IsSound (forces db after reconciled id now mutations e) =
      force_archive-IsSound db reconciled id now e

  -- After any transactions on sound tables: ids are a server's own, a server has one agent at most, an
  -- archived server none, and a server that is being decommissioned is not archived and has no open
  -- enrollment.
  pub Reach-IsSound : {s t : Db} → IsSound s.core → Reach s t → IsSound t.core
  Reach-IsSound sound here = sound
  Reach-IsSound sound (next before step) = Step-IsSound step (Reach-IsSound sound before)
