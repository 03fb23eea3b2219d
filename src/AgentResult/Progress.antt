-- ===== src/AgentResult/Progress.antt =====
-- panel/internal/agentcontrol/result.go: the applied version of an agent only rises, and never past what
-- is desired of its server.
use vps_panel.Prelude.{
  ℕ, ◌≤◌, ◌<◌, ◌≡◌, sym, subst, Bool, true, none, some, List, arith, leb, find_first, All, ok,
  Bool-cases, Option-cases, inl, inr,
}
use vps_panel.Prelude.Int.{pos_part}
use vps_panel.Prelude.Tables.{All-update_where-turn, find_first-update_where}
use vps_panel.Operation.{is_success}
use vps_panel.Operation.History.{IsDone, record_receipt-IsDone}
use vps_panel.AgentResult.{
  Agent, ConfigResult, Db, Server, is_agent, is_live, noted, record_config_result, saved,
}

-- An agent's applied version against what is desired of its server.
abbrev pub is_behind : List Server → Agent → Bool
is_behind servers a = elim (find_first (is_live a.server_id) servers) [
  | none ↦ true
  | some s ↦ leb a.applied_version s.desired_version
]

abbrev pub AllBehind : Db → Type 0
AllBehind db = All (λ a. is_behind db.servers a ≡ true) db.agents

-- The branches of a result that is taken.
accepted :
    (db after : Db) (agent server : ℕ) (r : ConfigResult) (now : ℕ) (a : Agent)
    → find_first (is_agent agent server) db.agents ≡ some a
    → record_config_result db agent server r now ≡ ok after
    → a.applied_version ≤ pos_part r.version
    → (s : Server) × (find_first (is_live server) db.servers ≡ some s)
      × (pos_part r.version ≤ s.desired_version)
      × (saved db agent server r now ≡ after)
unfolding record_config_result
accepted db after agent server r now a found e newer =
    elim (Option-cases (find_first (is_live server) db.servers)) [
      | inl gone ↦ let f = rw (found, gone) at e in absurd (ground arith)
      | inr (s, live) ↦ let f = rw (found, live) at e in (s, live, ground arith, ground arith)
    ]

unchanged :
    (db after : Db) (agent server : ℕ) (r : ConfigResult) (now : ℕ) (a : Agent)
    → find_first (is_agent agent server) db.agents ≡ some a
    → record_config_result db agent server r now ≡ ok after
    → pos_part r.version < a.applied_version
    → db ≡ after
unfolding record_config_result
unchanged db after agent server r now a found e older =
    elim (Option-cases (find_first (is_live server) db.servers)) [
      | inl gone ↦ let f = rw (found, gone) at e in absurd (ground arith)
      | inr (s, live) ↦ let f = rw (found, live) at e in ground arith
    ]

noted-behind :
    (servers : List Server) (agent server : ℕ) (r : ConfigResult) (now : ℕ) (s : Server)
    → find_first (is_live server) servers ≡ some s
    → pos_part r.version ≤ s.desired_version
    → (x : Agent) → is_behind servers x ≡ true
    → is_agent agent server x ≡ true
    → is_behind servers (noted r now x) ≡ true
unfolding noted
noted-behind servers agent server r now s live le x behind hit =
    let own : x.server_id ≡ server = ground arith in
    let found : find_first (is_live x.server_id) servers ≡ some s =
      subst (λ i. find_first (is_live i) servers ≡ some s) (sym own) live in
    let bound : leb x.applied_version s.desired_version ≡ true = rw (found, is_behind) at behind in
    elim (Bool-cases (is_success r.status)) [
      | inl good ↦ rw (good, found, is_behind) (ground arith)
      | inr bad ↦ rw (bad, found, is_behind) (ground arith)
    ]

-- Where no agent's applied version is past what is desired of its server, none is after a result that
-- is taken.
pub record_config_result-AllBehind :
    (db after : Db) (agent server : ℕ) (r : ConfigResult) (now : ℕ)
    → AllBehind db
    → record_config_result db agent server r now ≡ ok after
    → AllBehind after
unfolding record_config_result saved
record_config_result-AllBehind db after agent server r now h e =
    elim (Option-cases (find_first (is_agent agent server) db.agents)) [
      | inl unknown ↦ let f = rw unknown at e in absurd (ground arith)
      | inr (a, found) ↦ elim (Bool-cases (leb a.applied_version (pos_part r.version))) [
        | inl newer ↦
            let (s, live, le, same) =
              accepted db after agent server r now a found e (ground arith) in
            subst AllBehind same (
              All-update_where-turn (λ x. is_behind db.servers x ≡ true)
                (λ x. is_behind db.servers x ≡ true) (is_agent agent server) (noted r now)
                (noted-behind db.servers agent server r now s live le) (λ x behind miss. behind)
                db.agents h)
        | inr older ↦
            subst AllBehind (unchanged db after agent server r now a found e (ground arith)) h
      ]
    ]

-- After a result of success that is taken for a version not older than the applied one, the agent has
-- applied exactly that version, and each operation of its server up to it is applied or superseded.
pub record_config_result-settles :
    (db after : Db) (agent server : ℕ) (r : ConfigResult) (now : ℕ) (a : Agent)
    → find_first (is_agent agent server) db.agents ≡ some a
    → is_success r.status ≡ true
    → a.applied_version ≤ pos_part r.version
    → record_config_result db agent server r now ≡ ok after
    → (b : Agent) × (find_first (is_agent agent server) after.agents ≡ some b)
      × (b.applied_version ≡ pos_part r.version)
      × All (IsDone server (pos_part r.version)) after.log.operations
unfolding saved noted
record_config_result-settles db after agent server r now a found good newer e =
    let (s, live, le, same) = accepted db after agent server r now a found e newer in
    let read =
      find_first-update_where (is_agent agent server) (noted r now) (λ x p. rw good p) db.agents
        found in
    let settled =
      record_receipt-IsDone db.log server (pos_part r.version) r.status r.message now good in
    subst
      (λ d.
        (b : Agent) × (find_first (is_agent agent server) d.agents ≡ some b)
        × (b.applied_version ≡ pos_part r.version)
        × All (IsDone server (pos_part r.version)) d.log.operations)
      same (noted r now a, read, rw good (omega (arith, newer)), settled)
