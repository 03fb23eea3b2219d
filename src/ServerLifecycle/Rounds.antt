-- ===== src/ServerLifecycle/Rounds.antt =====
-- panel/internal/server/lifecycle.go: from the request of a decommission to its end.
use vps_panel.Prelude.{
  ℕ, ◌≡◌, refl, subst, ap, Bool, true, false, ◌||◌, not, some, List, [], ◌∷◌, ◌==◌, find_first,
  arith, inl, inr, Result, ok, err, ◌>>=◌, >>=-eq-ok, ok-inj, past_guard, past_search, ==_refl, ◌≢◌,
  All,
}
use vps_panel.Prelude.Text.{Text, codes, text_eq}
use vps_panel.Prelude.Tables.{All-find_first, update_where, count_where, find_first-holds}
use vps_panel.Prelude.Counts.{
  All-delete_where-kept, count_where-delete_where, count_where-update_where-lost,
  count_where-update_where-same, find_first-update_where-hit,
}
use vps_panel.AgentControl.{
  Agent, Server, agent_of, authenticate_agent, is_authentic, is_live, is_none, is_server,
}
use vps_panel.AgentMetadata.{is_empty}
use vps_panel.ServerLifecycle.{
  Db, Error, Reconciled, reconciled_db, without_agent, affected_servers, archive_server, archived,
  bump_server, bump_servers, bumped, can_decommission, cleanup, decommissioned,
  finalize_decommission, finished, force_archive, is_active, is_idle, raise, request_decommission,
  requested_db,
}
use vps_panel.ServerLifecycle.Archived.{bump_server-shape}

bump_servers-count :
    (p : Server → Bool) (db : Db) (resource : ℕ) (ids : List ℕ) (now : ℕ)
    → ((x : Server) → p (raise now x) ≡ p x)
    → count_where p (bump_servers db resource ids now).0.core.servers
      ≡ count_where p db.core.servers
unfolding bump_servers bumped
bump_servers-count p db resource [] now same = refl
bump_servers-count p db resource (id ∷ ids) now same =
    let after = (bump_server db resource id now).0 in
    let rest = bump_servers-count p after resource ids now same in
    elim (bump_server-shape db resource id now) [
      | inl e ↦
          let kept = ap (λ (u : Db). count_where p u.core.servers) e in omega (arith, rest, kept)
      | inr (version, e) ↦
          let one =
            count_where-update_where-same p (is_active id) (raise now) same db.core.servers in
          let kept = ap (λ (u : Db). count_where p u.core.servers) e in
          omega (arith, rest, one, kept)
    ]

archive_server-count :
    (db : Db) (r : Reconciled) (id now : ℕ)
    → (after : Db) × (mutations : List (ℕ × ℕ)) × (archive_server (is_server id) db (ok r) id now
        ≡ ok (after, mutations))
      × (count_where (is_live id) after.core.servers ≡ 0)
      × (count_where (agent_of id) after.core.agents ≡ 0)
unfolding archive_server cleanup reconciled_db
archive_server-count db r id now =
    let marked : Db = record db {
      core = record db.core {
        servers = update_where (is_server id) (archived now) db.core.servers;
      };
    } in
    let cleaned = reconciled_db marked r id now in
    let bumps = bump_servers cleaned id (affected_servers marked r.servers id) now in
    let kept =
      bump_servers-count (is_live id) cleaned id (affected_servers marked r.servers id) now
        (λ x. refl) in
    let lost =
      count_where-update_where-lost (is_live id) (is_server id) (archived now) (λ x. ground arith)
        (λ x h. ground arith) db.core.servers in
    (
      without_agent bumps.0 id,
      bumps.1,
      refl,
      omega (arith, kept, lost),
      count_where-delete_where (agent_of id) bumps.0.core.agents,
    )

-- What a request leaves: the server's row, and the version that it waits for.
pub request_decommission-row :
    (db : Db) (id now : ℕ) {after : Db} {version : ℕ}
    → request_decommission db id now ≡ ok (after, version)
    → (s : Server) × (find_first (is_live id) after.core.servers ≡ some s)
      × (s.desired_version ≡ version)
      × (is_idle s.decommission_status ≡ false)
unfolding request_decommission requested_db
request_decommission-row db id now {after} {version} done =
    let (s, live, found) = past_search (find_first (is_live id) db.core.servers) _ _ done in
    let (idle, not_twice) = past_guard (not (is_idle s.decommission_status)) _ _ found in
    let (a, _, agent) = past_search (find_first (agent_of id) db.core.agents) _ _ not_twice in
    let (_, able) = past_guard (not (can_decommission a)) _ _ agent in
    let (_, same) = past_guard (not (count_where (is_active id) db.core.servers == 1)) _ _ able in
    let equal = ok-inj same in
    let holds = find_first-holds (is_live id) db.core.servers live in
    let row =
      find_first-update_where-hit (is_live id) (is_active id) (decommissioned now) (λ x. refl)
        db.core.servers live (ground arith) in
    (
      decommissioned now s,
      subst (λ (u : Db × ℕ). find_first (is_live id) u.0.core.servers ≡ some (decommissioned now s))
          equal row,
      ap (λ (u : Db × ℕ). u.1) equal,
      refl,
    )

-- Once a decommission is requested, the agent's report of success for its version archives the server,
-- if the subscribers are reconciled without an error, whatever else the tables hold: no row of the
-- server is live any more, and it has no agent. An error of the reconciliation is the error of the
-- report, which is rolled back then.
pub request_decommission-finalize :
    (db : Db) (id now : ℕ) {after : Db} {version : ℕ}
    → request_decommission db id now ≡ ok (after, version)
    → (r : Reconciled) (e : Error) (message : Text) (later : ℕ)
    → ((last : Db) × (mutations : List (ℕ × ℕ)) × (finalize_decommission after
            (ok r)
            id
            version
            (codes "success")
            message
            later
          ≡ ok (last, (true, mutations)))
        × (count_where (is_live id) last.core.servers ≡ 0)
        × (count_where (agent_of id) last.core.agents ≡ 0))
      × (finalize_decommission after (err e) id version (codes "success") message later ≡ err e)
unfolding finalize_decommission finished archive_server cleanup text_eq
request_decommission-finalize db id now {after} {version} done r e message later =
    let (s, live, awaited, busy) = request_decommission-row db id now done in
    let (last, mutations, archives, no_live, no_agent) = archive_server-count after r id later in
    let fits : not (version == s.desired_version) || is_idle s.decommission_status ≡ false =
      rw (awaited, busy, ==_refl version) refl in
    (
      (
        last,
        mutations,
        rw (live, fits, finalize_decommission)
            (ap (λ call. call >>= λ (u, m). ok (u, (true, m))) archives),
        no_live,
        no_agent,
      ),
      rw (live, fits, finalize_decommission) refl,
    )

-- A report for any other version changes nothing.
pub request_decommission-other :
    (db : Db) (id now : ℕ) {after : Db} {version : ℕ}
    → request_decommission db id now ≡ ok (after, version)
    → (reconciled : Result Error Reconciled) (other : ℕ) (status message : Text) (later : ℕ)
    → (other == version) ≡ false
    → finalize_decommission after reconciled id other status message later ≡ ok (after, (false, []))
unfolding finalize_decommission
request_decommission-other db id now {after} {version} done reconciled other status message later
      miss =
    let (s, live, awaited, busy) = request_decommission-row db id now done in
    let fits : not (other == s.desired_version) || is_idle s.decommission_status ≡ true =
      rw (awaited, miss) refl in
    rw (live, fits, finalize_decommission) refl

-- No agent of a server that was archived by force is let in.
pub force_archive-authenticate_agent :
    (hash : Text → Text) (db : Db) (reconciled : Result Error Reconciled) (id now : ℕ) {after : Db}
    {mutations : List (ℕ × ℕ)}
    → force_archive db reconciled id now ≡ ok (after, mutations)
    → (token : Text) (a : Agent) → authenticate_agent hash after.core token ≡ ok a
    → a.server_id ≢ id
unfolding force_archive authenticate_agent archive_server
force_archive-authenticate_agent hash db reconciled id now {after} {mutations} done token a in_
      its =
    let (_, same) = past_guard (is_none (find_first (is_live id) db.core.servers)) _ _ done in
    let marked : Db = record db {
      core = record db.core { servers = update_where (is_live id) (archived now) db.core.servers };
    } in
    let (cleaned, _, last) =
      >>=-eq-ok (cleanup marked reconciled id now) (λ (u, m). ok (without_agent u id, m)) same in
    let gone =
      subst (λ (u : Db × List (ℕ × ℕ)). All (λ x. agent_of id x ≡ false) u.0.core.agents)
        (ok-inj last) (All-delete_where-kept (agent_of id) cleaned.0.core.agents) in
    let (_, given) = past_guard (is_empty token) _ _ in_ in
    let (b, found, equal) =
      past_search (find_first (is_authentic hash after.core token) after.core.agents) _ _ given in
    let other =
      All-find_first (λ x. agent_of id x ≡ false) (is_authentic hash after.core token)
        after.core.agents found gone in
    let mine : b ≡ a = ok-inj equal in
    let other_id : agent_of id a ≡ false = subst (λ x. agent_of id x ≡ false) mine other in
    absurd (ground arith)
