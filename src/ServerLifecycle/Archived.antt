-- ===== src/ServerLifecycle/Archived.antt =====
-- panel/internal/server/lifecycle.go: a server's way out leaves the tables sound.
use vps_panel.Prelude.{
  ℕ, suc, ◌≡◌, refl, subst, Bool, true, false, ◌||◌, not, some, List, [], ◌∷◌, ◌==◌, find_first,
  arith, Bool-cases, Option-cases, inl, inr, Result, ok, ◌⊎◌, ok-inj, >>=-eq-ok, past_guard,
  past_search,
}
use vps_panel.Prelude.Text.{Text}
use vps_panel.Prelude.Tables.{
  update_where, count_where, delete_where, find_first-holds, delete_where-update_where,
}
use vps_panel.Prelude.Counts.{
  All-both, count_where-delete_where, count_where-delete_where-le, count_where-update_where-same,
}
use vps_panel.AgentControl.{Server, agent_of, is_live, is_none, is_server, is_unused_of}
use vps_panel.ServerLifecycle.{
  Db, Error, Reconciled, reconciled_db, affected_servers, archive_server, archived, bump_server,
  bumped, bump_servers, can_decommission, cleanup, decommissioned, failed_db, finalize_decommission,
  finished, force_archive, is_active, is_failure, is_idle, purge_failed, raise,
  request_decommission, requested_db, unsynced, without_agent,
}
use vps_panel.Operation.{is_success}
use vps_panel.ServerLifecycle.Sound.{
  IsCalm, IsCalmUpdate, IsSound, Settled, Settled-IsCalm, calm-IsSound, known_row, IsSound-update,
}

raise-IsCalmUpdate : (now : ℕ) → IsCalmUpdate (raise now)
raise-IsCalmUpdate now = record {
  same_id = λ x. refl;
  same_archived = λ x. refl;
  same_idle = λ x. refl;
}

-- What a round leaves.
pub bump_server-shape :
    (db : Db) (resource id now : ℕ)
    → ((bump_server db resource id now).0 ≡ db)
      ⊎ ((version : ℕ) × ((bump_server db resource id now).0 ≡ bumped db resource id version now))
unfolding bump_server
bump_server-shape db resource id now =
    elim (Option-cases (find_first (is_active id) db.core.servers)) [
      | inl e ↦ inl (rw (e, bump_server) refl)
      | inr (s, e) ↦ inr (suc s.desired_version, rw (e, bump_server) refl)
    ]

-- The rounds of the cleanup, seen as they are once the archived server's agent is gone.
bumped-IsSound :
    (db : Db) (resource gone id version now : ℕ)
    → IsSound (without_agent db gone).core
    → IsSound (without_agent (bumped db resource id version now) gone).core
unfolding bumped
bumped-IsSound db resource gone id version now sound =
    let agents =
      delete_where-update_where (agent_of gone) (agent_of id) (unsynced now) (λ x. refl)
        db.core.agents in
    calm-IsSound (without_agent db gone).core _ (is_active id) (raise now) (raise-IsCalmUpdate now)
      refl
      (record {
        later = omega arith;
        agents_le = λ n.
            let same =
              count_where-update_where-same (agent_of n) (agent_of id) (unsynced now) (λ x. refl)
                (delete_where (agent_of gone) db.core.agents) in
            rw (agents, same) (omega arith);
        enrollments_le = λ n. omega arith;
      })
      sound

bump_servers-IsSound :
    (db : Db) (resource gone : ℕ) (ids : List ℕ) (now : ℕ)
    → IsSound (without_agent db gone).core
    → IsSound (without_agent (bump_servers db resource ids now).0 gone).core
unfolding bump_servers
bump_servers-IsSound db resource gone [] now sound = sound
bump_servers-IsSound db resource gone (id ∷ ids) now sound =
    let after = (bump_server db resource id now).0 in
    let one_round : IsSound (without_agent after gone).core =
      elim (bump_server-shape db resource id now) [
        | inl same ↦ rw same sound
        | inr (version, same) ↦ rw same (bumped-IsSound db resource gone id version now sound)
      ] in
    bump_servers-IsSound after resource gone ids now one_round

cleanup-IsSound :
    (db : Db) (reconciled : Result Error Reconciled) (id now : ℕ) {after : Db × List (ℕ × ℕ)}
    → cleanup db reconciled id now ≡ ok after
    → IsSound (without_agent db id).core
    → IsSound (without_agent after.0 id).core
unfolding cleanup reconciled_db
cleanup-IsSound db reconciled id now done sound =
    let (r, _, same) = >>=-eq-ok reconciled _ done in
    subst (λ (u : Db × List (ℕ × ℕ)). IsSound (without_agent u.0 id).core) (ok-inj same)
      (bump_servers-IsSound (reconciled_db db r id now) id id (affected_servers db r.servers id) now
        sound)

-- The enrollments and agents that go with the server's own.
without_IsCalm : (db : Db) (id : ℕ) → IsCalm db.core (without_agent db id).core
without_IsCalm db id = record {
  later = omega arith;
  agents_le = λ n. count_where-delete_where-le (agent_of n) (agent_of id) db.core.agents;
  enrollments_le =
      λ n. count_where-delete_where-le (is_unused_of n) (is_unused_of id) db.core.enrollments;
}

pub archive_server-IsSound :
    (is_it : Server → Bool) (db : Db) (reconciled : Result Error Reconciled) (id now : ℕ)
    {after : Db × List (ℕ × ℕ)}
    → archive_server is_it db reconciled id now ≡ ok after
    → ((x : Server) → is_it x ≡ true → is_server id x ≡ true)
    → IsSound db.core
    → IsSound after.0.core
unfolding archive_server
archive_server-IsSound is_it db reconciled id now {after} done its_id sound =
    let marked : Db = record db {
      core = record db.core { servers = update_where is_it (archived now) db.core.servers };
    } in
    let calm = without_IsCalm db id in
    let (cleaned, clean, same) = >>=-eq-ok (cleanup marked reconciled id now) _ done in
    subst (λ (u : Db × List (ℕ × ℕ)). IsSound u.0.core) (ok-inj same)
      (cleanup-IsSound marked reconciled id now clean (
        IsSound-update db.core (without_agent marked id).core is_it (archived now) (Settled db.core)
          (λ x. refl) refl (omega arith)
          (λ n. let one = sound.one_agent n in let le = calm.agents_le n in omega (arith, one, le))
          (λ x settled here.
            let same_id = its_id x here in
            let its : id ≡ x.id = ground arith in
            let zero =
              subst (λ k. count_where (agent_of k) (delete_where (agent_of id) db.core.agents) ≡ 0)
                its (count_where-delete_where (agent_of id) db.core.agents) in
            (λ h. zero, λ h. cc, λ h. cc))
          (λ x settled miss.
            Settled-IsCalm {db = db.core} {after = (without_agent marked id).core}
              (record {
                later = omega arith;
                agents_le = calm.agents_le;
                enrollments_le = calm.enrollments_le;
              })
              x settled)
          sound.settled sound))

requested_db-IsSound :
    (db : Db) (id version now : ℕ) → IsSound db.core → IsSound (requested_db db id version now).core
unfolding requested_db
requested_db-IsSound db id version now sound =
    let after = requested_db db id version now in
    let calm : IsCalm db.core after.core = record {
      later = omega arith;
      agents_le = λ n.
          let same =
            count_where-update_where-same (agent_of n) (agent_of id) (unsynced now) (λ x. refl)
              db.core.agents in
          omega (arith, same);
      enrollments_le =
          λ n. count_where-delete_where-le (is_unused_of n) (is_unused_of id) db.core.enrollments;
    } in
    IsSound-update db.core after.core (is_active id) (decommissioned now) (Settled db.core)
      (λ x. refl) refl (omega arith)
      (λ n. let one = sound.one_agent n in let le = calm.agents_le n in omega (arith, one, le))
      (λ x settled here.
        let its : id ≡ x.id = ground arith in
        let live : is_none x.archived_at ≡ true = ground arith in
        let zero =
          subst
            (λ k.
              count_where (is_unused_of k) (delete_where (is_unused_of id) db.core.enrollments) ≡ 0)
            its (count_where-delete_where (is_unused_of id) db.core.enrollments) in
        (λ h. absurd (ground arith), λ h. live, λ h. zero))
      (λ x settled miss. Settled-IsCalm {db = db.core} {after = after.core} calm x settled)
      sound.settled sound

pub request_decommission-IsSound :
    (db : Db) (id now : ℕ) {after : Db × ℕ}
    → request_decommission db id now ≡ ok after
    → IsSound db.core
    → IsSound after.0.core
unfolding request_decommission
request_decommission-IsSound db id now {after} done sound =
    let (s, _, found) = past_search (find_first (is_live id) db.core.servers) _ _ done in
    let (_, idle) = past_guard (not (is_idle s.decommission_status)) _ _ found in
    let (a, _, agent) = past_search (find_first (agent_of id) db.core.agents) _ _ idle in
    let (_, able) = past_guard (not (can_decommission a)) _ _ agent in
    let (_, same) = past_guard (not (count_where (is_active id) db.core.servers == 1)) _ _ able in
    subst (λ (u : Db × ℕ). IsSound u.0.core) (ok-inj same)
      (requested_db-IsSound db id (suc s.desired_version) now sound)

pub force_archive-IsSound :
    (db : Db) (reconciled : Result Error Reconciled) (id now : ℕ) {after : Db × List (ℕ × ℕ)}
    → force_archive db reconciled id now ≡ ok after
    → IsSound db.core
    → IsSound after.0.core
unfolding force_archive
force_archive-IsSound db reconciled id now {after} done sound =
    let (_, same) = past_guard (is_none (find_first (is_live id) db.core.servers)) _ _ done in
    archive_server-IsSound (is_live id) db reconciled id now same (λ x h. ground arith) sound

failed_db-IsSound :
    (db : Db) (id : ℕ) (message : Text) (now : ℕ) (s : Server)
    → find_first (is_live id) db.core.servers ≡ some s
    → is_idle s.decommission_status ≡ false
    → IsSound db.core
    → IsSound (failed_db db id message now).core
unfolding failed_db
failed_db-IsSound db id message now s found busy sound =
    let live = find_first-holds (is_live id) db.core.servers found in
    let rows =
      known_row db.core id (is_live id) (λ x. is_idle x.decommission_status ≡ false) found
        (ground arith) busy sound in
    IsSound-update db.core (failed_db db id message now).core (is_server id)
      (purge_failed message now)
      (λ x. Settled db.core x × (is_server id x ≡ true → is_idle x.decommission_status ≡ false))
      (λ x. refl) refl (omega arith) sound.one_agent
      (λ x (settled, busy_row) here.
        (settled.0, λ h. settled.1 (busy_row here), λ h. settled.2 (busy_row here)))
      (λ x (settled, busy_row) miss. settled) (All-both _ _ db.core.servers sound.settled rows)
      sound

finished-IsSound :
    (db : Db) (reconciled : Result Error Reconciled) (id : ℕ) (status message : Text) (now : ℕ)
    (s : Server) {after : Db × (Bool × List (ℕ × ℕ))}
    → finished db reconciled id status message now ≡ ok after
    → find_first (is_live id) db.core.servers ≡ some s
    → is_idle s.decommission_status ≡ false
    → IsSound db.core
    → IsSound after.0.core
unfolding finished
finished-IsSound db reconciled id status message now s {after} done found busy sound =
    let P = λ (u : Db × (Bool × List (ℕ × ℕ))). IsSound u.0.core in
    elim (Bool-cases (is_failure status)) [
      | inl e ↦
          let same = ok-inj (rw e at done) in
          subst P same (failed_db-IsSound db id message now s found busy sound)
      | inr e ↦ elim (Bool-cases (is_success status)) [
        | inl f ↦
            let (archive, archives, same) =
              >>=-eq-ok (archive_server (is_server id) db reconciled id now) _
                (rw (e, f) at done) in
            subst P (ok-inj same)
              (archive_server-IsSound (is_server id) db reconciled id now archives (λ x h. h) sound)
        | inr f ↦ subst P (ok-inj (rw (e, f) at done)) sound
      ]
    ]

pub finalize_decommission-IsSound :
    (db : Db) (reconciled : Result Error Reconciled) (id version : ℕ) (status message : Text)
    (now : ℕ) {after : Db × (Bool × List (ℕ × ℕ))}
    → finalize_decommission db reconciled id version status message now ≡ ok after
    → IsSound db.core
    → IsSound after.0.core
unfolding finalize_decommission
finalize_decommission-IsSound db reconciled id version status message now {after} done sound =
    let (s, found, rest) = past_search (find_first (is_live id) db.core.servers) _ _ done in
    elim (Bool-cases (not (version == s.desired_version) || is_idle s.decommission_status)) [
      | inl e ↦
          let same = ok-inj (rw e at rest) in
          subst (λ (u : Db × (Bool × List (ℕ × ℕ))). IsSound u.0.core) same sound
      | inr e ↦
          finished-IsSound db reconciled id status message now s (rw e at rest) found (ground arith)
            sound
    ]
