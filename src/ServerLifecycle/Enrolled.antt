-- ===== src/ServerLifecycle/Enrolled.antt =====
-- panel/internal/server/server.go, enrollment.go, panel/internal/agentcontrol/registration.go: a server that is
-- created, and an agent that is enrolled and registers, leave the tables sound.
use vps_panel.Prelude.{
  ℕ, suc, ◌≤◌, ◌<◌, ◌≡◌, refl, subst, true, false, ◌&&◌, not, none, some, ◌==◌, ltb, find_first,
  arith, All, Bool-cases, inl, inr, ok, >>=-eq-ok, ok-inj, past_guard, past_search,
}
use vps_panel.Prelude.Text.{Text}
use vps_panel.Prelude.Tables.{find_first-holds, count_where, delete_where, All-append}
use vps_panel.Prelude.Counts.{
  All-both, All-count_where, All-map, count_where-append-hit, count_where-append-miss,
  count_where-delete_where, count_where-delete_where-le, count_where-found,
  count_where-update_where-le,
}
use vps_panel.AgentMetadata.{Metadata, is_empty, normalize_metadata}
use vps_panel.AgentControl.{
  Agent, Enrollment, Server, agent_of, insert_enrollment, is_none, is_open, is_server, is_unused_of,
  metadata_error, new_agent, new_enrollment, rebind, initial, offline, pending, register_agent,
  register_with, registered, rotate_enrollment,
}
use vps_panel.ServerLifecycle.{Db, create_enrollment, create_server, created, is_idle}
use vps_panel.ServerLifecycle.Sound.{known_row, IsSound, Settled, IsSound-update}

rotate_enrollment-IsSound :
    (db : vps_panel.AgentControl.Db) (id : ℕ) (token_hash : Text) (now : ℕ)
    → All (λ x. is_server id x ≡ true → is_idle x.decommission_status ≡ true) db.servers
    → IsSound db
    → IsSound (rotate_enrollment db id token_hash now)
unfolding rotate_enrollment
rotate_enrollment-IsSound db id token_hash now idle sound =
    let agents_le = λ (n : ℕ). count_where-delete_where-le (agent_of n) (agent_of id) db.agents in
    IsSound-update db (rotate_enrollment db id token_hash now) (is_server id)
      (λ s. record s { status = pending; updated_at = now })
      (λ x. Settled db x × (is_server id x ≡ true → is_idle x.decommission_status ≡ true))
      (λ x. refl) refl (omega arith)
      (λ n. let one = sound.one_agent n in let le = agents_le n in omega (arith, one, le))
      (λ x (settled, idle_row) here. (
        λ h. let le = agents_le x.id in let zero = settled.0 h in omega (arith, le, zero),
        settled.1,
        λ h. absurd (let i = idle_row here in cc),
      ))
      (λ x (settled, idle_row) other. (
        λ h. let le = agents_le x.id in let zero = settled.0 h in omega (arith, le, zero),
        settled.1,
        λ h.
            let zero = settled.2 h in
            let kept =
              count_where-append-miss (is_unused_of x.id)
                (delete_where (is_unused_of id) db.enrollments)
                (new_enrollment db.next_id id token_hash rebind now) (ground arith) in
            let le =
              count_where-delete_where-le (is_unused_of x.id) (is_unused_of id) db.enrollments in
            omega (arith, kept, le, zero),
      ))
      (All-both _ _ db.servers sound.settled idle) sound

pub create_enrollment-IsSound :
    (db : Db) (id : ℕ) (token_hash : Text) (now : ℕ) {after : Db}
    → create_enrollment db id token_hash now ≡ ok after
    → IsSound db.core
    → IsSound after.core
unfolding create_enrollment
create_enrollment-IsSound db id token_hash now {after} done sound =
    let (s, found, rest) = past_search (find_first (is_server id) db.core.servers) _ _ done in
    let (idle, same) = past_guard (not (is_idle s.decommission_status)) _ _ rest in
    let its : is_server id s ≡ true = find_first-holds (is_server id) db.core.servers found in
    let rows =
      known_row db.core id (is_server id) (λ x. is_idle x.decommission_status ≡ true) found its
        (ground arith) sound in
    subst (λ (u : Db). IsSound u.core) (ok-inj same)
      (rotate_enrollment-IsSound db.core id token_hash now rows sound)

pub create_server-IsSound :
    (db : Db) (token_hash : Text) (now : ℕ)
    → IsSound db.core
    → IsSound (create_server db token_hash now).0.core
unfolding create_server insert_enrollment
create_server-IsSound db token_hash now sound =
    let fresh = db.core.next_id in
    let below = sound.below in
    let new : Enrollment = new_enrollment (suc fresh) fresh token_hash initial now in
    let new_server = created fresh now in
    record {
      below =
          All-append (λ (s : Server). s.id < suc (suc fresh)) db.core.servers _
            (All-map (λ (s : Server). s.id < fresh) _ (λ x h. omega (arith, h)) db.core.servers
              below)
            (omega arith, tt);
      own_id = λ id. elim (Bool-cases (fresh == id)) [
        | inl e ↦
            let none_yet = All-count_where (is_server id) db.core.servers (
              All-map (λ (s : Server). s.id < fresh) (λ s. is_server id s ≡ false)
                (λ x h. ground arith) db.core.servers below) in
            let le = count_where-append-hit (is_server id) db.core.servers new_server in
            omega (arith, le, none_yet)
        | inr e ↦
            let same = count_where-append-miss (is_server id) db.core.servers new_server e in
            let one = sound.own_id id in omega (arith, same, one)
      ];
      one_agent = sound.one_agent;
      settled =
          All-append (Settled (create_server db token_hash now).0.core) db.core.servers _
            (All-map (λ x. Settled db.core x × (x.id < fresh)) _
              (λ x (settled, older).
                let same =
                  count_where-append-miss (is_unused_of x.id) db.core.enrollments new
                    (ground arith) in
                (settled.0, settled.1, λ h. let zero = settled.2 h in omega (arith, same, zero)))
              db.core.servers (All-both _ _ db.core.servers sound.settled below))
            ((λ h. cc, λ h. cc, λ h. cc), tt);
    }

module _ (hash : Text → Text) where
  registered-IsSound :
      (db : vps_panel.AgentControl.Db) (e : Enrollment) (token : Text) (m : Metadata) (now : ℕ)
      → is_none e.used_at ≡ true
      → 1 ≤ count_where (is_unused_of e.server_id) db.enrollments
      → IsSound db
      → IsSound (registered hash db e token m now)
  unfolding registered
  registered-IsSound db e token m now unused open_one sound =
      let new = new_agent hash db e.server_id token m now in
      let after = registered hash db e token m now in
      let gone = delete_where (agent_of e.server_id) db.agents in
      let gone_le =
        λ (n : ℕ). count_where-delete_where-le (agent_of n) (agent_of e.server_id) db.agents in
      let other =
        λ (n : ℕ) (h : e.server_id == n ≡ false). count_where-append-miss (agent_of n) gone new h in
      IsSound-update db after (is_server e.server_id)
        (λ s. record s { status = offline; archived_at = none; updated_at = now }) (Settled db)
        (λ x. refl) refl (omega arith)
        (λ n. elim (Bool-cases (e.server_id == n)) [
          | inl same ↦
              let le = count_where-append-hit (agent_of n) gone new in
              let at : e.server_id ≡ n = ground arith in
              let zero =
                subst (λ k. count_where (agent_of k) gone ≡ 0) at
                  (count_where-delete_where (agent_of e.server_id) db.agents) in
              omega (arith, le, zero)
          | inr miss ↦
              let kept = other n miss in
              let le = gone_le n in let one = sound.one_agent n in omega (arith, kept, le, one)
        ])
        (λ x settled here. (
          λ h. cc,
          λ h. refl,
          λ h.
              let its : e.server_id ≡ x.id = ground arith in
              let zero = settled.2 h in
              let some_open =
                subst (λ k. 1 ≤ count_where (is_unused_of k) db.enrollments) its open_one in
              absurd (omega (arith, zero, some_open)),
        ))
        (λ x settled miss.
          let kept = other x.id (ground arith) in
          let le = gone_le x.id in
          let enrollments =
            count_where-update_where-le (is_unused_of x.id)
              (λ y. y.id == e.id && is_none y.used_at && ltb now y.expires_at)
              (λ y. record y { used_at = some now }) (λ y h. absurd (ground arith))
              db.enrollments in
          (
            λ h. let zero = settled.0 h in omega (arith, kept, le, zero),
            settled.1,
            λ h. let zero = settled.2 h in omega (arith, enrollments, zero),
          ))
        sound.settled sound

  pub register_agent-IsSound :
      (db : vps_panel.AgentControl.Db) (enrollment_token token : Text) (m : Metadata) (now : ℕ)
      {after : vps_panel.AgentControl.Db × Agent}
      → register_agent hash db enrollment_token token m now ≡ ok after
      → IsSound db
      → IsSound after.0
  unfolding register_agent register_with
  register_agent-IsSound db enrollment_token token m now {after} done sound =
      let (_, given) = past_guard (is_empty enrollment_token) _ _ done in
      let (n, _, normal) = >>=-eq-ok (metadata_error (normalize_metadata m)) _ given in
      let (_, versioned) = past_guard (is_empty n.version) _ _ normal in
      let (e, found, rest) =
        past_search (find_first (is_open hash enrollment_token now) db.enrollments) _ _ versioned in
      let (_, once) = past_guard (not (count_where _ db.enrollments == 1)) _ _ rest in
      let (_, same) =
        past_guard (not (count_where (is_server e.server_id) db.servers == 1)) _ _ once in
      let opened = find_first-holds (is_open hash enrollment_token now) db.enrollments found in
      let one =
        count_where-found (is_unused_of e.server_id) (is_open hash enrollment_token now)
          db.enrollments found (ground arith) in
      subst (λ u. IsSound u.0) (ok-inj same)
        (registered-IsSound db e token n now (ground arith) one sound)
