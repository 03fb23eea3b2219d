-- ===== src/AgentControl/Enrolling.antt =====
-- panel/internal/agentcontrol/registration.go: what an enrollment token and an agent's token are good for.
use vps_panel.Prelude.{
  ℕ, ◌≤◌, ◌≡◌, ◌≢◌, refl, subst, ap, true, false, ◌&&◌, not, none, some, ◌==◌, ltb, find_first,
  arith, All, Option-cases, inl, inr, ok, >>=-eq-ok, ok-inj, past_guard, past_search, ==_refl,
}
use vps_panel.Prelude.Text.{Text, text_eq, text_eq_iff}
use vps_panel.Prelude.Tables.{count_where, delete_where, find_first-holds, All-delete_where}
use vps_panel.Prelude.Counts.{
  find_first-update_where-used, All-map, find_first-append-last, find_first-none,
  count_where-update_where-gain,
}
use vps_panel.AgentMetadata.{Metadata, is_empty, normalize_metadata}
use vps_panel.AgentControl.{
  Agent, Db, Enrollment, agent_of, authenticate_agent, is_authentic, is_live, is_none, is_open,
  is_server, metadata_error, new_agent, offline, register_agent, register_with, registered,
}

module _ (hash : Text → Text) where
  -- A registration that succeeded, taken apart.
  pub register_agent-shape :
      (db : Db) (enrollment_token token : Text) (m : Metadata) (now : ℕ) {after : Db} {a : Agent}
      → register_agent hash db enrollment_token token m now ≡ ok (after, a)
      → (n : Metadata) × (e : Enrollment) × (find_first
            (is_open hash enrollment_token now)
            db.enrollments
          ≡ some e)
        × (count_where (is_server e.server_id) db.servers ≡ 1)
        × (registered hash db e token n now ≡ after)
        × (new_agent hash db e.server_id token n now ≡ a)
  unfolding register_agent register_with
  register_agent-shape db enrollment_token token m now {after} {a} done =
      let (_, given) = past_guard (is_empty enrollment_token) _ _ done in
      let (n, _, normal) = >>=-eq-ok (metadata_error (normalize_metadata m)) _ given in
      let (_, versioned) = past_guard (is_empty n.version) _ _ normal in
      let (e, found, rest) =
        past_search (find_first (is_open hash enrollment_token now) db.enrollments) _ _ versioned in
      let (_, once) = past_guard (not (count_where _ db.enrollments == 1)) _ _ rest in
      let (one, same) =
        past_guard (not (count_where (is_server e.server_id) db.servers == 1)) _ _ once in
      let equal = ok-inj same in
      (
        n,
        e,
        found,
        ground arith,
        ap (λ (u : Db × Agent). u.0) equal,
        ap (λ (u : Db × Agent). u.1) equal,
      )

  -- An enrollment token serves once: after a registration with it, no other succeeds, as long as the
  -- hashes of the enrollments are their own.
  pub register_agent-single_use :
      (db : Db) (enrollment_token token : Text) (m : Metadata) (now : ℕ) {after : Db} {a : Agent}
      → count_where
          (λ (x : Enrollment). text_eq x.token_hash (hash enrollment_token))
          db.enrollments
        ≤ 1
      → register_agent hash db enrollment_token token m now ≡ ok (after, a)
      → (again : Text) (other : Metadata) (later : ℕ) (result : Db × Agent)
      → register_agent hash after enrollment_token again other later ≢ ok result
  unfolding registered
  register_agent-single_use db enrollment_token token m now {after} {a} own done again other later
        result second =
      let (n, e, found, _, same, _) = register_agent-shape db enrollment_token token m now done in
      let opened = find_first-holds (is_open hash enrollment_token now) db.enrollments found in
      let spent =
        find_first-update_where-used
          (λ (x : Enrollment). text_eq x.token_hash (hash enrollment_token))
          (is_open hash enrollment_token now) (is_open hash enrollment_token later)
          (λ x. x.id == e.id && is_none x.used_at && ltb now x.expires_at)
          (λ x. record x { used_at = some now }) (λ x h. rw h refl) (λ x. ground arith)
          db.enrollments found (ground arith) (let r = ==_refl e.id in ground arith) own in
      let nothing =
        subst (λ (d : Db). find_first (is_open hash enrollment_token later) d.enrollments ≡ none)
          same spent in
      let (_, e2, found2, _, _, _) =
        register_agent-shape after enrollment_token again other later second in
      cc

  -- The token that an agent gets at its registration lets in that agent, as long as no other agent's
  -- token has its hash.
  pub register_agent-authenticate_agent :
      (db : Db) (enrollment_token token : Text) (m : Metadata) (now : ℕ) {after : Db} {a : Agent}
      → All (λ (x : Agent). text_eq x.token_hash (hash token) ≡ false) db.agents
      → is_empty token ≡ false
      → register_agent hash db enrollment_token token m now ≡ ok (after, a)
      → authenticate_agent hash after token ≡ ok a
  unfolding authenticate_agent registered
  register_agent-authenticate_agent db enrollment_token token m now {after} {a} own given done =
      let (n, e, _, one, same, new) = register_agent-shape db enrollment_token token m now done in
      let result = registered hash db e token n now in
      let agent = new_agent hash db e.server_id token n now in
      let live =
        count_where-update_where-gain (is_live e.server_id) (is_server e.server_id)
          (λ s. record s { status = offline; archived_at = none; updated_at = now })
          (λ x h. ground arith) db.servers in
      let is_it : is_authentic hash result token agent ≡ true =
        elim (Option-cases (find_first (is_live e.server_id) result.servers)) [
          | inl absent ↦
              let zero = find_first-none (is_live e.server_id) result.servers absent in
              absurd (omega (arith, zero, live, one))
          | inr (s, present) ↦
              let equal = (text_eq_iff (hash token) (hash token)).1 refl in rw (equal, present) refl
        ] in
      let others : All (λ x. is_authentic hash result token x ≡ false)
          (delete_where (agent_of e.server_id) db.agents) =
        All-delete_where _ (agent_of e.server_id) db.agents
          (All-map _ _ (λ x h. rw h refl) db.agents own) in
      let found =
        find_first-append-last (is_authentic hash result token)
          (delete_where (agent_of e.server_id) db.agents) agent others is_it in
      let answer : authenticate_agent hash result token ≡ ok agent = rw (given, found) refl in
      subst (λ (u : Db). authenticate_agent hash u token ≡ ok a) same
        (subst (λ (b : Agent). authenticate_agent hash result token ≡ ok b) new answer)
