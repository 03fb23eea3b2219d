-- ===== src/ServerLifecycle/Sound.antt =====
-- panel/internal/server/lifecycle.go, panel/internal/agentcontrol: what ties the tables of servers, agents and
-- enrollments together, and the updates that keep it.
use vps_panel.Prelude.{ℕ, ◌≤◌, ◌<◌, ◌≡◌, refl, Bool, true, false, some, find_first, arith, All}
use vps_panel.Prelude.Tables.{update_where, count_where, All-update_where-turn}
use vps_panel.Prelude.Counts.{count_where-update_where-same, All-map, All-same}
use vps_panel.AgentControl.{Db, Server, agent_of, is_none, is_server, is_unused_of}
use vps_panel.ServerLifecycle.{is_idle}

-- An archived server has no agent. A server that is being decommissioned is not archived, and no
-- enrollment of it is open.
abbrev pub Settled : Db → Server → Type 0
Settled db s =
    (is_none s.archived_at ≡ false → count_where (agent_of s.id) db.agents ≡ 0)
    × (is_idle s.decommission_status ≡ false → is_none s.archived_at ≡ true)
    × (is_idle s.decommission_status ≡ false → count_where (is_unused_of s.id) db.enrollments ≡ 0)

-- Ids are below the counter and a server's own, and a server has one agent at most.
pub record IsSound (db : Db) : Type 0 where
  pub below : All (λ (s : Server). s.id < db.next_id) db.servers
  pub own_id : (id : ℕ) → count_where (is_server id) db.servers ≤ 1
  pub one_agent : (id : ℕ) → count_where (agent_of id) db.agents ≤ 1
  pub settled : All (Settled db) db.servers

-- An update of the servers, with whatever is known of their rows.
pub IsSound-update :
    (db after : Db) (p : Server → Bool) (f : Server → Server) (P : Server → Type 0)
    → ((x : Server) → (f x).id ≡ x.id)
    → after.servers ≡ update_where p f db.servers
    → db.next_id ≤ after.next_id
    → ((id : ℕ) → count_where (agent_of id) after.agents ≤ 1)
    → ((x : Server) → P x → p x ≡ true → Settled after (f x))
    → ((x : Server) → P x → p x ≡ false → Settled after x)
    → All P db.servers
    → IsSound db
    → IsSound after
IsSound-update db after p f P same servers later agents hit miss rows sound = record {
  below = rw servers (
      All-update_where-turn (λ (s : Server). s.id < db.next_id) (λ s. s.id < after.next_id) p f
        (λ x h _. let same_id = same x in omega (arith, same_id, h, later))
        (λ x h _. omega (arith, h, later)) db.servers sound.below);
  own_id = λ id.
      rw
        (
          servers,
          count_where-update_where-same (is_server id) p f (λ x. rw (same x) refl) db.servers,
        )
        (sound.own_id id);
  one_agent = agents;
  settled = rw servers (All-update_where-turn P (Settled after) p f hit miss db.servers rows);
}

-- No more agents and open enrollments than before.
pub record IsCalm (db after : Db) : Type 0 where
  pub later : db.next_id ≤ after.next_id
  pub agents_le :
      (id : ℕ) → count_where (agent_of id) after.agents ≤ count_where (agent_of id) db.agents
  pub enrollments_le :
      (id : ℕ)
      → count_where (is_unused_of id) after.enrollments
        ≤ count_where (is_unused_of id) db.enrollments

pub Settled-IsCalm :
    {db after : Db} → IsCalm db after → (x : Server) → Settled db x → Settled after x
Settled-IsCalm calm x (gone, live, shut) =
    let agents = calm.agents_le x.id in
    let enrollments = calm.enrollments_le x.id in
    (
      λ h. let none_left = gone h in omega (arith, agents, none_left),
      live,
      λ h. let none_left = shut h in omega (arith, enrollments, none_left),
    )

-- An update that neither archives nor decommissions.
pub record IsCalmUpdate (f : Server → Server) : Type 0 where
  pub same_id : (x : Server) → (f x).id ≡ x.id
  pub same_archived : (x : Server) → is_none (f x).archived_at ≡ is_none x.archived_at
  pub same_idle : (x : Server) → is_idle (f x).decommission_status ≡ is_idle x.decommission_status

pub calm-IsSound :
    (db after : Db) (p : Server → Bool) (f : Server → Server)
    → IsCalmUpdate f
    → after.servers ≡ update_where p f db.servers
    → IsCalm db after
    → IsSound db
    → IsSound after
calm-IsSound db after p f keeps servers calm sound =
    IsSound-update db after p f (Settled db) keeps.same_id servers calm.later
      (λ id. let one = sound.one_agent id in let le = calm.agents_le id in omega (arith, one, le))
      (λ x h _.
        let settled = Settled-IsCalm {db = db} {after = after} calm x h in
        rw (keeps.same_id x, keeps.same_archived x, keeps.same_idle x) settled)
      (λ x h _. Settled-IsCalm {db = db} {after = after} calm x h) sound.settled sound

-- The one row with a key, when that row was found: what is known of it is known of each with the key.
pub known_row :
    (core : Db) (id : ℕ) (q : Server → Bool) (P : Server → Type 0) {s : Server}
    → find_first q core.servers ≡ some s
    → is_server id s ≡ true
    → P s
    → IsSound core
    → All (λ x. is_server id x ≡ true → P x) core.servers
known_row core id q P {s} found its h sound =
    All-map (λ x. is_server id x ≡ true → x ≡ s) (λ x. is_server id x ≡ true → P x)
      (λ x same here. rw (same here) h) core.servers
      (All-same (is_server id) q core.servers found its (sound.own_id id))
