-- ===== src/ServerDependencies.antt =====
-- panel/internal/server/lifecycle.go: what rests on a server that is archived, in the tables `proxies`,
-- `clients`, `relays`, `subscription_published_nodes` and `personal_subscription_nodes`.
pub mod Disabled
use vps_panel.Prelude.{
  ℕ, Bool, true, false, ◌&&◌, ◌||◌, not, Option, none, some, List, [], ◌∷◌, map, ltb, ◌==◌,
  if◌then◌else◌, any, keep,
}
use vps_panel.Prelude.Tables.{update_where}

pub record Proxy : Type 0 where
  pub id : ℕ
  pub server_id : ℕ
  pub enabled : Bool
  pub updated_at : ℕ

pub record Client : Type 0 where
  pub id : ℕ
  pub proxy_id : ℕ

pub record Relay : Type 0 where
  pub id : ℕ
  pub server_id : ℕ
  pub target_proxy_id : Option ℕ
  pub source_client_id : Option ℕ
  pub enabled : Bool
  pub updated_at : ℕ

pub record PublishedNode : Type 0 where
  pub id : ℕ
  pub target_proxy_id : Option ℕ
  pub source_server_id : Option ℕ
  pub relay_id : Option ℕ
  pub enabled : Bool
  pub updated_at : ℕ

pub data SourceType : Type 0 where
  proxy relay other : SourceType

pub record PersonalNode : Type 0 where
  pub id : ℕ
  pub source_type : SourceType
  pub source_id : ℕ
  pub enabled : Bool
  pub updated_at : ℕ

pub record Db : Type 0 where
  pub proxies : List Proxy
  pub clients : List Client
  pub relays : List Relay
  pub published : List PublishedNode
  pub personal : List PersonalNode

-- A column IN (SELECT ...), where NULL is in nothing.
abbrev pub is_in : (ℕ → Bool) → Option ℕ → Bool
is_in p none = false
is_in p (some n) = p n

-- SELECT id FROM proxies WHERE server_id = ?
unfoldable pub has_proxy : Db → ℕ → ℕ → Bool
has_proxy db server id = any (λ (p : Proxy). p.id == id && p.server_id == server) db.proxies

-- SELECT clients.id FROM clients JOIN proxies ON proxies.id = clients.proxy_id WHERE proxies.server_id = ?
unfoldable pub has_client : Db → ℕ → ℕ → Bool
unfolding has_proxy
has_client db server id =
    any (λ (c : Client). c.id == id && has_proxy db server c.proxy_id) db.clients

abbrev pub crosses : Db → ℕ → Relay → Bool
crosses db server r =
    is_in (has_proxy db server) r.target_proxy_id || is_in (has_client db server) r.source_client_id

abbrev pub relay_rests : Db → ℕ → Relay → Bool
relay_rests db server r = r.server_id == server || crosses db server r

-- SELECT id FROM relays WHERE server_id = ? OR target_proxy_id IN ... OR source_client_id IN ...
unfoldable pub has_relay : Db → ℕ → ℕ → Bool
has_relay db server id = any (λ r. r.id == id && relay_rests db server r) db.relays

abbrev pub published_rests : Db → ℕ → PublishedNode → Bool
published_rests db server n =
    is_in (has_proxy db server) n.target_proxy_id
    || is_in (λ id. id == server) n.source_server_id
    || is_in (has_relay db server) n.relay_id

abbrev pub personal_rests : Db → ℕ → PersonalNode → Bool
personal_rests db server n = elim n.source_type [
  | proxy ↦ has_proxy db server n.source_id
  | relay ↦ has_relay db server n.source_id
  | other ↦ false
]

-- Another server's enabled relays that the archive takes down: the servers to send a new state to.
-- `is_active` says that a server is neither archived nor being decommissioned.
unfoldable pub crossing_servers : Db → (ℕ → Bool) → ℕ → List ℕ
unfolding keep
crossing_servers db is_active server =
    map (λ (r : Relay). r.server_id)
      (keep
        (λ r.
          r.enabled && not (r.server_id == server) && is_active r.server_id && crosses db server r)
        db.relays)

-- The four updates of cleanupArchivedDependenciesTx. Each reads the tables that the ones before left, in
-- which only `enabled` and `updated_at` differ.
unfoldable pub disable_proxies : Db → ℕ → ℕ → Db
disable_proxies db server now = record db {
  proxies =
      update_where (λ p. p.server_id == server && p.enabled)
        (λ p. record p { enabled = false; updated_at = now }) db.proxies;
}

unfoldable pub disable_relays : Db → ℕ → ℕ → Db
disable_relays db server now = record db {
  relays =
      update_where (λ r. r.enabled && relay_rests db server r)
        (λ r. record r { enabled = false; updated_at = now }) db.relays;
}

unfoldable pub disable_published : Db → ℕ → ℕ → Db
disable_published db server now = record db {
  published =
      update_where (λ n. n.enabled && published_rests db server n)
        (λ n. record n { enabled = false; updated_at = now }) db.published;
}

unfoldable pub disable_personal : Db → ℕ → ℕ → Db
disable_personal db server now = record db {
  personal =
      update_where (λ n. n.enabled && personal_rests db server n)
        (λ n. record n { enabled = false; updated_at = now }) db.personal;
}

unfoldable pub disable_dependencies : Db → ℕ → ℕ → Db
unfolding disable_proxies disable_relays disable_published disable_personal
disable_dependencies db server now =
    disable_personal
      (disable_published (disable_relays (disable_proxies db server now) server now) server now)
      server now
