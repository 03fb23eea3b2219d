-- ===== src/ServerDependencies/Disabled.antt =====
-- panel/internal/server/lifecycle.go: what the cleanup of an archived server leaves enabled.
use vps_panel.Prelude.{
  ℕ, ◌≡◌, refl, ◌∙◌, fun_ext, Bool, true, false, ◌&&◌, ◌||◌, List, ◌==◌, any, arith, All,
}
use vps_panel.Prelude.Tables.{update_where, All-rows, All-update_where-turn, any-update_where}
use vps_panel.ServerDependencies.{
  Client, Db, PersonalNode, Proxy, PublishedNode, Relay, disable_dependencies, disable_personal,
  disable_proxies, disable_published, disable_relays, proxy, relay, other, has_client, has_proxy,
  has_relay, is_in, personal_rests, published_rests, relay_rests,
}

-- Whatever the statements ask of the tables has the answer that it had.
record SameAnswers (server : ℕ) (db after : Db) : Type 0 where
  proxies : has_proxy after server ≡ has_proxy db server
  clients : has_client after server ≡ has_client db server
  relays : has_relay after server ≡ has_relay db server

-- Other enabled flags among the proxies or the relays are no other answers.
same_answers :
    (db after : Db) (server : ℕ)
    → ((id : ℕ) → has_proxy after server id ≡ has_proxy db server id)
    → after.clients ≡ db.clients
    → ((id : ℕ)
        → any (λ r. r.id == id && relay_rests after server r) after.relays
          ≡ any (λ r. r.id == id && relay_rests after server r) db.relays)
    → SameAnswers server db after
unfolding has_client has_relay
same_answers db after server proxy_same clients_same relays_same =
    let proxies : has_proxy after server ≡ has_proxy db server = fun_ext proxy_same in
    let clients : has_client after server ≡ has_client db server =
      λ i id. any (λ (c : Client). c.id == id && proxies i c.proxy_id) (clients_same i) in
    let relays : (id : ℕ) → has_relay after server id ≡ has_relay db server id = λ id.
      relays_same id ∙ (λ i.
        any
          (λ (r : Relay).
            r.id == id
            && (r.server_id == server
                || (is_in (proxies i) r.target_proxy_id || is_in (clients i) r.source_client_id)))
          db.relays) in
    record { proxies = proxies; clients = clients; relays = fun_ext relays }

disable_proxies-SameAnswers :
    (db : Db) (server now : ℕ) → SameAnswers server db (disable_proxies db server now)
unfolding has_proxy disable_proxies
disable_proxies-SameAnswers db server now =
    same_answers db (disable_proxies db server now) server
      (λ id.
        any-update_where (λ (p : Proxy). p.id == id && p.server_id == server)
          (λ p. p.server_id == server && p.enabled)
          (λ p. record p { enabled = false; updated_at = now }) (λ x. refl) db.proxies)
      refl (λ id. refl)

disable_relays-SameAnswers :
    (db : Db) (server now : ℕ) → SameAnswers server db (disable_relays db server now)
unfolding disable_relays has_proxy has_client
disable_relays-SameAnswers db server now =
    same_answers db (disable_relays db server now) server (λ id. refl) refl
      (λ id.
        any-update_where
          (λ (r : Relay). r.id == id && relay_rests (disable_relays db server now) server r)
          (λ r. r.enabled && relay_rests db server r)
          (λ r. record r { enabled = false; updated_at = now }) (λ x. refl) db.relays)

disable_published-SameAnswers :
    (db : Db) (server now : ℕ) → SameAnswers server db (disable_published db server now)
unfolding disable_published has_proxy has_client
disable_published-SameAnswers db server now =
    same_answers db (disable_published db server now) server (λ id. refl) refl (λ id. refl)

disable_personal-SameAnswers :
    (db : Db) (server now : ℕ) → SameAnswers server db (disable_personal db server now)
unfolding disable_personal has_proxy has_client
disable_personal-SameAnswers db server now =
    same_answers db (disable_personal db server now) server (λ id. refl) refl (λ id. refl)

SameAnswers-trans :
    {server : ℕ} {a b c : Db}
    → SameAnswers server a b
    → SameAnswers server b c
    → SameAnswers server a c
SameAnswers-trans ab bc = record {
  proxies = bc.proxies ∙ ab.proxies;
  clients = bc.clients ∙ ab.clients;
  relays = bc.relays ∙ ab.relays;
}

-- Then the same rows rest on the server.
module _ {server : ℕ} {a b : Db} (answers : SameAnswers server a b) where
  same_relay : (r : Relay) → relay_rests b server r ≡ relay_rests a server r
  same_relay r = λ i.
      r.server_id == server
      || (is_in (answers.proxies i) r.target_proxy_id
          || is_in (answers.clients i) r.source_client_id)

  same_published : (n : PublishedNode) → published_rests b server n ≡ published_rests a server n
  same_published n = λ i.
      is_in (answers.proxies i) n.target_proxy_id
      || is_in (λ id. id == server) n.source_server_id
      || is_in (answers.relays i) n.relay_id

  same_personal : (n : PersonalNode) → personal_rests b server n ≡ personal_rests a server n
  same_personal n = λ i. elim n.source_type [
    | proxy ↦ answers.proxies i n.source_id
    | relay ↦ answers.relays i n.source_id
    | other ↦ false
  ]

-- A row that an update switches off where a test holds is off wherever the test still holds.
switched_off :
    {A : Type 0} (enabled before later : A → Bool) (f : A → A)
    → ((x : A) → enabled (f x) ≡ false)
    → ((x : A) → later x ≡ before x)
    → (xs : List A)
    → All (λ x. later x ≡ true → enabled x ≡ false) (update_where (λ x. enabled x && before x) f xs)
switched_off enabled before later f off same xs =
    All-update_where-turn {0, 0, 0} (λ x. Unit) (λ x. later x ≡ true → enabled x ≡ false)
      (λ x. enabled x && before x) f (λ x _ _ _. off x)
      (λ x _ miss rests. let e = same x in ground arith) xs (All-rows _ (λ x. tt) xs)

-- After the cleanup of a server, no proxy of it is enabled, no relay that runs on it or leads to it, and
-- no published or personal node that rests on one of these, wherever the node stands.
pub disable_dependencies-off :
    (db : Db) (server now : ℕ)
    → All
        (λ (p : Proxy). p.server_id == server ≡ true → p.enabled ≡ false)
        (disable_dependencies db server now).proxies
      × All
          (λ (r : Relay).
            relay_rests (disable_dependencies db server now) server r ≡ true → r.enabled ≡ false)
          (disable_dependencies db server now).relays
      × All
          (λ (n : PublishedNode).
            published_rests (disable_dependencies db server now) server n ≡ true
            → n.enabled ≡ false)
          (disable_dependencies db server now).published
      × All
          (λ (n : PersonalNode).
            personal_rests (disable_dependencies db server now) server n ≡ true → n.enabled ≡ false)
          (disable_dependencies db server now).personal
unfolding disable_dependencies disable_proxies disable_relays disable_published disable_personal
disable_dependencies-off db server now =
    let one = disable_proxies db server now in
    let two = disable_relays one server now in
    let three = disable_published two server now in
    let after_three = disable_personal-SameAnswers three server now in
    let after_two = SameAnswers-trans (disable_published-SameAnswers two server now) after_three in
    let after_one = SameAnswers-trans (disable_relays-SameAnswers one server now) after_two in
    (
      All-update_where-turn {0, 0, 0} (λ x. Unit)
          (λ p. p.server_id == server ≡ true → p.enabled ≡ false)
          (λ p. p.server_id == server && p.enabled)
          (λ p. record p { enabled = false; updated_at = now }) (λ x _ _ _. refl)
          (λ x _ miss rests. ground arith) db.proxies (All-rows _ (λ x. tt) db.proxies),
      switched_off (λ r. r.enabled) (relay_rests one server)
          (relay_rests (disable_dependencies db server now) server)
          (λ r. record r { enabled = false; updated_at = now }) (λ x. refl) (same_relay after_one)
          db.relays,
      switched_off (λ n. n.enabled) (published_rests two server)
          (published_rests (disable_dependencies db server now) server)
          (λ n. record n { enabled = false; updated_at = now }) (λ x. refl)
          (same_published after_two) db.published,
      switched_off (λ n. n.enabled) (personal_rests three server)
          (personal_rests (disable_dependencies db server now) server)
          (λ n. record n { enabled = false; updated_at = now }) (λ x. refl)
          (same_personal after_three) db.personal,
    )
