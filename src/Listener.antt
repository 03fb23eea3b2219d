-- ===== src/Listener.antt =====
-- panel/internal/listener/listener.go: ports of a server that a proxy, a relay or a client's relays
-- hold, and the triggers of panel/internal/database/versioned_migrations.go that guard the table.
-- `source` is the client of a relay, which the triggers read from the table `relays`, and `has_server`
-- says whether the table `servers` holds an id.
pub mod Safety
mod Tests
use vps_panel.Prelude.{
  ℕ, Bool, true, false, ◌&&◌, ◌||◌, not, Option, none, some, List, [], ◌∷◌, leb, ◌==◌,
  if◌then◌else◌, Result, ok, err, ◌>>=◌, any, keep,
}
use vps_panel.Prelude.Text.{Text, codes, text_eq, trim_space, to_lower, remove_spaces}
use vps_panel.Prelude.Tables.{upsert, delete_where}

pub data Network : Type 0 where
  tcp udp both : Network

pub data ResourceType : Type 0 where
  proxy relay client_relay : ResourceType

pub data Error : Type 0 where
  conflict invalid_network invalid_row : Error

pub record Reservation : Type 0 where
  pub server_id : ℕ
  pub resource_type : ResourceType
  pub resource_id : ℕ
  pub port : ℕ
  pub network : Network

unfoldable pub normalize_network : Text → Result Error Network
unfolding text_eq to_lower remove_spaces trim_space
normalize_network value =
    let s = to_lower (remove_spaces (trim_space value)) in
    if text_eq s (codes "tcp")
    then ok tcp
    else if text_eq s (codes "udp")
    then ok udp
    else if text_eq s (codes "both") || text_eq s (codes "tcp,udp") || text_eq s (codes "udp,tcp")
    then ok both
    else err invalid_network

-- The test on networks that are normalised.
unfoldable pub overlap : Network → Network → Bool
overlap both n = true
overlap tcp tcp = true
overlap tcp udp = false
overlap tcp both = true
overlap udp tcp = false
overlap udp udp = true
overlap udp both = true

abbrev overlap_results : Result Error Network → Result Error Network → Bool
overlap_results (ok a) (ok b) = overlap a b
overlap_results (ok a) (err e) = false
overlap_results (err e) b = false

unfoldable pub networks_overlap : Text → Text → Bool
unfolding normalize_network overlap
networks_overlap left right = overlap_results (normalize_network left) (normalize_network right)

abbrev pub same_type : ResourceType → ResourceType → Bool
same_type proxy proxy = true
same_type relay relay = true
same_type client_relay client_relay = true
same_type _ _ = false

-- AvailabilityOptions; no excluded resource is the empty type.
pub record AvailabilityOptions : Type 0 where
  pub excluded : Option (ResourceType × ℕ)
  pub allowed_client : Option ℕ

abbrev pub is_excluded : Option (ResourceType × ℕ) → Reservation → Bool
is_excluded none r = false
is_excluded (some (t, id)) r = same_type r.resource_type t && r.resource_id == id

abbrev pub is_allowed : Option ℕ → Reservation → Bool
is_allowed none r = false
is_allowed (some c) r = same_type r.resource_type client_relay && r.resource_id == c

-- The rows of the query that stand in the way.
abbrev pub blocks : ℕ → ℕ → Network → AvailabilityOptions → Reservation → Bool
blocks server port network options r =
    r.server_id == server
    && r.port == port
    && not (is_excluded options.excluded r)
    && not (is_allowed options.allowed_client r)
    && overlap network r.network

unfoldable pub listener_available :
    List Reservation → ℕ → ℕ → Text → AvailabilityOptions → Result Error (Unit {0})
listener_available rows server port network options = normalize_network network >>= λ n.
    if any (blocks server port n options) rows then err conflict else ok tt

-- ListOccupiedListeners, without its order by port.
unfoldable pub occupied_listeners : List Reservation → ℕ → ℕ → ℕ → List Reservation
unfolding keep
occupied_listeners rows server start last =
    keep (λ r. r.server_id == server && leb start r.port && leb r.port last) rows

abbrev pub is_source : (ℕ → Option ℕ) → ℕ → ℕ → Bool
is_source source relay_id client = elim (source relay_id) [ none ↦ false | some c ↦ c == client ]

-- A relay may use a port that is held for its own client, and the other way round.
abbrev pub shares : (ℕ → Option ℕ) → Reservation → Reservation → Bool
shares source new old =
    same_type new.resource_type relay
    && same_type old.resource_type client_relay
    && is_source source new.resource_id old.resource_id

-- The condition of both triggers.
unfoldable pub conflicts : (ℕ → Option ℕ) → Reservation → Reservation → Bool
unfolding overlap
conflicts source new old =
    old.server_id == new.server_id
    && old.port == new.port
    && overlap old.network new.network
    && not (shares source new old)
    && not (shares source old new)

abbrev pub same_key : Reservation → Reservation → Bool
same_key new old =
    same_type old.resource_type new.resource_type
    && old.resource_id == new.resource_id
    && old.port == new.port

-- The table's CHECK of the port and its foreign key to `servers`.
unfoldable pub is_row : (ℕ → Bool) → Reservation → Bool
is_row has_server r = leb 1 r.port && leb r.port 65535 && has_server r.server_id

-- The insertion with its trigger, which fires before the constraints are looked at; a row with the same
-- key is replaced.
unfoldable pub reserve_listener :
    (ℕ → Option ℕ)
    → (ℕ → Bool)
    → List Reservation
    → Reservation
    → Text
    → Result Error (List Reservation)
unfolding is_row
reserve_listener source has_server rows value network = normalize_network network >>= λ n.
    let new = record value { network = n } in
    if any (conflicts source new) rows
    then err conflict
    else if not (is_row has_server new)
    then err invalid_row
    else ok (upsert (same_key new) (λ _. new) new rows)

unfoldable pub release_listener : List Reservation → ResourceType → ℕ → List Reservation
release_listener rows kind id =
    delete_where (λ r. same_type r.resource_type kind && r.resource_id == id) rows
