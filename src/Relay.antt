-- ===== src/Relay.antt =====
-- panel/internal/relay/validation.go: what a relay is made of, and the port that a user's relay gets. Go's
-- net.ParseIP is the argument `parse_ip`, with the text of ip.String() and whether ip.To4() is there.
pub mod Hosts
pub mod WellFormed
pub mod FreePort
mod Tests
use vps_panel.Prelude.{
  ℕ, zero, suc, ◌+◌, Bool, true, false, ◌&&◌, ◌||◌, not, Option, none, some, List, [], ◌∷◌, any,
  keep, length, leb, ltb, ◌==◌, if◌then◌else◌, get_elem?, Result, ok, err, ◌>>=◌,
}
use vps_panel.Prelude.Text.{Text, byte_length, codes, remove_spaces, text_eq, to_lower, trim_space}
use vps_panel.Listener.{Reservation, occupied_listeners}

pub data Error : Type 0 where
  invalid_name invalid_listen_ip invalid_port invalid_entry_host_mode invalid_entry_host : Error
  invalid_target invalid_target_client invalid_network port_conflict : Error

pub record Relay : Type 0 where
  pub name : Text
  pub listen_address : Text
  pub listen_port : ℕ
  pub entry_host_mode : Text
  pub entry_host : Text
  pub target_type : Text
  pub target_proxy_id : Option ℕ
  pub target_client_id : Option ℕ
  pub target_landing_id : Option ℕ
  pub target_host : Text
  pub target_port : ℕ
  pub network : Text
  pub enabled : Bool

pub record UpdateInput : Type 0 where
  pub name : Option Text
  pub listen_address : Option Text
  pub listen_port : Option ℕ
  pub entry_host_mode : Option Text
  pub entry_host : Option Text
  pub target_type : Option Text
  pub target_proxy_id : Option ℕ
  pub target_client_id : Option ℕ
  pub target_landing_id : Option ℕ
  pub target_host : Option Text
  pub target_port : Option ℕ
  pub network : Option Text
  pub enabled : Option Bool

pub record Ip : Type 0 where
  pub text : Text
  pub is_v4 : Bool

abbrev pub is_empty : Text → Bool
is_empty [] = true
is_empty (c ∷ cs) = false

abbrev pub valid_port : ℕ → Bool
valid_port n = leb 1 n && leb n 65535

-- One of the characters of "/?#@", which "://" holds one of as well.
abbrev pub is_separator : ℕ → Bool
is_separator c = c == 47 || c == 63 || c == 35 || c == 64

abbrev pub is_bracket : ℕ → Bool
is_bracket c = c == 91 || c == 93

abbrev pub drop_brackets : Text → Text
drop_brackets [] = []
drop_brackets (c ∷ cs) = if is_bracket c then drop_brackets cs else c ∷ cs

abbrev pub last_code : ℕ → Text → ℕ
last_code c [] = c
last_code c (d ∷ cs) = last_code d cs

-- strings.Trim(value, "[]")
abbrev pub drop_last_brackets : Text → Text
drop_last_brackets [] = []
drop_last_brackets (c ∷ cs) =
    let rest = drop_last_brackets cs in if is_bracket c && is_empty rest then [] else c ∷ rest

unfoldable pub trim_brackets : Text → Text
trim_brackets value = drop_last_brackets (drop_brackets value)

-- strings.Split(value, ".")
abbrev pub and_code : ℕ → List Text → List Text
and_code c [] = (c ∷ []) ∷ []
and_code c (label ∷ labels) = (c ∷ label) ∷ labels

unfoldable pub labels_of : Text → List Text
labels_of [] = [] ∷ []
labels_of (c ∷ cs) = let rest = labels_of cs in if c == 46 then [] ∷ rest else and_code c rest

abbrev pub is_label_code : ℕ → Bool
is_label_code c =
    (leb 97 c && leb c 122) || (leb 65 c && leb c 90) || (leb 48 c && leb c 57) || c == 45

abbrev pub valid_label : Text → Bool
valid_label [] = false
valid_label (c ∷ cs) =
    leb (byte_length (c ∷ cs)) 63
    && not (c == 45)
    && not (last_code c cs == 45)
    && not (any (λ d. not (is_label_code d)) (c ∷ cs))

abbrev pub starts_or_ends_with_dot : Text → Bool
starts_or_ends_with_dot [] = false
starts_or_ends_with_dot (c ∷ cs) = c == 46 || last_code c cs == 46

abbrev pub as_entry_host : Result Error Text → Result Error (Text × Text)
as_entry_host (ok host) = ok (codes "manual", host)
as_entry_host (err e) = err invalid_entry_host

abbrev pub same_bool : Bool → Bool → Bool
same_bool true b = b
same_bool false b = not b

-- An address of the other family is no entry for the listener.
abbrev pub same_family : Ip → Option Ip → Bool
same_family ip none = true
same_family ip (some entry) = same_bool ip.is_v4 entry.is_v4

abbrev pub is_missing : Option ℕ → Bool
is_missing none = true
is_missing (some id) = id == 0

abbrev pub is_network : Text → Bool
is_network n = text_eq n (codes "tcp") || text_eq n (codes "udp") || text_eq n (codes "tcp,udp")

abbrev pub is_manual : Text → Bool
is_manual mode = text_eq mode (codes "manual")

abbrev pub or_old : {A : Type 0} → Option A → A → A
or_old none old = old
or_old (some new) old = new

abbrev pub or_none : {A : Type 0} → Option A → Option A → Option A
or_none none old = old
or_none (some new) old = some new

abbrev pub is_id : ℕ → Option ℕ → Bool
is_id n none = false
is_id n (some m) = m == n

-- targetProxyChanged
abbrev pub changes_proxy : Relay → UpdateInput → Bool
changes_proxy r input = elim input.target_proxy_id [
  | none ↦ false
  | some id ↦ not (is_id id r.target_proxy_id)
]

unfoldable pub updated : Relay → UpdateInput → Relay
updated r input = record {
  name = or_old input.name r.name;
  listen_address = or_old input.listen_address r.listen_address;
  listen_port = or_old input.listen_port r.listen_port;
  entry_host_mode = or_old input.entry_host_mode r.entry_host_mode;
  entry_host = or_old input.entry_host r.entry_host;
  target_type = or_old input.target_type r.target_type;
  target_proxy_id = or_none input.target_proxy_id r.target_proxy_id;
  target_client_id = elim input.target_client_id [
    | some id ↦ some id
    | none ↦ if changes_proxy r input then none else r.target_client_id
  ];
  target_landing_id = or_none input.target_landing_id r.target_landing_id;
  target_host = or_old input.target_host r.target_host;
  target_port = or_old input.target_port r.target_port;
  network = or_old input.network r.network;
  enabled = or_old input.enabled r.enabled;
}

abbrev pub is_none : {A : Type 0} → Option A → Bool
is_none none = true
is_none (some a) = false

abbrev pub entered : Relay → Ip → Text × Text → Text → Relay
entered r ip entry network = record r {
  listen_address = ip.text;
  entry_host_mode = entry.0;
  entry_host = entry.1;
  target_type = to_lower (trim_space r.target_type);
  network = network;
}

module _ (parse_ip : Text → Option Ip) where
  unfoldable pub normalize_host : Text → Result Error Text
  unfolding trim_brackets labels_of
  normalize_host value =
      let host = trim_space value in
      if is_empty host || any is_separator host
      then err invalid_target
      else elim (parse_ip (trim_brackets host)) [
        | some ip ↦ ok ip.text
        | none ↦
            if any (λ c. c == 58) host
              || ltb 253 (byte_length host)
              || starts_or_ends_with_dot host
              || any (λ label. not (valid_label label)) (labels_of host)
            then err invalid_target
            else ok (to_lower host)
      ]

  unfoldable pub normalize_entry_host : Text → Text → Result Error (Text × Text)
  unfolding normalize_host
  normalize_entry_host value host =
      let mode = to_lower (trim_space value) in
      if is_empty mode || text_eq mode (codes "auto")
      then ok (codes "auto", [])
      else if not (text_eq mode (codes "manual"))
      then err invalid_entry_host_mode
      else as_entry_host (normalize_host host)

  -- The switch on the target's type at the end of normalizeRelay
  unfoldable pub normalize_target : Relay → Result Error Relay
  unfolding normalize_host
  normalize_target r =
      if text_eq r.target_type (codes "proxy")
      then (if is_missing r.target_proxy_id
          then err invalid_target
          else ok (record r { target_host = []; target_port = 0; target_landing_id = none }))
      else if text_eq r.target_type (codes "landing")
      then (if is_missing r.target_landing_id
          then err invalid_target
          else ok (record r {
            target_proxy_id = none;
            target_client_id = none;
            target_host = [];
            target_port = 0;
          }))
      else if text_eq r.target_type (codes "manual")
      then elim (normalize_host r.target_host) [
        | err e ↦ err invalid_target
        | ok host ↦
            if not (valid_port r.target_port)
            then err invalid_target
            else ok (record r {
              target_proxy_id = none;
              target_client_id = none;
              target_landing_id = none;
              target_host = host;
            })
      ]
      else err invalid_target

  -- The part of normalizeRelay from the listener's address on.
  unfoldable pub normalize_entry : Relay → Ip → Result Error Relay
  unfolding normalize_entry_host normalize_target
  normalize_entry r ip =
      if not (valid_port r.listen_port)
      then err invalid_port
      else (normalize_entry_host r.entry_host_mode r.entry_host >>= λ entry.
          if is_manual entry.0 && not (same_family ip (parse_ip entry.1))
          then err invalid_entry_host
          else let network = to_lower (remove_spaces (trim_space r.network)) in
            if not (is_network network)
            then err invalid_network
            else normalize_target (entered r ip entry network))

  -- normalizeRelay
  unfoldable pub normalize_relay : Relay → Result Error Relay
  unfolding normalize_entry
  normalize_relay r =
      let name = trim_space r.name in
      if is_empty name || ltb 100 (length name)
      then err invalid_name
      else elim (parse_ip (trim_space r.listen_address)) [
        | none ↦ err invalid_listen_ip
        | some ip ↦ normalize_entry (record r { name = name }) ip
      ]

  -- ValidateUpdateInput
  unfoldable pub validate_update_input : Relay → UpdateInput → Result Error Relay
  unfolding normalize_relay updated
  validate_update_input r input = normalize_relay (updated r input) >>= λ new.
      if text_eq new.target_type (codes "proxy")
        && changes_proxy r input
        && is_none new.target_client_id
      then err invalid_target_client
      else ok new

  -- normalizeCreate, where the fields of a CreateInput are those of a relay.
  unfoldable pub normalize_create : Relay → Result Error Relay
  unfolding normalize_relay
  normalize_create input = normalize_relay (record input {
    listen_address =
        if is_empty (trim_space input.listen_address)
        then codes "0.0.0.0"
        else input.listen_address;
  })

  -- ValidateCreateInput
  unfoldable pub validate_create_input : Relay → Result Error (Unit {0})
  unfolding normalize_create
  validate_create_input input = normalize_create input >>= λ new.
      if text_eq new.target_type (codes "proxy") && is_none new.target_client_id
      then err invalid_target_client
      else ok tt

abbrev pub first_port : ℕ
first_port = 20000

abbrev pub last_port : ℕ
last_port = 29999

-- The ports of a range that no reservation holds.
unfoldable pub free_ports : List Reservation → ℕ → ℕ → List ℕ
free_ports occupied zero port = []
free_ports occupied (suc n) port =
    let rest = free_ports occupied n (suc port) in
    if any (λ (r : Reservation). r.port == port) occupied then rest else port ∷ rest

-- RandomUserRelayPort, where `choice` picks a place among as many as there are.
unfoldable pub random_user_relay_port : (ℕ → ℕ) → List Reservation → ℕ → Result Error ℕ
unfolding free_ports occupied_listeners
random_user_relay_port choice rows server =
    let available =
      free_ports (occupied_listeners rows server first_port last_port) 10000 first_port in
    elim (get_elem? available (choice (length available))) [
      | none ↦ err port_conflict
      | some port ↦ ok port
    ]
