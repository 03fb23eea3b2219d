-- ===== src/Relay/WellFormed.antt =====
-- panel/internal/relay/validation.go: a relay that passes the validation has one target, and no more.
use vps_panel.Prelude.{
  ◌≤◌, ◌≡◌, ◌∙◌, ap, sym, some, inl, inr, refl, subst, true, false, ◌&&◌, ◌||◌, not, Option, none,
  [], length, ltb, arith, Bool-cases, Result, ok, err, >>=-eq-ok, ok-inj, past_guard, past_search,
}
use vps_panel.Prelude.Text.{Text, codes, remove_spaces, text_eq, to_lower, trim_space}
use vps_panel.Relay.{
  Error, Ip, Relay, invalid_target, is_empty, is_manual, is_missing, is_network, entered,
  normalize_entry, normalize_entry_host, normalize_host, normalize_relay, normalize_target,
  same_family, valid_port,
}
use vps_panel.Relay.Hosts.{IsEntry, IsHost, normalize_entry_host-IsEntry, normalize_host-IsHost}

past_host :
    (call : Result Error Text) (rest : Text → Result Error Relay) {r : Relay}
    → (elim call [ err e ↦ err invalid_target | ok host ↦ rest host ]) ≡ ok r
    → (host : Text) × (call ≡ ok host) × (rest host ≡ ok r)
past_host (ok host) rest h = (host, refl, h)
past_host (err e) rest h = cc

module _ (parse_ip : Text → Option Ip) where
  -- What is kept of a target: only the fields of its type.
  pub data HasTarget (given : Text) (r : Relay) : Type 0 where
    proxy :
        text_eq r.target_type (codes "proxy") ≡ true
        → is_missing r.target_proxy_id ≡ false
        → r.target_landing_id ≡ none
        → r.target_host ≡ []
        → r.target_port ≡ 0
        → HasTarget given r
    landing :
        text_eq r.target_type (codes "landing") ≡ true
        → is_missing r.target_landing_id ≡ false
        → r.target_proxy_id ≡ none
        → r.target_client_id ≡ none
        → r.target_host ≡ []
        → r.target_port ≡ 0
        → HasTarget given r
    manual :
        text_eq r.target_type (codes "manual") ≡ true
        → IsHost parse_ip given r.target_host
        → valid_port r.target_port ≡ true
        → r.target_proxy_id ≡ none
        → r.target_client_id ≡ none
        → r.target_landing_id ≡ none
        → HasTarget given r

  pub record IsWellFormed (given r : Relay) : Type 0 where
    pub named : (r.name ≡ trim_space given.name) × (is_empty r.name ≡ false) × (length r.name ≤ 100)
    pub listens :
        (ip : Ip) × (parse_ip (trim_space given.listen_address) ≡ some ip)
        × (r.listen_address ≡ ip.text)
        × (is_manual r.entry_host_mode && not (same_family ip (parse_ip r.entry_host)) ≡ false)
    pub entry : IsEntry parse_ip given r
    pub port : (r.listen_port ≡ given.listen_port) × (valid_port r.listen_port ≡ true)
    pub network :
        (r.network ≡ to_lower (remove_spaces (trim_space given.network)))
        × (is_network r.network ≡ true)
    pub target : HasTarget given.target_host r

  -- The relay, aimed at its target, is otherwise the relay that was given.
  abbrev Aimed : Relay → Relay → Type 0
  Aimed r new =
      HasTarget r.target_host new
      × (new.name ≡ r.name)
      × (new.listen_address ≡ r.listen_address)
      × (new.listen_port ≡ r.listen_port)
      × (new.entry_host_mode ≡ r.entry_host_mode)
      × (new.entry_host ≡ r.entry_host)
      × (new.network ≡ r.network)

  normalize_target-HasTarget :
      (r : Relay) {new : Relay} → normalize_target parse_ip r ≡ ok new → Aimed r new
  unfolding normalize_target
  normalize_target-HasTarget r {new} done =
      elim (Bool-cases (text_eq r.target_type (codes "proxy"))) [
        | inl is_it ↦
            let (present, same) =
              past_guard (is_missing r.target_proxy_id) _ _ (rw is_it at done) in
            subst (Aimed r) (ok-inj same)
              (proxy is_it present refl refl refl, refl, refl, refl, refl, refl, refl)
        | inr f ↦ elim (Bool-cases (text_eq r.target_type (codes "landing"))) [
          | inl is_it ↦
              let (present, same) =
                past_guard (is_missing r.target_landing_id) _ _ (rw (f, is_it) at done) in
              subst (Aimed r) (ok-inj same)
                (landing is_it present refl refl refl refl, refl, refl, refl, refl, refl, refl)
          | inr g ↦ elim (Bool-cases (text_eq r.target_type (codes "manual"))) [
            | inl is_it ↦
                let (host, normal, valid) =
                  past_host (normalize_host parse_ip r.target_host) _ (rw (f, g, is_it) at done) in
                let (in_range, same) = past_guard (not (valid_port r.target_port)) _ _ valid in
                subst (Aimed r) (ok-inj same) (
                  manual is_it (normalize_host-IsHost parse_ip r.target_host normal)
                      (ground (arith, in_range)) refl refl refl,
                  refl,
                  refl,
                  refl,
                  refl,
                  refl,
                  refl,
                )
            | inr h ↦ let no = rw (f, g, h) at done in absurd (ground arith)
          ]
        ]
      ]

  normalize_entry-IsWellFormed :
      (given : Relay) (ip : Ip) {new : Relay}
      → parse_ip (trim_space given.listen_address) ≡ some ip
      → is_empty (trim_space given.name) ≡ false
      → length (trim_space given.name) ≤ 100
      → normalize_entry parse_ip (record given { name = trim_space given.name }) ip ≡ ok new
      → IsWellFormed given new
  unfolding normalize_entry
  normalize_entry-IsWellFormed given ip {new} parsed named short done =
      let r = record given { name = trim_space given.name } in
      let (in_range, on_port) = past_guard (not (valid_port r.listen_port)) _ _ done in
      let (entry, entered_by, rest) =
        >>=-eq-ok (normalize_entry_host parse_ip r.entry_host_mode r.entry_host) _ on_port in
      let (fits, further) =
        past_guard (is_manual entry.0 && not (same_family ip (parse_ip entry.1))) _ _ rest in
      let (network, last) =
        past_guard (not (is_network (to_lower (remove_spaces (trim_space r.network))))) _ _
          further in
      let (aim, name, address, port, mode, host, net) =
        normalize_target-HasTarget
          (entered r ip entry (to_lower (remove_spaces (trim_space r.network)))) last in
      let same_entry : entry ≡ (new.entry_host_mode, new.entry_host) =
        λ i. (sym mode i, sym host i) in
      record {
        named = (name, rw name named, rw name short);
        listens = (ip, parsed, address, rw (mode, host) fits);
        entry =
            normalize_entry_host-IsEntry parse_ip given new
              (entered_by ∙ ap (λ e. ok e) same_entry);
        port = (port, rw port (ground arith));
        network = (net, rw net (ground arith));
        target = aim;
      }

  -- What the validation of a relay lets pass has the trimmed name, of 1 to 100 characters; listens on
  -- the address that was given, as net.ParseIP prints it; is entered as its mode says, at no host or at
  -- the host that was given, a host in its normal form that is no address of the other family; and has a
  -- port and a network that are valid, and one target with nothing left of the others. A target by hand
  -- is a host in its normal form and a valid port.
  pub normalize_relay-IsWellFormed :
      (r : Relay) {new : Relay} → normalize_relay parse_ip r ≡ ok new → IsWellFormed r new
  unfolding normalize_relay
  normalize_relay-IsWellFormed r {new} done =
      let name = trim_space r.name in
      let (short, found) = past_guard (is_empty name || ltb 100 (length name)) _ _ done in
      let (ip, parsed, rest) = past_search (parse_ip (trim_space r.listen_address)) _ _ found in
      normalize_entry-IsWellFormed r ip parsed (ground arith) (ground arith) rest
