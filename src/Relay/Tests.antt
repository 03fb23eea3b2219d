-- ===== src/Relay/Tests.antt =====
-- panel/internal/relay/validation.go at a relay whose target is changed, and at a server that holds one port.
use vps_panel.Prelude.{
  ℕ, ◌≤◌, ◌≡◌, refl, true, false, ◌&&◌, Option, none, some, List, [], ◌∷◌, any, arith, ok, ◌==◌,
  keep, if◌then◌else◌,
}
use vps_panel.Prelude.Text.{Text, codes, text_eq}
use vps_panel.Listener.{Reservation, occupied_listeners, tcp}
use vps_panel.Relay.{Ip, Relay, UpdateInput, free_ports, random_user_relay_port}
use vps_panel.Relay.FreePort.{random_user_relay_port-IsUnheld, random_user_relay_port-finds}

-- An address in its canonical form.
abbrev parse_ip : Text → Option Ip
parse_ip t =
    if text_eq t (codes "0.0.0.0")
    then some (record { text = codes "0.0.0.0"; is_v4 = true })
    else none

abbrev manual_relay : Relay
manual_relay = record {
  name = codes "out";
  listen_address = codes "0.0.0.0";
  listen_port = 20001;
  entry_host_mode = codes "auto";
  entry_host = [];
  target_type = codes "manual";
  target_proxy_id = none;
  target_client_id = none;
  target_landing_id = none;
  target_host = codes "host.example";
  target_port = 443;
  network = codes "tcp";
  enabled = true;
}

abbrev to_proxy : UpdateInput
to_proxy = record {
  name = none;
  listen_address = none;
  listen_port = none;
  entry_host_mode = none;
  entry_host = none;
  target_type = some (codes " Proxy");
  target_proxy_id = some 5;
  target_client_id = some 6;
  target_landing_id = none;
  target_host = none;
  target_port = none;
  network = some (codes "tcp, udp");
  enabled = none;
}

abbrev proxy_relay : Relay
proxy_relay = record manual_relay {
  target_type = codes "proxy";
  target_proxy_id = some 5;
  target_client_id = some 6;
  target_host = [];
  target_port = 0;
  network = codes "tcp,udp";
}

abbrev held : List Reservation
held =
    record {
      server_id = 1;
      resource_type = vps_panel.Listener.relay;
      resource_id = 8;
      port = 20000;
      network = tcp;
    }
    ∷ []

abbrev first_choice : ℕ → ℕ
first_choice n = 0

random_user_relay_port-finds_example :
    (port : ℕ) × (random_user_relay_port first_choice held 1 ≡ ok port)
random_user_relay_port-finds_example =
    random_user_relay_port-finds first_choice held 1 20001 (λ n. omega arith) (omega arith)
      (omega arith) refl

found_port : random_user_relay_port first_choice held 1 ≡ ok 20001
unfolding random_user_relay_port free_ports occupied_listeners keep
found_port = refl

random_user_relay_port-IsUnheld_example :
    (20000 ≤ 20001)
    × (20001 ≤ 29999)
    × (any (λ (r : Reservation). r.server_id == 1 && r.port == 20001) held ≡ false)
random_user_relay_port-IsUnheld_example =
    random_user_relay_port-IsUnheld first_choice held 1 found_port
