-- ===== src/Listener/Tests.antt =====
-- The theorems on listener ports at concrete tables.
use vps_panel.Prelude.{
  ℕ, ◌≡◌, ◌↔◌, refl, Bool, Option, none, some, List, [], ◌∷◌, ◌++◌, ok, ◌==◌, if◌then◌else◌,
}
use vps_panel.Prelude.Text.{codes, text_eq, trim_space, to_lower, remove_spaces}
use vps_panel.Prelude.Tables.{upsert}
use vps_panel.Listener.{
  AvailabilityOptions, Reservation, both, client_relay, conflicts, listener_available,
  normalize_network, is_row, overlap, proxy, relay, reserve_listener, tcp, udp,
}
use vps_panel.Listener.Safety.{
  NoConflict, listener_available-reserve_listener, reserve_listener-NoConflict,
}

-- Relay 3 belongs to client 7.
abbrev owner : ℕ → Option ℕ
owner id = if id == 3 then some 7 else none

abbrev on_one : ℕ → Bool
on_one id = id == 1

abbrev held : List Reservation
held =
    record {
      server_id = 1;
      resource_type = client_relay;
      resource_id = 7;
      port = 8000;
      network = tcp;
    }
    ∷ record { server_id = 1; resource_type = proxy; resource_id = 2; port = 8000; network = udp }
    ∷ []

abbrev wanted : Reservation
wanted = record {
  server_id = 1;
  resource_type = relay;
  resource_id = 3;
  port = 8000;
  network = both;
}

abbrev granted : Reservation
granted = record {
  server_id = 1;
  resource_type = relay;
  resource_id = 3;
  port = 8000;
  network = tcp;
}

abbrev own_client : AvailabilityOptions
own_client = record { excluded = none; allowed_client = some 7 }

held-NoConflict : NoConflict owner held
unfolding conflicts overlap
held-NoConflict = ((refl, tt), (tt, tt))

reserved : reserve_listener owner on_one held wanted (codes " TCP") ≡ ok (held ++ (granted ∷ []))
unfolding reserve_listener is_row normalize_network conflicts overlap text_eq to_lower remove_spaces
    trim_space upsert
reserved = refl

available : listener_available held 1 8000 (codes " TCP") own_client ≡ ok tt
unfolding listener_available normalize_network overlap text_eq to_lower remove_spaces trim_space
available = refl

reserve_listener-NoConflict_example : NoConflict owner (held ++ (granted ∷ []))
reserve_listener-NoConflict_example =
    reserve_listener-NoConflict owner on_one held (held ++ (granted ∷ [])) wanted (codes " TCP")
      held-NoConflict reserved

listener_available-reserve_listener_example :
    (listener_available held 1 8000 (codes " TCP") own_client ≡ ok tt) ↔ (
      (after : List Reservation) × (reserve_listener owner on_one held wanted (codes " TCP")
        ≡ ok after))
unfolding is_row
listener_available-reserve_listener_example =
    listener_available-reserve_listener owner on_one held wanted (codes " TCP") refl own_client refl
      refl refl
