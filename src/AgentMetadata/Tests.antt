-- ===== src/AgentMetadata/Tests.antt =====
-- The theorem on capabilities at a list that is out of order and says one thing twice.
use vps_panel.Prelude.{◌≡◌, refl, List, [], ◌∷◌, ok, arith}
use vps_panel.Prelude.Text.{Text, codes, text_eq, trim_left, trim_space, is_space}
use vps_panel.AgentMetadata.{
  insert_unique, normalize_capabilities, text_before, unique_sorted, valid_metadata_identifier,
}
use vps_panel.AgentMetadata.Canonical.{IsNormal, normalize_capabilities-IsNormal}

abbrev declared : List Text
declared = codes " metrics" ∷ codes "client_traffic" ∷ codes "metrics" ∷ []

abbrev normal : List Text
normal = codes "client_traffic" ∷ codes "metrics" ∷ []

first_time : normalize_capabilities declared ≡ ok normal
unfolding normalize_capabilities unique_sorted insert_unique text_before text_eq trim_space
    trim_left is_space valid_metadata_identifier
first_time = refl

normalize_capabilities-IsNormal_example :
    (ts : List Text) × (normalize_capabilities declared ≡ ok ts)
    × IsNormal declared ts
    × (normalize_capabilities ts ≡ ok ts)
unfolding text_eq trim_space trim_left is_space valid_metadata_identifier
normalize_capabilities-IsNormal_example =
    normalize_capabilities-IsNormal declared (omega arith) (refl, (refl, (refl, tt)))
