-- ===== src/ListOrder/Tests.antt =====
-- The theorem on moves at a concrete order: of the servers 3, 5, 7, user 1 has put 7 before 3.
use vps_panel.Prelude.{ℕ, ◌≡◌, refl, false, List, [], ◌∷◌, ok, keep, find_first}
use vps_panel.Prelude.Text.{codes}
use vps_panel.ListOrder.{
  Row, insert_sorted, move, position_of, proxies, read_positions, servers, sort_list, sort_stable,
  sort_visible,
}
use vps_panel.ListOrder.Moves.{move-sort_list}

abbrev rows : List Row
rows =
    record { user_id = 1; kind = servers; id = 3; position = 2 }
    ∷ record { user_id = 1; kind = proxies; id = 3; position = 1 }
    ∷ record { user_id = 1; kind = servers; id = 7; position = 1 }
    ∷ []

abbrev defaults : List ℕ
defaults = 3 ∷ 5 ∷ 7 ∷ []

seen : sort_list rows 1 servers defaults ≡ 5 ∷ 7 ∷ 3 ∷ []
unfolding sort_list sort_visible read_positions sort_stable insert_sorted position_of find_first
    keep
seen = refl

move-sort_list_example :
    (after : List Row) × (move rows 1 servers false defaults 3 (codes "up") ≡ ok after)
    × (move rows 1 servers false defaults 7 (codes "down") ≡ ok after)
    × (sort_list after 1 servers defaults ≡ 5 ∷ 3 ∷ 7 ∷ [])
move-sort_list_example =
    move-sort_list rows 1 servers defaults (5 ∷ []) [] 7 3 (refl, (refl, (refl, tt))) seen
