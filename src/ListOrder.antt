-- ===== src/ListOrder.antt =====
-- panel/internal/listorder/order.go: the order in which a user sees a list. The rows that
-- visibleQuery yields for the kind, in their default order, are an argument.
pub mod Sorting
pub mod Positions
pub mod Moves
mod Tests
use vps_panel.Prelude.{
  ℕ, zero, suc, ◌+◌, ◌-◌, Bool, true, false, ◌&&◌, ◌||◌, not, Option, none, some, List, [], ◌∷◌,
  ◌++◌, map, ltb, leb, ◌==◌, if◌then◌else◌, keep, find_first, length, any, Result, ok, err,
}
use vps_panel.Prelude.Text.{Text, codes, text_eq}
use vps_panel.Prelude.Tables.{delete_where}

pub data Kind : Type 0 where
  servers proxies relays landings users personal_subscriptions published_nodes : Kind

pub data Error : Type 0 where
  not_found invalid_direction : Error

-- A row of the kind's table: user_server_order and the other six are one table with a column more.
pub record Row : Type 0 where
  pub user_id : ℕ
  pub kind : Kind
  pub id : ℕ
  pub position : ℕ

abbrev pub kind_code : Kind → ℕ
kind_code servers = 0
kind_code proxies = 1
kind_code relays = 2
kind_code landings = 3
kind_code users = 4
kind_code personal_subscriptions = 5
kind_code published_nodes = 6

abbrev pub is_order_of : ℕ → Kind → Row → Bool
is_order_of user kind r = r.user_id == user && kind_code r.kind == kind_code kind

-- sort.SliceStable: an item goes before the first one that is not less than it.
module _ {A : Type 0} (less : A → A → Bool) where
  unfoldable pub insert_sorted : A → List A → List A
  insert_sorted x [] = x ∷ []
  insert_sorted x (y ∷ ys) =
      let rest = insert_sorted x ys in if less y x then y ∷ rest else x ∷ y ∷ ys

  unfoldable pub sort_stable : List A → List A
  unfolding insert_sorted
  sort_stable [] = []
  sort_stable (x ∷ xs) = insert_sorted x (sort_stable xs)

-- ORDER BY position, id
abbrev pub before_row : Row → Row → Bool
before_row a b = ltb a.position b.position || (a.position == b.position && ltb a.id b.id)

-- The query of the order and readPositions: each id with its position, in that order.
unfoldable pub read_positions : List Row → ℕ → Kind → List (ℕ × ℕ)
unfolding keep sort_stable
read_positions rows user kind =
    map (λ r. (r.id, r.position)) (sort_stable before_row (keep (is_order_of user kind) rows))

unfoldable pub position_of : List (ℕ × ℕ) → ℕ → Option ℕ
unfolding find_first
position_of positions id = elim (find_first (λ e. e.0 == id) positions) [
  | none ↦ none
  | some e ↦ some e.1
]

-- The comparison of sortVisible: what has no position comes first.
abbrev pub is_before : Option ℕ → Option ℕ → Bool
is_before none none = false
is_before none (some b) = true
is_before (some a) none = false
is_before (some a) (some b) = ltb a b

abbrev pub sees_before : List (ℕ × ℕ) → ℕ → ℕ → Bool
sees_before positions a b = is_before (position_of positions a) (position_of positions b)

unfoldable pub sort_visible : List ℕ → List (ℕ × ℕ) → List ℕ
unfolding sort_stable
sort_visible defaults positions = sort_stable (sees_before positions) defaults

-- Sort
unfoldable pub sort_list : List Row → ℕ → Kind → List ℕ → List ℕ
unfolding read_positions sort_visible
sort_list rows user kind defaults = sort_visible defaults (read_positions rows user kind)

abbrev pub index_of : ℕ → List ℕ → Option ℕ
index_of id [] = none
index_of id (x ∷ xs) =
    if x == id then some 0 else elim (index_of id xs) [ none ↦ none | some i ↦ some (suc i) ]

-- xs[i], xs[i+1] = xs[i+1], xs[i]
unfoldable pub swap_at : ℕ → List ℕ → List ℕ
swap_at i [] = []
swap_at i (x ∷ []) = x ∷ []
swap_at zero (x ∷ y ∷ xs) = y ∷ x ∷ xs
swap_at (suc i) (x ∷ y ∷ xs) = x ∷ swap_at i (y ∷ xs)

abbrev pub member : ℕ → List ℕ → Bool
member id = any (λ x. x == id)

-- The place of the pair that a move swaps: none when the item stands at that end already.
abbrev pub swapped_pair : Bool → ℕ → ℕ → Option ℕ
swapped_pair up zero size = if up then none else if ltb 1 size then some 0 else none
swapped_pair up (suc i) size =
    if up then some i else if ltb (suc (suc i)) size then some (suc i) else none

unfoldable pub numbered : ℕ → ℕ → Kind → List ℕ → List Row
numbered n user kind [] = []
numbered n user kind (x ∷ xs) =
    record { user_id = user; kind = kind; id = x; position = n } ∷ numbered (suc n) user kind xs

-- The rows that are written: the new order of what is seen, then the other preferences.
unfoldable pub stored_order : List Row → ℕ → Kind → List ℕ → List Row
unfolding numbered keep
stored_order rows user kind visible =
    let stored = map (λ (e : ℕ × ℕ). e.0) (read_positions rows user kind) in
    let hidden = keep (λ id. not (member id visible)) stored in
    delete_where (is_order_of user kind) rows ++ numbered 1 user kind (visible ++ hidden)

abbrev is_servers : Kind → Bool
is_servers servers = true
is_servers _ = false

-- The part of Move from the search for the item on.
unfoldable pub move_in : List Row → ℕ → Kind → List ℕ → ℕ → Bool → Result Error (List Row)
unfolding stored_order swap_at
move_in rows user kind visible id up = elim (index_of id visible) [
  | none ↦ err not_found
  | some i ↦ elim (swapped_pair up i (length visible)) [
    | none ↦ ok rows
    | some j ↦ ok (stored_order rows user kind (swap_at j visible))
  ]
]

-- Move
unfoldable pub move : List Row → ℕ → Kind → Bool → List ℕ → ℕ → Text → Result Error (List Row)
unfolding sort_list move_in
move rows user kind archived defaults id direction =
    let up = text_eq direction (codes "up") in
    if not (up || text_eq direction (codes "down"))
    then err invalid_direction
    else if not (is_servers kind) && archived
    then err not_found
    else move_in rows user kind (sort_list rows user kind defaults) id up
