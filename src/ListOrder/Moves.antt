-- ===== src/ListOrder/Moves.antt =====
-- panel/internal/listorder/order.go: what a user sees after a move.
use vps_panel.Prelude.{
  ℕ, zero, suc, ◌≤◌, ◌≡◌, refl, sym, ap, ◌∙◌, subst, Bool, true, false, ◌&&◌, not, some, List, [],
  ◌∷◌, ◌++◌, arith, keep, All, length, length-append, ok,
}
use vps_panel.Prelude.Text.{codes, text_eq}
use vps_panel.ListOrder.{
  Kind, Row, index_of, is_servers, member, move, move_in, position_of, sees_before, sort_list,
  sort_visible, stored_order, read_positions, swap_at, swapped_pair,
}
use vps_panel.ListOrder.Sorting.{
  IsDistinct, member-sort_stable, sort_stable-IsDistinct, sort_stable-keep,
}
use vps_panel.ListOrder.Positions.{hidden_of, paired, paired-IsOrdered, read_positions-stored_order}

keep-All : (ds xs : List ℕ) → All (λ x. member x ds ≡ true) xs → keep (λ y. member y ds) xs ≡ xs
unfolding keep
keep-All ds [] h = refl
keep-All ds (x ∷ xs) (h, hs) = rw (h, keep-All ds xs hs) refl

All-agree : (ps : List (ℕ × ℕ)) (xs : List ℕ) → All (λ z. position_of ps z ≡ position_of ps z) xs
All-agree ps [] = tt
All-agree ps (x ∷ xs) = (refl, All-agree ps xs)

-- An order of the items that are listed, once stored, is the order in which they are listed.
sort_list-stored_order :
    (rows : List Row) (user : ℕ) (kind : Kind) (defaults visible : List ℕ)
    → IsDistinct defaults
    → IsDistinct visible
    → All (λ x. member x visible ≡ true) defaults
    → All (λ x. member x defaults ≡ true) visible
    → sort_list (stored_order rows user kind visible) user kind defaults ≡ visible
unfolding sort_list sort_visible
sort_list-stored_order rows user kind defaults visible d v into from =
    let hidden = hidden_of rows user kind visible in
    let ps = paired 1 (visible ++ hidden) in
    ap (sort_visible defaults) (read_positions-stored_order rows user kind visible)
    ∙ sort_stable-keep (sees_before ps) visible defaults
        (paired-IsOrdered ps 1 visible hidden v (All-agree ps visible)) into d
    ∙ keep-All defaults visible from

module _ (a b : ℕ) where
  member_swap :
      (z : ℕ) (xs ys : List ℕ) → member z (xs ++ (b ∷ a ∷ ys)) ≡ member z (xs ++ (a ∷ b ∷ ys))
  member_swap z [] ys = ground arith
  member_swap z (x ∷ xs) ys = ground (arith, member_swap z xs ys)

  IsDistinct-swap :
      (xs ys : List ℕ) → IsDistinct (xs ++ (a ∷ b ∷ ys)) → IsDistinct (xs ++ (b ∷ a ∷ ys))
  IsDistinct-swap [] ys h = ground arith
  IsDistinct-swap (x ∷ xs) ys (h, hs) = (member_swap x xs ys ∙ h, IsDistinct-swap xs ys hs)

  swap_at-append : (xs ys : List ℕ) → swap_at (length xs) (xs ++ (a ∷ b ∷ ys)) ≡ xs ++ (b ∷ a ∷ ys)
  unfolding swap_at
  swap_at-append [] ys = refl
  swap_at-append (x ∷ []) ys = refl
  swap_at-append (x ∷ x' ∷ xs) ys = ap (λ r. x ∷ r) (swap_at-append (x' ∷ xs) ys)

  member-left : (xs ys : List ℕ) → member a (xs ++ (a ∷ b ∷ ys)) ≡ true
  member-left [] ys = ground arith
  member-left (x ∷ xs) ys = ground (arith, member-left xs ys)

  member-right : (xs ys : List ℕ) → member b (xs ++ (a ∷ b ∷ ys)) ≡ true
  member-right [] ys = ground arith
  member-right (x ∷ xs) ys = ground (arith, member-right xs ys)

  index_of-left :
      (xs ys : List ℕ)
      → IsDistinct (xs ++ (a ∷ b ∷ ys))
      → index_of a (xs ++ (a ∷ b ∷ ys)) ≡ some (length xs)
  index_of-left [] ys h = ground arith
  index_of-left (x ∷ xs) ys (h, hs) = ground (arith, index_of-left xs ys hs, member-left xs ys)

  index_of-right :
      (xs ys : List ℕ)
      → IsDistinct (xs ++ (a ∷ b ∷ ys))
      → index_of b (xs ++ (a ∷ b ∷ ys)) ≡ some (suc (length xs))
  index_of-right [] ys h = ground arith
  index_of-right (x ∷ xs) ys (h, hs) = ground (arith, index_of-right xs ys hs, member-right xs ys)

  long_enough : (xs ys : List ℕ) → suc (suc (length xs)) ≤ length (xs ++ (a ∷ b ∷ ys))
  long_enough xs ys = omega (arith, length-append {0} xs (a ∷ b ∷ ys))

All-members :
    (ys xs : List ℕ)
    → ((z : ℕ) → member z xs ≡ true → member z ys ≡ true)
    → All (λ x. member x ys ≡ true) xs
All-members ys [] h = tt
All-members ys (x ∷ xs) h = (h x (ground arith), All-members ys xs (λ z i. h z (ground arith)))

-- What is seen after two neighbours are swapped and the order is stored.
sort_list-swapped :
    (rows : List Row) (user : ℕ) (kind : Kind) (defaults xs ys : List ℕ) (a b : ℕ)
    → IsDistinct defaults
    → sort_list rows user kind defaults ≡ xs ++ (a ∷ b ∷ ys)
    → IsDistinct (xs ++ (a ∷ b ∷ ys))
      × (sort_list (stored_order rows user kind (xs ++ (b ∷ a ∷ ys))) user kind defaults
          ≡ xs ++ (b ∷ a ∷ ys))
unfolding sort_list sort_visible
sort_list-swapped rows user kind defaults xs ys a b d seen =
    let less = sees_before (read_positions rows user kind) in
    let distinct : IsDistinct (xs ++ (a ∷ b ∷ ys)) =
      subst IsDistinct seen (sort_stable-IsDistinct less defaults d) in
    let same : (z : ℕ) → member z (xs ++ (b ∷ a ∷ ys)) ≡ member z defaults = λ z.
      member_swap a b z xs ys ∙ ap (member z) (sym seen) ∙ member-sort_stable less z defaults in
    (
      distinct,
      sort_list-stored_order rows user kind defaults (xs ++ (b ∷ a ∷ ys)) d
          (IsDistinct-swap a b xs ys distinct)
          (All-members (xs ++ (b ∷ a ∷ ys)) defaults (λ z i. same z ∙ i))
          (All-members defaults (xs ++ (b ∷ a ∷ ys)) (λ z i. sym (same z) ∙ i)),
    )

-- The two moves that swap neighbours.
swapped_down : (i size : ℕ) → suc (suc i) ≤ size → swapped_pair false i size ≡ some i
swapped_down zero size h = ground arith
swapped_down (suc i) size h = ground arith

listed : (b : Bool) → (not b && false) ≡ false
listed b = ground arith

move_in-lower :
    (rows : List Row) (user : ℕ) (kind : Kind) (xs ys : List ℕ) (a b : ℕ)
    → IsDistinct (xs ++ (a ∷ b ∷ ys))
    → move_in rows user kind (xs ++ (a ∷ b ∷ ys)) b true
      ≡ ok (stored_order rows user kind (xs ++ (b ∷ a ∷ ys)))
unfolding move_in
move_in-lower rows user kind xs ys a b d =
    rw (index_of-right a b xs ys d, move_in, swap_at-append a b xs ys) refl

move_in-upper :
    (rows : List Row) (user : ℕ) (kind : Kind) (xs ys : List ℕ) (a b : ℕ)
    → IsDistinct (xs ++ (a ∷ b ∷ ys))
    → move_in rows user kind (xs ++ (a ∷ b ∷ ys)) a false
      ≡ ok (stored_order rows user kind (xs ++ (b ∷ a ∷ ys)))
unfolding move_in
move_in-upper rows user kind xs ys a b d =
    rw
      (
        index_of-left a b xs ys d,
        move_in,
        swapped_down (length xs) _ (long_enough a b xs ys),
        swap_at-append a b xs ys,
      )
      refl

-- Where a user sees two items next to each other in a list that is not the archive, and the list has
-- no item twice, moving the lower one up succeeds, and so does moving the upper one down; and then the
-- user sees the two swapped and every other item in its place, whatever the order rested on before.
pub move-sort_list :
    (rows : List Row) (user : ℕ) (kind : Kind) (defaults xs ys : List ℕ) (a b : ℕ)
    → IsDistinct defaults
    → sort_list rows user kind defaults ≡ xs ++ (a ∷ b ∷ ys)
    → (after : List Row) × (move rows user kind false defaults b (codes "up") ≡ ok after)
      × (move rows user kind false defaults a (codes "down") ≡ ok after)
      × (sort_list after user kind defaults ≡ xs ++ (b ∷ a ∷ ys))
unfolding move text_eq
move-sort_list rows user kind defaults xs ys a b d seen =
    let (distinct, shown) = sort_list-swapped rows user kind defaults xs ys a b d seen in
    (
      stored_order rows user kind (xs ++ (b ∷ a ∷ ys)),
      rw (listed (is_servers kind), seen) (move_in-lower rows user kind xs ys a b distinct),
      rw (listed (is_servers kind), seen) (move_in-upper rows user kind xs ys a b distinct),
      shown,
    )
