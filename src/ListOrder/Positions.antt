-- ===== src/ListOrder/Positions.antt =====
-- panel/internal/listorder/order.go: the positions that a move writes, read again.
use vps_panel.Prelude.{
  ℕ, suc, ◌≤◌, ◌<◌, ◌≡◌, refl, ap, ◌∙◌, Bool, true, false, not, some, List, [], ◌∷◌, ◌++◌, map,
  arith, ◌==◌, ==_refl, keep, find_first, All, Bool-cases, inl, inr,
}
use vps_panel.Prelude.Tables.{delete_where}
use vps_panel.ListOrder.{
  Kind, Row, before_row, is_order_of, kind_code, member, numbered, position_of, read_positions,
  sees_before, sort_stable, stored_order,
}
use vps_panel.ListOrder.Sorting.{IsDistinct, IsOrdered, sort_stable-ordered}

keep-append :
    {A : Type 0} (p : A → Bool) (xs ys : List A) → keep p (xs ++ ys) ≡ keep p xs ++ keep p ys
unfolding keep
keep-append p [] ys = refl
keep-append p (x ∷ xs) ys = elim (Bool-cases (p x)) [
  | inl e ↦ rw (e, keep-append p xs ys) refl
  | inr e ↦ rw (e, keep-append p xs ys) refl
]

keep-delete_where : {A : Type 0} (p : A → Bool) (xs : List A) → keep p (delete_where p xs) ≡ []
unfolding keep delete_where
keep-delete_where p [] = refl
keep-delete_where p (x ∷ xs) = elim (Bool-cases (p x)) [
  | inl e ↦ rw e (keep-delete_where p xs)
  | inr e ↦ rw e (rw e (keep-delete_where p xs))
]

keep-numbered :
    (n user : ℕ) (kind : Kind) (xs : List ℕ)
    → keep (is_order_of user kind) (numbered n user kind xs) ≡ numbered n user kind xs
unfolding keep numbered
keep-numbered n user kind [] = refl
keep-numbered n user kind (x ∷ xs) =
    rw (==_refl user, ==_refl (kind_code kind), keep-numbered (suc n) user kind xs) refl

-- The rows of an order stand in the order of their positions.
numbered_after :
    (m n user : ℕ) (kind : Kind) (first : Row) (xs : List ℕ)
    → first.position ≡ m
    → m < n
    → All
        (λ r. (before_row first r ≡ true) × (before_row r first ≡ false))
        (numbered n user kind xs)
unfolding numbered
numbered_after m n user kind first [] e h = tt
numbered_after m n user kind first (x ∷ xs) e h =
    ((ground arith, ground arith), numbered_after m (suc n) user kind first xs e (omega arith))

numbered-IsOrdered :
    (n user : ℕ) (kind : Kind) (xs : List ℕ) → IsOrdered before_row (numbered n user kind xs)
unfolding numbered
numbered-IsOrdered n user kind [] = tt
numbered-IsOrdered n user kind (x ∷ xs) =
    let first : Row = record { user_id = user; kind = kind; id = x; position = n } in
    (
      numbered_after n (suc n) user kind first xs refl (omega arith),
      numbered-IsOrdered (suc n) user kind xs,
    )

abbrev pub paired : ℕ → List ℕ → List (ℕ × ℕ)
paired n [] = []
paired n (x ∷ xs) = (x, n) ∷ paired (suc n) xs

map-numbered :
    (n user : ℕ) (kind : Kind) (xs : List ℕ)
    → map (λ (r : Row). (r.id, r.position)) (numbered n user kind xs) ≡ paired n xs
unfolding numbered
map-numbered n user kind [] = refl
map-numbered n user kind (x ∷ xs) = ap (λ rest. (x, n) ∷ rest) (map-numbered (suc n) user kind xs)

abbrev pub hidden_of : List Row → ℕ → Kind → List ℕ → List ℕ
hidden_of rows user kind visible =
    keep (λ id. not (member id visible)) (map (λ (e : ℕ × ℕ). e.0) (read_positions rows user kind))

pub read_positions-stored_order :
    (rows : List Row) (user : ℕ) (kind : Kind) (visible : List ℕ)
    → read_positions (stored_order rows user kind visible) user kind
      ≡ paired 1 (visible ++ hidden_of rows user kind visible)
unfolding read_positions stored_order
read_positions-stored_order rows user kind visible =
    let order = visible ++ hidden_of rows user kind visible in
    let own = numbered 1 user kind order in
    let found : keep (is_order_of user kind) (delete_where (is_order_of user kind) rows ++ own)
        ≡ own =
      keep-append (is_order_of user kind) (delete_where (is_order_of user kind) rows) own
      ∙ ap (λ xs. xs ++ keep (is_order_of user kind) own)
          (keep-delete_where (is_order_of user kind) rows)
      ∙ keep-numbered 1 user kind order in
    ap (λ rs. map (λ (r : Row). (r.id, r.position)) (sort_stable before_row rs)) found
    ∙ ap (map (λ (r : Row). (r.id, r.position)))
        (sort_stable-ordered before_row own (numbered-IsOrdered 1 user kind order))
    ∙ map-numbered 1 user kind order

position_of-first : (n x : ℕ) (xs : List ℕ) → position_of (paired n (x ∷ xs)) x ≡ some n
unfolding position_of find_first
position_of-first n x xs = rw (==_refl x, position_of) refl

position_of-skip :
    (n x z : ℕ) (xs : List ℕ)
    → (x == z) ≡ false
    → position_of (paired n (x ∷ xs)) z ≡ position_of (paired (suc n) xs) z
unfolding position_of find_first
position_of-skip n x z xs h = rw (h, position_of) refl

position_of-member :
    (n : ℕ) (xs : List ℕ) (z : ℕ)
    → member z xs ≡ true
    → (p : ℕ) × (position_of (paired n xs) z ≡ some p) × (n ≤ p)
unfolding position_of find_first
position_of-member n [] z h = cc
position_of-member n (x ∷ xs) z h = elim (Bool-cases (x == z)) [
  | inl hit ↦ (n, rw (hit, position_of) refl, omega arith)
  | inr miss ↦
      let (p, e, le) = position_of-member (suc n) xs z (ground arith) in
      (p, position_of-skip n x z xs miss ∙ e, omega arith)
]

-- What has its position in a part of the list comes after an item that stands before that part.
beyond :
    (ps : List (ℕ × ℕ)) (n m y : ℕ) (xs zs : List ℕ)
    → position_of ps y ≡ some m
    → m < n
    → All (λ z. (position_of ps z ≡ position_of (paired n xs) z) × (member z xs ≡ true)) zs
    → All (λ z. (sees_before ps y z ≡ true) × (sees_before ps z y ≡ false)) zs
beyond ps n m y xs [] e lt h = tt
beyond ps n m y xs (z ∷ zs) e lt ((same, inside), h) =
    let (p, found, le) = position_of-member n xs z inside in
    let there : position_of ps z ≡ some p = same ∙ found in
    ((rw (e, there) (ground arith), rw (e, there) (ground arith)), beyond ps n m y xs zs e lt h)

member-append : (z : ℕ) (xs ys : List ℕ) → member z xs ≡ true → member z (xs ++ ys) ≡ true
member-append z [] ys h = cc
member-append z (x ∷ xs) ys h = ground (arith, member-append z xs ys)

-- Past the first item, the positions are those of the rest.
agree_later :
    (ps : List (ℕ × ℕ)) (n x : ℕ) (xs rest zs : List ℕ)
    → member x zs ≡ false
    → ((z : ℕ) → member z zs ≡ true → member z xs ≡ true)
    → All (λ z. position_of ps z ≡ position_of (paired n (x ∷ xs ++ rest)) z) zs
    → All
        (λ z.
          (position_of ps z ≡ position_of (paired (suc n) (xs ++ rest)) z)
          × (member z (xs ++ rest) ≡ true))
        zs
agree_later ps n x xs rest [] d inside h = tt
agree_later ps n x xs rest (z ∷ zs) d inside (h, hs) = (
  (
    h ∙ position_of-skip n x z (xs ++ rest) (ground arith),
    member-append z xs rest (inside z (ground arith)),
  ),
  agree_later ps n x xs rest zs (ground arith) (λ w i. inside w (ground arith)) hs,
)

first_parts :
    (ps : List (ℕ × ℕ)) (n : ℕ) (xs zs : List ℕ)
    → All (λ z. (position_of ps z ≡ position_of (paired n xs) z) × (member z xs ≡ true)) zs
    → All (λ z. position_of ps z ≡ position_of (paired n xs) z) zs
first_parts ps n xs [] h = tt
first_parts ps n xs (z ∷ zs) ((h, i), hs) = (h, first_parts ps n xs zs hs)

-- A list is in the order of its positions, whatever follows it.
pub paired-IsOrdered :
    (ps : List (ℕ × ℕ)) (n : ℕ) (xs rest : List ℕ)
    → IsDistinct xs
    → All (λ z. position_of ps z ≡ position_of (paired n (xs ++ rest)) z) xs
    → IsOrdered (sees_before ps) xs
paired-IsOrdered ps n [] rest d h = tt
paired-IsOrdered ps n (x ∷ xs) rest (d, ds) (h, hs) =
    let agree = agree_later ps n x xs rest xs d (λ z i. i) hs in
    (
      beyond ps (suc n) n x (xs ++ rest) xs (h ∙ position_of-first n x (xs ++ rest)) (omega arith)
          agree,
      paired-IsOrdered ps (suc n) xs rest ds (first_parts ps (suc n) (xs ++ rest) xs agree),
    )
