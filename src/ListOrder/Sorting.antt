-- ===== src/ListOrder/Sorting.antt =====
-- The stable sort of panel/internal/listorder/order.go: it keeps an ordered list, and it puts any list of
-- distinct items of an ordered list into the order of that list.
use vps_panel.Prelude.{
  ℕ, ◌≡◌, refl, sym, subst, ◌∙◌, Bool, true, false, List, [], ◌∷◌, arith, ◌==◌, ==_refl, keep, All,
  All-keep, Bool-cases, inl, inr,
}
use vps_panel.ListOrder.{insert_sorted, sort_stable, member}

-- Each item is less than every later one, and no later one is less than it.
module _ {A : Type 0} (less : A → A → Bool) where
  abbrev pub IsOrdered : List A → Type 0
  IsOrdered [] = Unit
  IsOrdered (y ∷ ys) = All (λ x. (less y x ≡ true) × (less x y ≡ false)) ys × IsOrdered ys

  insert_first :
      (x : A) (ys : List A)
      → All (λ y. (less x y ≡ true) × (less y x ≡ false)) ys
      → insert_sorted less x ys ≡ x ∷ ys
  unfolding insert_sorted
  insert_first x [] h = refl
  insert_first x (y ∷ ys) (h, hs) = rw (h.1) refl

  pub sort_stable-ordered : (xs : List A) → IsOrdered xs → sort_stable less xs ≡ xs
  unfolding sort_stable
  sort_stable-ordered [] h = refl
  sort_stable-ordered (x ∷ xs) (h, hs) = rw (sort_stable-ordered xs hs) (insert_first x xs h)

-- No item occurs twice.
abbrev pub IsDistinct : List ℕ → Type 0
IsDistinct [] = Unit
IsDistinct (x ∷ xs) = (member x xs ≡ false) × IsDistinct xs

module _ (less : ℕ → ℕ → Bool) where
  pub member-insert_sorted :
      (a x : ℕ) (ys : List ℕ) → member a (insert_sorted less x ys) ≡ member a (x ∷ ys)
  unfolding insert_sorted
  member-insert_sorted a x [] = refl
  member-insert_sorted a x (y ∷ ys) = ground (arith, member-insert_sorted a x ys)

  pub member-sort_stable : (a : ℕ) (xs : List ℕ) → member a (sort_stable less xs) ≡ member a xs
  unfolding sort_stable
  member-sort_stable a [] = refl
  member-sort_stable a (x ∷ xs) =
      ground (arith, member-insert_sorted a x (sort_stable less xs), member-sort_stable a xs)

  insert_sorted-IsDistinct :
      (x : ℕ) (ys : List ℕ)
      → member x ys ≡ false
      → IsDistinct ys
      → IsDistinct (insert_sorted less x ys)
  unfolding insert_sorted
  insert_sorted-IsDistinct x [] h d = (refl, tt)
  insert_sorted-IsDistinct x (y ∷ ys) h (d, ds) =
      ground (arith, insert_sorted-IsDistinct x ys, member-insert_sorted y x ys)

  pub sort_stable-IsDistinct : (xs : List ℕ) → IsDistinct xs → IsDistinct (sort_stable less xs)
  unfolding sort_stable
  sort_stable-IsDistinct [] h = tt
  sort_stable-IsDistinct (x ∷ xs) (h, hs) =
      insert_sorted-IsDistinct x (sort_stable less xs) (member-sort_stable x xs ∙ h)
        (sort_stable-IsDistinct xs hs)

  All_member : (P : ℕ → Type 0) (a : ℕ) (xs : List ℕ) → member a xs ≡ true → All P xs → P a
  All_member P a [] m h = cc
  All_member P a (x ∷ xs) m (h, hs) = elim (Bool-cases (x == a)) [
    | inl hit ↦ let same : x ≡ a = ground arith in subst P same h
    | inr miss ↦ All_member P a xs (ground arith) hs
  ]

  -- What comes after an item is another item.
  later_differ :
      (y : ℕ) (zs : List ℕ)
      → All (λ z. (less y z ≡ true) × (less z y ≡ false)) zs
      → All (λ z. (y == z) ≡ false) zs
  later_differ y [] h = tt
  later_differ y (z ∷ zs) ((h, k), hs) = elim (Bool-cases (y == z)) [
    | inl hit ↦
        let same : y ≡ z = ground arith in
        let no_more : less y y ≡ false = subst (λ w. less w y ≡ false) (sym same) k in
        let more : less y y ≡ true = subst (λ w. less y w ≡ true) (sym same) h in
        absurd (ground arith)
    | inr miss ↦ (miss, later_differ y zs hs)
  ]

  keep_none : (ys : List ℕ) → keep (λ y. member y []) ys ≡ []
  unfolding keep
  keep_none [] = refl
  keep_none (y ∷ ys) = keep_none ys

  keep_skip :
      (x : ℕ) (xs zs : List ℕ)
      → All (λ z. (x == z) ≡ false) zs
      → keep (λ z. member z (x ∷ xs)) zs ≡ keep (λ z. member z xs) zs
  unfolding keep
  keep_skip x xs [] h = refl
  keep_skip x xs (z ∷ zs) (h, hs) = rw (h, keep_skip x xs zs hs) refl

  keep-insert_head :
      (x : ℕ) (xs ys : List ℕ)
      → All (λ z. (less x z ≡ true) × (less z x ≡ false)) ys
      → member x xs ≡ false
      → insert_sorted less x (keep (λ y. member y xs) (x ∷ ys))
        ≡ keep (λ y. member y (x ∷ xs)) (x ∷ ys)
  unfolding keep
  keep-insert_head x xs ys h n =
      let others = keep_skip x xs ys (later_differ x ys h) in
      let lowest =
        insert_first less x (keep (λ y. member y xs) ys)
          (All-keep (λ z. (less x z ≡ true) × (less z x ≡ false)) (λ y. member y xs) ys h) in
      rw (n, ==_refl x, others, lowest) refl

  keep-insert_sorted :
      (x : ℕ) (xs ys : List ℕ)
      → IsOrdered less ys
      → member x ys ≡ true
      → member x xs ≡ false
      → insert_sorted less x (keep (λ y. member y xs) ys) ≡ keep (λ y. member y (x ∷ xs)) ys
  unfolding keep insert_sorted
  keep-insert_sorted x xs [] h m n = cc
  keep-insert_sorted x xs (y ∷ ys) (h, hs) m n = elim (Bool-cases (x == y)) [
    | inl hit ↦
        let same : x ≡ y = ground arith in
        subst
          (λ z.
            insert_sorted less x (keep (λ y. member y xs) (z ∷ ys))
            ≡ keep (λ y. member y (x ∷ xs)) (z ∷ ys))
          same
          (keep-insert_head x xs ys
            (subst (λ z. All (λ w. (less z w ≡ true) × (less w z ≡ false)) ys) (sym same) h) n)
    | inr miss ↦
        let ih = keep-insert_sorted x xs ys hs (ground arith) n in
        let less_it : less y x ≡ true = (All_member _ x ys (ground arith) h).0 in
        elim (Bool-cases (member y xs)) [
          | inl kept ↦ rw (kept, miss, less_it, ih) refl
          | inr gone ↦ rw (gone, miss) ih
        ]
  ]

  -- Sorting distinct items of an ordered list puts them into the order of that list.
  pub sort_stable-keep :
      (ys xs : List ℕ)
      → IsOrdered less ys
      → All (λ x. member x ys ≡ true) xs
      → IsDistinct xs
      → sort_stable less xs ≡ keep (λ y. member y xs) ys
  unfolding sort_stable
  sort_stable-keep ys [] o m d = sym (keep_none ys)
  sort_stable-keep ys (x ∷ xs) o (m, ms) (d, ds) =
      rw (sort_stable-keep ys xs o ms ds) (keep-insert_sorted x xs ys o m d)
