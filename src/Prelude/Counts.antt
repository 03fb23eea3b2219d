-- ===== src/Prelude/Counts.antt =====
-- What the statements on a table do to the number of its rows with a property.
use Prim.Native.Nat.{◌+◌, ◌≤◌}
use mathlib.Core.Path.{◌≡◌, refl}
use mathlib.Core.Logic.{inl, inr}
use mathlib.Core.Bool.{Bool, true, false}
use mathlib.Core.List.{List, [], ◌∷◌, ◌++◌}
use mathlib.Core.Option.{none, some}
use native.Mathlib.Omega.{arith}
use vps_panel.Prelude.Tests.{Bool-cases}
use vps_panel.Prelude.Lists.{find_first, All}
use vps_panel.Prelude.Tables.{update_where, count_where, delete_where, All-update_where-turn}

module _ {ℓ} {A : Type ℓ} (p : A → Bool) where
  pub count_where-append :
      (xs ys : List A) → count_where p (xs ++ ys) ≡ count_where p xs + count_where p ys
  unfolding count_where
  count_where-append [] ys = omega arith
  count_where-append (x ∷ xs) ys = omega (arith, count_where-append xs ys)

  -- A row at the end that does not count.
  pub count_where-append-miss :
      (xs : List A) (new : A) → p new ≡ false → count_where p (xs ++ (new ∷ [])) ≡ count_where p xs
  unfolding count_where
  count_where-append-miss [] new miss = ground arith
  count_where-append-miss (x ∷ xs) new miss = omega (arith, count_where-append-miss xs new miss)

  pub count_where-append-hit :
      (xs : List A) (new : A) → count_where p (xs ++ (new ∷ [])) ≤ count_where p xs + 1
  unfolding count_where
  count_where-append-hit [] new = ground arith
  count_where-append-hit (x ∷ xs) new = omega (arith, count_where-append-hit xs new)

  pub count_where-update_where-le :
      (q : A → Bool) (f : A → A)
      → ((x : A) → p (f x) ≡ true → p x ≡ true)
      → (xs : List A) → count_where p (update_where q f xs) ≤ count_where p xs
  unfolding count_where update_where
  count_where-update_where-le q f back [] = omega arith
  count_where-update_where-le q f back (x ∷ xs) =
      ground (arith, back x, count_where-update_where-le q f back xs)

  -- An update that meets every row with the property, and takes it from them.
  pub count_where-update_where-lost :
      (q : A → Bool) (f : A → A)
      → ((x : A) → p (f x) ≡ false)
      → ((x : A) → p x ≡ true → q x ≡ true)
      → (xs : List A) → count_where p (update_where q f xs) ≡ 0
  unfolding count_where update_where
  count_where-update_where-lost q f lost meets [] = refl
  count_where-update_where-lost q f lost meets (x ∷ xs) =
      ground (arith, lost x, meets x, count_where-update_where-lost q f lost meets xs)

  pub count_where-delete_where-le :
      (q : A → Bool) (xs : List A) → count_where p (delete_where q xs) ≤ count_where p xs
  unfolding count_where delete_where
  count_where-delete_where-le q [] = omega arith
  count_where-delete_where-le q (x ∷ xs) = ground (arith, count_where-delete_where-le q xs)

  pub count_where-delete_where : (xs : List A) → count_where p (delete_where p xs) ≡ 0
  unfolding count_where delete_where
  count_where-delete_where [] = refl
  count_where-delete_where (x ∷ xs) = ground (arith, count_where-delete_where xs)

  pub All-count_where : (xs : List A) → All (λ x. p x ≡ false) xs → count_where p xs ≡ 0
  unfolding count_where
  All-count_where [] h = refl
  All-count_where (x ∷ xs) (h, hs) = let rest = All-count_where xs hs in rw h (omega (arith, rest))

  pub All-find_first-none : (xs : List A) → All (λ x. p x ≡ false) xs → find_first p xs ≡ none
  unfolding find_first
  All-find_first-none [] h = refl
  All-find_first-none (x ∷ xs) (h, hs) = rw h (All-find_first-none xs hs)

  pub find_first-append-last :
      (xs : List A) (a : A)
      → All (λ x. p x ≡ false) xs
      → p a ≡ true
      → find_first p (xs ++ (a ∷ [])) ≡ some a
  unfolding find_first
  find_first-append-last [] a h e = rw e refl
  find_first-append-last (x ∷ xs) a (h, hs) e = rw h (find_first-append-last xs a hs e)

  pub find_first-none : (xs : List A) → find_first p xs ≡ none → count_where p xs ≡ 0
  unfolding find_first count_where
  find_first-none [] e = refl
  find_first-none (x ∷ xs) e = ground (arith, find_first-none xs)

  -- An update whose rows gain the property.
  pub count_where-update_where-gain :
      (q : A → Bool) (f : A → A)
      → ((x : A) → q x ≡ true → p (f x) ≡ true)
      → (xs : List A) → count_where q xs ≤ count_where p (update_where q f xs)
  unfolding count_where update_where
  count_where-update_where-gain q f gain [] = omega arith
  count_where-update_where-gain q f gain (x ∷ xs) =
      ground (arith, gain x, count_where-update_where-gain q f gain xs)

  -- A row that was found counts.
  pub count_where-found :
      (q : A → Bool) (xs : List A) {a : A}
      → find_first q xs ≡ some a
      → p a ≡ true
      → 1 ≤ count_where p xs
  unfolding count_where find_first
  count_where-found q [] e h = cc
  count_where-found q (x ∷ xs) {a} e h = elim (Bool-cases (q x)) [
    | inl hit ↦ let same : x ≡ a = ground arith in ground (arith, same)
    | inr miss ↦ ground (arith, count_where-found q xs {a = a})
  ]

  none_is : (a : A) (xs : List A) → count_where p xs ≤ 0 → All (λ x. p x ≡ true → x ≡ a) xs
  unfolding count_where
  none_is a [] few = tt
  none_is a (x ∷ xs) few = (λ h. absurd (ground arith), none_is a xs (ground arith))

  -- With one row at most, it is the row that was found.
  pub All-same :
      (q : A → Bool) (xs : List A) {a : A}
      → find_first q xs ≡ some a
      → p a ≡ true
      → count_where p xs ≤ 1
      → All (λ x. p x ≡ true → x ≡ a) xs
  unfolding count_where find_first
  All-same q [] e h few = tt
  All-same q (x ∷ xs) {a} e h few = elim (Bool-cases (q x)) [
    | inl hit ↦
        let same : x ≡ a = ground arith in
        let here : p x ≡ true = rw same h in
        (λ _. same, none_is a xs (let n = rw here at few in omega (arith, n)))
    | inr miss ↦
        let later : find_first q xs ≡ some a = ground arith in
        (
          λ here.
              let n = rw here at few in absurd (omega (arith, n, count_where-found q xs later h)),
          All-same q xs later h (ground arith),
        )
  ]

  -- A test that an update does not change, on a row that the update meets.
  pub find_first-update_where-hit :
      (q : A → Bool) (f : A → A)
      → ((x : A) → p (f x) ≡ p x)
      → (xs : List A) {a : A} → find_first p xs ≡ some a
      → q a ≡ true
      → find_first p (update_where q f xs) ≡ some (f a)
  unfolding find_first update_where
  find_first-update_where-hit q f same [] e h = cc
  find_first-update_where-hit q f same (x ∷ xs) {a} e h = elim (Bool-cases (p x)) [
    | inl hit ↦
        let here : x ≡ a = ground arith in
        let meets : q x ≡ true = rw here h in rw (meets, same x, hit, here) refl
    | inr miss ↦ ground (arith, same x, find_first-update_where-hit q f same xs {a = a})
  ]

  pub find_first-update_where-none :
      (q : A → Bool) (f : A → A)
      → ((x : A) → p (f x) ≡ p x)
      → (xs : List A) → find_first p xs ≡ none
      → find_first p (update_where q f xs) ≡ none
  unfolding find_first update_where
  find_first-update_where-none q f same [] e = refl
  find_first-update_where-none q f same (x ∷ xs) e =
      ground (arith, same x, find_first-update_where-none q f same xs)

  pub count_where-update_where-same :
      (q : A → Bool) (f : A → A)
      → ((x : A) → p (f x) ≡ p x)
      → (xs : List A) → count_where p (update_where q f xs) ≡ count_where p xs
  unfolding count_where update_where
  count_where-update_where-same q f same [] = refl
  count_where-update_where-same q f same (x ∷ xs) =
      ground (arith, same x, count_where-update_where-same q f same xs)

  pub All-delete_where-kept : (xs : List A) → All (λ x. p x ≡ false) (delete_where p xs)
  unfolding delete_where
  All-delete_where-kept [] = tt
  All-delete_where-kept (x ∷ xs) = elim (Bool-cases (p x)) [
    | inl e ↦ rw e (All-delete_where-kept xs)
    | inr e ↦ rw e (e, All-delete_where-kept xs)
  ]

module _ {ℓ κ μ} {A : Type ℓ} (P : A → Type κ) (Q : A → Type μ) where
  pub All-both : (xs : List A) → All P xs → All Q xs → All (λ x. P x × Q x) xs
  All-both [] h k = tt
  All-both (x ∷ xs) h k = ((h.0, k.0), All-both xs h.1 k.1)

  pub All-map : ((x : A) → P x → Q x) → (xs : List A) → All P xs → All Q xs
  All-map f [] h = tt
  All-map f (x ∷ xs) h = (f x h.0, All-map f xs h.1)

module _ {ℓ} {A : Type ℓ} where
  -- A row that is found by its own key, and that an update then uses up, is not found again.
  pub find_first-update_where-used :
      (key now later q : A → Bool) (f : A → A)
      → ((x : A) → key x ≡ false → later x ≡ false)
      → ((x : A) → later (f x) ≡ false)
      → (xs : List A) {a : A} → find_first now xs ≡ some a
      → key a ≡ true
      → q a ≡ true
      → count_where key xs ≤ 1
      → find_first later (update_where q f xs) ≡ none
  find_first-update_where-used key now later q f keyless used xs {a} found its meets own =
      All-find_first-none later (update_where q f xs) (
        All-update_where-turn (λ x. key x ≡ true → x ≡ a) (λ x. later x ≡ false) q f
          (λ x only hit. used x)
          (λ x only miss. elim (Bool-cases (key x)) [
            | inl e ↦ let same = only e in let missed = rw same at miss in absurd cc
            | inr e ↦ keyless x e
          ])
          xs (All-same key now xs found its own))
