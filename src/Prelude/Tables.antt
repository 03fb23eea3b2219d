-- ===== src/Prelude/Tables.antt =====
-- Database tables as lists of rows, and the statements that the program runs on them.
use Prim.Native.Nat.{ℕ, ◌+◌}
use mathlib.Core.Path.{◌≡◌, refl, ap, subst}
use mathlib.Core.Logic.{inl, inr}
use mathlib.Core.Bool.{Bool, true, false}
use mathlib.Core.List.{List, [], ◌∷◌, ◌++◌}
use mathlib.Core.Option.{none, some}
use native.Mathlib.Omega.{arith}
use vps_panel.Prelude.Tests.{if◌then◌else◌, Bool-cases}
use vps_panel.Prelude.Lists.{length, any, find_first, All}

module _ {ℓ} {A : Type ℓ} where
  -- UPDATE ... SET f WHERE p
  unfoldable pub update_where : (A → Bool) → (A → A) → List A → List A
  update_where p f [] = []
  update_where p f (x ∷ xs) = (if p x then f x else x) ∷ update_where p f xs

  -- RowsAffected of a statement with the condition `p`
  unfoldable pub count_where : (A → Bool) → List A → ℕ
  count_where p [] = 0
  count_where p (x ∷ xs) = (if p x then 1 else 0) + count_where p xs

  -- DELETE ... WHERE p
  unfoldable pub delete_where : (A → Bool) → List A → List A
  delete_where p [] = []
  delete_where p (x ∷ xs) = if p x then delete_where p xs else x ∷ delete_where p xs

  -- INSERT ... ON CONFLICT DO UPDATE: `p` picks the row in conflict.
  unfoldable pub upsert : (A → Bool) → (A → A) → A → List A → List A
  upsert p f new [] = new ∷ []
  upsert p f new (x ∷ xs) = if p x then f x ∷ xs else x ∷ upsert p f new xs

  -- An update that leaves a test alone may as well follow the deletion.
  pub delete_where-update_where :
      (p q : A → Bool) (f : A → A)
      → ((x : A) → p (f x) ≡ p x)
      → (xs : List A) → delete_where p (update_where q f xs) ≡ update_where q f (delete_where p xs)
  unfolding update_where delete_where
  delete_where-update_where p q f same [] = refl
  delete_where-update_where p q f same (x ∷ xs) =
      ground (arith, same x, delete_where-update_where p q f same xs)

  pub length-update_where :
      (p : A → Bool) (f : A → A) (xs : List A) → length (update_where p f xs) ≡ length xs
  unfolding update_where
  length-update_where p f [] = refl
  length-update_where p f (x ∷ xs) = omega (arith, length-update_where p f xs)

  -- A row that is read after an update of the rows with the same key.
  pub find_first-update_where :
      (p : A → Bool) (f : A → A)
      → ((x : A) → p x ≡ true → p (f x) ≡ true)
      → (xs : List A) {a : A} → find_first p xs ≡ some a
      → find_first p (update_where p f xs) ≡ some (f a)
  unfolding find_first update_where
  find_first-update_where p f same [] e = cc
  find_first-update_where p f same (x ∷ xs) {a} e =
      ground (arith, same x, find_first-update_where p f same xs {a = a})

  -- A row that an update leaves out is read as before, if the update keeps the keys.
  pub find_first-update_where-skip :
      (p q : A → Bool) (f : A → A)
      → ((x : A) → p (f x) ≡ p x)
      → (xs : List A) {a : A} → find_first p xs ≡ some a
      → q a ≡ false
      → find_first p (update_where q f xs) ≡ some a
  unfolding find_first update_where
  find_first-update_where-skip p q f same [] e skip = cc
  find_first-update_where-skip p q f same (x ∷ xs) {a} e skip = elim (Bool-cases (p x)) [
    | inl hit ↦
        let here : x ≡ a = ground arith in
        let out : q x ≡ false = rw here skip in rw (out, hit) (ap some here)
    | inr miss ↦ ground (arith, same x, find_first-update_where-skip p q f same xs {a = a})
  ]

  pub any-update_where :
      (p q : A → Bool) (f : A → A)
      → ((x : A) → p (f x) ≡ p x)
      → (xs : List A) → any p (update_where q f xs) ≡ any p xs
  unfolding update_where
  any-update_where p q f same [] = refl
  any-update_where p q f same (x ∷ xs) = ground (arith, same x, any-update_where p q f same xs)

  -- The row that is read passes the test.
  pub find_first-holds :
      (p : A → Bool) (xs : List A) {a : A} → find_first p xs ≡ some a → p a ≡ true
  unfolding find_first
  find_first-holds p [] e = cc
  find_first-holds p (x ∷ xs) {a} e = elim (Bool-cases (p x)) [
    | inl hit ↦ let here : x ≡ a = ground arith in subst (λ y. p y ≡ true) here hit
    | inr miss ↦ find_first-holds p xs (ground arith)
  ]

  pub find_first-append :
      (p : A → Bool) (xs ys : List A) {a : A}
      → find_first p xs ≡ some a
      → find_first p (xs ++ ys) ≡ some a
  unfolding find_first
  find_first-append p [] ys e = cc
  find_first-append p (x ∷ xs) ys {a} e = ground (arith, find_first-append p xs ys {a = a})

  pub find_first-upsert :
      (p : A → Bool) (f : A → A) (new : A)
      → ((x : A) → p x ≡ true → p (f x) ≡ true)
      → p new ≡ true
      → (xs : List A)
      → find_first p (upsert p f new xs)
        ≡ (elim (find_first p xs) [ none ↦ some new | some a ↦ some (f a) ])
  unfolding find_first upsert
  find_first-upsert p f new same h [] = ground arith
  find_first-upsert p f new same h (x ∷ xs) =
      ground (arith, same x, find_first-upsert p f new same h xs)

-- What holds of every row holds of the row that is read, and of every row after a statement.
module _ {ℓ κ} {A : Type ℓ} (P : A → Type κ) (p : A → Bool) where
  pub All-find_first : (xs : List A) {a : A} → find_first p xs ≡ some a → All P xs → P a
  unfolding find_first
  All-find_first [] e h = cc
  All-find_first (x ∷ xs) {a} e h = elim (Bool-cases (p x)) [
    | inl hit ↦ let same : x ≡ a = ground arith in subst P same h.0
    | inr miss ↦ All-find_first xs (ground arith) h.1
  ]

  pub All-update_where :
      (f : A → A)
      → ((x : A) → P x → P (f x))
      → (xs : List A) → All P xs
      → All P (update_where p f xs)
  unfolding update_where
  All-update_where f keeps [] h = tt
  All-update_where f keeps (x ∷ xs) h = ground (arith, keeps x h.0, All-update_where f keeps xs h.1)

  pub All-upsert :
      (f : A → A) (new : A)
      → ((x : A) → P x → P (f x))
      → P new
      → (xs : List A) → All P xs
      → All P (upsert p f new xs)
  unfolding upsert
  All-upsert f new keeps fresh [] h = (fresh, tt)
  All-upsert f new keeps fresh (x ∷ xs) h =
      ground (arith, keeps x h.0, All-upsert f new keeps fresh xs h.1)

  pub All-delete_where : (xs : List A) → All P xs → All P (delete_where p xs)
  unfolding delete_where
  All-delete_where [] h = tt
  All-delete_where (x ∷ xs) h = ground (arith, All-delete_where xs h.1)

module _ {ℓ κ} {A : Type ℓ} (P : A → Type κ) where
  pub All-append : (xs ys : List A) → All P xs → All P ys → All P (xs ++ ys)
  All-append [] ys h k = k
  All-append (x ∷ xs) ys (h, hs) k = (h, All-append xs ys hs k)

  -- An update that turns every row into one with another property.
  pub All-update_where-turn {μ} :
      (Q : A → Type μ) (p : A → Bool) (f : A → A)
      → ((x : A) → P x → p x ≡ true → Q (f x))
      → ((x : A) → P x → p x ≡ false → Q x)
      → (xs : List A) → All P xs
      → All Q (update_where p f xs)
  unfolding update_where
  All-update_where-turn Q p f hit miss [] h = tt
  All-update_where-turn Q p f hit miss (x ∷ xs) (h, hs) =
      let rest = All-update_where-turn Q p f hit miss xs hs in
      elim (Bool-cases (p x)) [ inl e ↦ rw e (hit x h e, rest) | inr e ↦ rw e (miss x h e, rest) ]

module _ {ℓ} {A : Type ℓ} where
  -- What holds of every row, whatever it is.
  pub All-rows {κ} : (P : A → Type κ) → ((x : A) → P x) → (xs : List A) → All P xs
  All-rows P h [] = tt
  All-rows P h (x ∷ xs) = (h x, All-rows P h xs)
