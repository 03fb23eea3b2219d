-- ===== src/Prelude/Results.antt =====
-- The outcome of a fallible operation: a value or an error of the component's own type.
use mathlib.Core.Path.{◌≡◌, refl}
use mathlib.Core.Bool.{Bool, true, false}
use mathlib.Core.Option.{Option, none, some}
use vps_panel.Prelude.Tests.{if◌then◌else◌}

pub data Result {ℓ} (E : Type 0) (A : Type ℓ) : Type ℓ where
  err : E → Result E A
  ok : A → Result E A

-- `if err != nil { return err }` after a call, and on with its value otherwise.
infixl 5 ◌>>=◌
abbrev pub ◌>>=◌ {ℓ κ} :
    {E : Type 0} {A : Type ℓ} {B : Type κ} (call : Result E A) (next : A → Result E B) → Result E B
err problem >>= next = err problem
ok value >>= next = next value

-- A bind that succeeded had a first part that succeeded.
pub >>=-eq-ok {ℓ κ} :
    {E : Type 0} {A : Type ℓ} {B : Type κ} (call : Result E A) (next : A → Result E B) {b : B}
    → (call >>= next) ≡ ok b
    → (a : A) × (call ≡ ok a) × (next a ≡ ok b)
>>=-eq-ok (ok a) next h = (a, refl, h)
>>=-eq-ok (err problem) next h = cc

-- A call that succeeded got past its guards: what they tested is false, and what follows succeeded.
module _ {ℓ} {E : Type 0} {A : Type ℓ} where
  pub ok-inj : {a b : A} → Path (Result E A) (ok a) (ok b) → a ≡ b
  ok-inj h = cc

  pub past_guard :
      (b : Bool) (problem : E) (rest : Result E A) {a : A}
      → (if b then err problem else rest) ≡ ok a
      → (b ≡ false) × (rest ≡ ok a)
  past_guard true problem rest h = cc
  past_guard false problem rest h = (refl, h)

  pub past_search {κ} :
      {B : Type κ} (o : Option B) (problem : E) (rest : B → Result E A) {a : A}
      → (elim o [ none ↦ err problem | some b ↦ rest b ]) ≡ ok a
      → (b : B) × (o ≡ some b) × (rest b ≡ ok a)
  past_search none problem rest h = cc
  past_search (some b) problem rest h = (b, refl, h)
