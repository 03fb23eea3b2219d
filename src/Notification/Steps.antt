-- ===== src/Notification/Steps.antt =====
-- panel/internal/notification/watcher.go: which step of the warnings a usage has reached.
use vps_panel.Prelude.{
  ℕ, zero, suc, ◌+◌, ◌*◌, ◌/◌, ◌%◌, ◌≤◌, ◌<◌, ◌≡◌, ◌⊎◌, ap, ◌∙◌, subst, sym, inl, inr, refl, Bool,
  true, false, ◌&&◌, some, ltb, leb, ◌==◌, arith, Bool-cases,
}
use native.Mathlib.Nat.{add-mul, mul_assoc}
use vps_panel.Notification.{Settings, minimum, steps_from, traffic_step}

-- Usage is below the minimum exactly when it is below that percentage of the limit.
pub minimum_lem :
    (used limit percent : ℕ) → ltb used (minimum limit percent) ≡ ltb (used * 100) (limit * percent)
unfolding minimum
minimum_lem used limit percent =
    let q = limit / 100 in
    let r = limit % 100 in
    let parts : limit ≡ 100 * q + r = omega arith in
    let product : limit * percent ≡ 100 * (q * percent) + r * percent =
      ap (λ n. n * percent) parts
      ∙ add-mul (100 * q) r percent
      ∙ ap (λ n. n + r * percent) (mul_assoc 100 q percent) in
    ground (arith, product)

-- The step reached by `used`: on the grid from `percent` on by `by`, or the step before.
abbrev pub Reached : ℕ → ℕ → ℕ → ℕ → ℕ → ℕ → Type 0
Reached used limit by percent last s =
    ((s ≡ last) × ((100 ≤ percent) ⊎ (used * 100 < limit * percent)))
    ⊎ (((k : ℕ) × (s ≡ percent + k * by))
        × (s < 100)
        × (limit * s ≤ used * 100)
        × ((100 ≤ s + by) ⊎ (used * 100 < limit * (s + by))))

Reached-before :
    (used limit by percent last s : ℕ)
    → percent < 100
    → limit * percent ≤ used * 100
    → Reached used limit by (percent + by) percent s
    → Reached used limit by percent last s
Reached-before used limit by percent last s low here (inl (same, stop)) = inr (
    subst
      (λ t.
        ((k : ℕ) × (t ≡ percent + k * by))
        × (t < 100)
        × (limit * t ≤ used * 100)
        × ((100 ≤ t + by) ⊎ (used * 100 < limit * (t + by))))
      (sym same) ((0, omega arith), low, here, stop))
Reached-before used limit by percent last s low here (inr ((k, from), below, at, stop)) =
    let product : (1 + k) * by ≡ 1 * by + k * by = add-mul 1 k by in
    inr ((1 + k, omega (arith, from, product)), below, at, stop)

pub steps_from-Reached :
    (fuel used limit by percent last : ℕ)
    → 1 ≤ by
    → 1 ≤ fuel
    → 101 ≤ fuel + percent
    → (s : ℕ) × (steps_from fuel used limit by percent last ≡ some s)
      × Reached used limit by percent last s
unfolding steps_from
steps_from-Reached zero used limit by percent last pos one enough = absurd (omega (arith, one))
steps_from-Reached (suc fuel) used limit by percent last pos one enough =
    elim (Bool-cases (ltb percent 100)) [
      | inr high ↦ (last, rw high refl, inl (refl, inl (ground arith)))
      | inl low ↦ elim (Bool-cases (ltb used (minimum limit percent))) [
        | inl under ↦
            let below = minimum_lem used limit percent in
            (last, rw (low, under) refl, inl (refl, inr (ground arith)))
        | inr over ↦
            let below = minimum_lem used limit percent in
            let (s, e, reached) =
              steps_from-Reached fuel used limit by (percent + by) percent pos (ground arith)
                (omega (arith, pos, enough)) in
            (
              s,
              rw (low, over) e,
              Reached-before used limit by percent last s (ground arith) (ground arith) reached,
            )
      ]
    ]

positive : (n : ℕ) → n == 0 ≡ false → 1 ≤ n
positive n h = ground arith

not_used_up :
    (limit used : ℕ) (full : Bool)
    → leb limit used && full ≡ false
    → (used < limit) ⊎ (full ≡ false)
not_used_up limit used true h = inl (ground arith)
not_used_up limit used false h = inr refl

-- The step of a usage. The alternatives exclude each other.
abbrev pub IsStepOf : ℕ → ℕ → Settings → ℕ → Type 0
IsStepOf used limit s step =
    ((limit ≡ 0) × (step ≡ 0))
    ⊎ ((1 ≤ limit)
        × (((limit ≤ used) × (s.traffic_full_enabled ≡ true) × (step ≡ 100))
            ⊎ (((used < limit) ⊎ (s.traffic_full_enabled ≡ false))
                × Reached used limit s.traffic_step_percent s.traffic_threshold_percent 0 step)))

-- The warning's step of a usage, for settings whose steps are not 0: none for a server without a limit,
-- 100 exactly when the limit is used up and that is told of; else the highest step on the grid of the
-- settings below 100 whose exact share of the limit is used, or 0 below the first.
pub traffic_step-IsStepOf :
    (used limit : ℕ) (s : Settings)
    → 1 ≤ s.traffic_step_percent
    → (step : ℕ) × (traffic_step used limit s ≡ some step) × IsStepOf used limit s step
unfolding traffic_step
traffic_step-IsStepOf used limit s pos = elim (Bool-cases (limit == 0)) [
  | inl e ↦ (0, rw e refl, inl (ground arith, refl))
  | inr e ↦
      let set : 1 ≤ limit = positive limit e in
      elim (Bool-cases (leb limit used && s.traffic_full_enabled)) [
        | inl full ↦ (100, rw (e, full) refl, inr (set, inl (ground arith, ground arith, refl)))
        | inr f ↦
            let (step, there, reached) =
              steps_from-Reached 101 used limit s.traffic_step_percent s.traffic_threshold_percent 0
                pos (omega arith) (omega arith) in
            (
              step,
              rw (e, f) there,
              inr (set, inr (not_used_up limit used s.traffic_full_enabled f, reached)),
            )
      ]
]

at_most_100 : (used limit : ℕ) (s : Settings) (step : ℕ) → IsStepOf used limit s step → step ≤ 100
at_most_100 used limit s step (inl (_, h)) = omega (arith, h)
at_most_100 used limit s step (inr (_, inl (_, _, h))) = omega (arith, h)
at_most_100 used limit s step (inr (_, inr (_, inl (h, _)))) = omega (arith, h)
at_most_100 used limit s step (inr (_, inr (_, inr (_, h, _, _)))) = omega (arith, h)

some_inj : {a b : ℕ} → some a ≡ some b → a ≡ b
some_inj h = cc

-- The step so far is kept.
steps_from_le :
    (fuel used limit by percent last s : ℕ)
    → last ≤ percent
    → steps_from fuel used limit by percent last ≡ some s
    → last ≤ s
unfolding steps_from
steps_from_le zero used limit by percent last s le e = cc
steps_from_le (suc fuel) used limit by percent last s le e = elim (Bool-cases (ltb percent 100)) [
  | inr high ↦ let same : last ≡ s = some_inj (rw high at e) in omega (arith, same)
  | inl low ↦ elim (Bool-cases (ltb used (minimum limit percent))) [
    | inl under ↦ let same : last ≡ s = some_inj (rw (low, under) at e) in omega (arith, same)
    | inr over ↦
        let further : steps_from fuel used limit by (percent + by) percent ≡ some s =
          rw (low, over) at e in
        let later =
          steps_from_le fuel used limit by (percent + by) percent s (omega arith) further in
        omega (arith, later, le)
  ]
]

steps_from_mono :
    (fuel used more limit by percent last a b : ℕ)
    → used ≤ more
    → last ≤ percent
    → steps_from fuel used limit by percent last ≡ some a
    → steps_from fuel more limit by percent last ≡ some b
    → a ≤ b
unfolding steps_from
steps_from_mono zero used more limit by percent last a b le low_last e f = cc
steps_from_mono (suc fuel) used more limit by percent last a b le low_last e f =
    elim (Bool-cases (ltb percent 100)) [
      | inr high ↦
          let same : last ≡ a = some_inj (rw high at e) in
          let also : last ≡ b = some_inj (rw high at f) in omega (arith, same, also)
      | inl low ↦ elim (Bool-cases (ltb used (minimum limit percent))) [
        | inl under ↦
            let same : last ≡ a = some_inj (rw (low, under) at e) in
            let least = steps_from_le (suc fuel) more limit by percent last b low_last f in
            omega (arith, same, least)
        | inr over ↦
            let also : ltb more (minimum limit percent) ≡ false = ground arith in
            steps_from_mono fuel used more limit by (percent + by) percent a b le (omega arith)
              (rw (low, over) at e) (rw (low, also) at f)
      ]
    ]

not_full :
    (limit used more : ℕ) (full : Bool)
    → used ≤ more
    → leb limit more && full ≡ false
    → leb limit used && full ≡ false
not_full limit used more full le h = ground arith

-- More usage never reaches a lower step.
pub traffic_step_mono :
    (used more limit : ℕ) (s : Settings) (a b : ℕ)
    → 1 ≤ s.traffic_step_percent
    → used ≤ more
    → traffic_step used limit s ≡ some a
    → traffic_step more limit s ≡ some b
    → a ≤ b
unfolding traffic_step
traffic_step_mono used more limit s a b pos le e f = elim (Bool-cases (limit == 0)) [
  | inl none_set ↦ let zero_a : 0 ≡ a = some_inj (rw none_set at e) in omega (arith, zero_a)
  | inr set ↦ elim (Bool-cases (leb limit more && s.traffic_full_enabled)) [
    | inl full ↦
        let top : 100 ≡ b = some_inj (rw (set, full) at f) in
        let (step, there, reached) = traffic_step-IsStepOf used limit s pos in
        let same : step ≡ a = some_inj (sym there ∙ e) in
        let at_most = at_most_100 used limit s step reached in omega (arith, top, same, at_most)
    | inr not_more ↦
        let not_used = not_full limit used more s.traffic_full_enabled le not_more in
        steps_from_mono 101 used more limit s.traffic_step_percent s.traffic_threshold_percent 0 a b
          le (omega arith) (rw (set, not_used) at e) (rw (set, not_more) at f)
  ]
]
