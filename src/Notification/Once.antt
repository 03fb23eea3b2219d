-- ===== src/Notification/Once.antt =====
-- panel/internal/notification/watcher.go: what a series of sweeps tells of a server's traffic.
use vps_panel.Prelude.{
  ℕ, ◌≤◌, ◌<◌, ◌≡◌, inl, inr, refl, subst, ◌∙◌, true, List, [], ◌∷◌, ◌++◌, map, ltb, ==_refl,
  if◌then◌else◌, find_first, arith, All, Bool-cases, Option-cases,
}
use vps_panel.Prelude.Tables.{find_first-upsert, upsert}
use vps_panel.Notification.{
  Entry, State, changes, consumed, fresh_state, is_cycle, is_of, last_step, noted, state_of, told,
}

state_of-upsert :
    (rows : List State) (id cycle last now : ℕ)
    → state_of
        (upsert (is_of id) (noted cycle last now) (noted cycle last now (fresh_state id)) rows)
        id
      ≡ noted cycle last now (state_of rows id)
unfolding state_of
state_of-upsert rows id cycle last now =
    let there =
      find_first-upsert (is_of id) (noted cycle last now) (noted cycle last now (fresh_state id))
        (λ x h. h) (==_refl id) rows in
    elim (Option-cases (find_first (is_of id) rows)) [
      | inl absent ↦ let e = rw absent at there in rw (state_of, e, absent) refl
      | inr (s, present) ↦ let e = rw present at there in rw (state_of, e, present) refl
    ]

-- What a turn leaves: the cycle, and the step that is consumed in it.
told-state_of :
    (rows : List State) (id cycle step now : ℕ)
    → (is_cycle cycle (state_of (told rows id cycle step now).0 id).cycle ≡ true)
      × ((state_of (told rows id cycle step now).0 id).step
          ≡ last_step (state_of rows id) cycle step)
unfolding told
told-state_of rows id cycle step now =
    let previous = state_of rows id in
    let last = last_step previous cycle step in
    elim (Bool-cases (changes previous cycle step)) [
      | inl changed ↦ rw (changed, state_of-upsert rows id cycle last now) (==_refl cycle, refl)
      | inr same ↦ rw same (ground arith, ground arith)
    ]

-- The turns of one server at sweeps in one cycle, each with its step and time: the rows, and the steps
-- that were told.
abbrev pub turns : List State → ℕ → ℕ → List (ℕ × ℕ) → List State × List ℕ
turns rows id cycle [] = (rows, [])
turns rows id cycle ((step, now) ∷ later) =
    let (after, entries) = told rows id cycle step now in
    let (last, more) = turns after id cycle later in
    (last, map (λ (e : Entry). e.step) entries ++ more)

-- Each is higher than the one before.
abbrev pub Ascending : ℕ → List ℕ → Type 0
Ascending m [] = Unit
Ascending m (x ∷ xs) = (m < x) × Ascending x xs

consumed_of :
    (s : State) (cycle step : ℕ)
    → is_cycle cycle s.cycle ≡ true
    → 1 ≤ step
    → consumed s cycle step ≡ s.step
consumed_of s cycle step same pos = ground arith

consumed_same : (s : State) (cycle step : ℕ) → 1 ≤ step → consumed s cycle step ≡ consumed s cycle 1
consumed_same s cycle step pos = ground arith

told-steps :
    (rows : List State) (id cycle step now : ℕ)
    → map (λ (e : Entry). e.step) (told rows id cycle step now).1
      ≡ (if ltb (consumed (state_of rows id) cycle step) step then step ∷ [] else [])
unfolding told
told-steps rows id cycle step now =
    elim (Bool-cases (ltb (consumed (state_of rows id) cycle step) step)) [
      | inl e ↦ rw e refl
      | inr e ↦ rw e refl
    ]

-- Within a cycle in which the usage stays above the threshold, each warning tells of a higher step than
-- the one before, and none of one that an earlier sweep had consumed; what is consumed never falls, and
-- at the end it is no lower than any step of the sweeps.
pub turns-Ascending :
    (rows : List State) (id cycle : ℕ) (steps : List (ℕ × ℕ))
    → All (λ (s : ℕ × ℕ). 1 ≤ s.0) steps
    → Ascending (consumed (state_of rows id) cycle 1) (turns rows id cycle steps).1
      × (consumed (state_of rows id) cycle 1
          ≤ consumed (state_of (turns rows id cycle steps).0 id) cycle 1)
      × All
          (λ (s : ℕ × ℕ). s.0 ≤ consumed (state_of (turns rows id cycle steps).0 id) cycle 1)
          steps
turns-Ascending rows id cycle [] h = (tt, omega arith, tt)
turns-Ascending rows id cycle ((step, now) ∷ later) (pos, rest) =
    let after = (told rows id cycle step now).0 in
    let (same_cycle, kept) = told-state_of rows id cycle step now in
    let (up, least, high) = turns-Ascending after id cycle later rest in
    let before = consumed_same (state_of rows id) cycle step pos in
    let here = consumed_of (state_of after id) cycle 1 same_cycle (omega arith) in
    let entries = told-steps rows id cycle step now in
    elim (Bool-cases (ltb (consumed (state_of rows id) cycle step) step)) [
      | inl told_of ↦
          let new : last_step (state_of rows id) cycle step ≡ step = rw told_of refl in
          let at : consumed (state_of after id) cycle 1 ≡ step = here ∙ kept ∙ new in
          let from : Ascending step (turns after id cycle later).1 =
            subst (λ m. Ascending m (turns after id cycle later).1) at up in
          (
            rw (entries, told_of) (ground arith, from),
            ground arith,
            (omega (arith, at, least), high),
          )
      | inr silent ↦
          let old : last_step (state_of rows id) cycle step
              ≡ consumed (state_of rows id) cycle step =
            rw silent refl in
          let at : consumed (state_of after id) cycle 1 ≡ consumed (state_of rows id) cycle 1 =
            here ∙ kept ∙ old ∙ before in
          let from : Ascending (consumed (state_of rows id) cycle 1)
              (turns after id cycle later).1 =
            subst (λ m. Ascending m (turns after id cycle later).1) at up in
          (rw (entries, silent) from, omega (arith, at, least), (ground arith, high))
    ]
