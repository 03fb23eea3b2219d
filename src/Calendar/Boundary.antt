-- ===== src/Calendar/Boundary.antt =====
-- Instants of a month, and the shape that every monthly reset of the program has: the last boundary
-- that is not after now.
use vps_panel.Prelude.{
  ℕ, suc, ◌+◌, ◌-◌, ◌*◌, ◌/◌, ◌≤◌, ◌<◌, ◌≡◌, refl, arith, ltb, Bool-cases, inl, inr, if◌then◌else◌,
}
use vps_panel.Calendar.{month_start, month_len, date, day_seconds, day_of, local_month, month_day}
use vps_panel.Calendar.Months.{
  month_start_bounds, month_start_mono, month_of_bounds, month_of_unique,
}

-- A day of the month lies between the first instant of its month and that of the next.
pub date_in_month :
    (k day clock : ℕ)
    → 1 ≤ day
    → day ≤ month_len k
    → clock < day_seconds
    → (month_start k * day_seconds ≤ date k day clock)
      × (date k day clock < month_start (suc k) * day_seconds)
unfolding date
date_in_month k day clock h f c = omega (arith, month_start_bounds k)

pub date_day :
    (k day clock : ℕ) → clock < day_seconds → day_of (date k day clock) ≡ month_start k + (day - 1)
unfolding date
date_day k day clock c = omega arith

-- A date reads back as its month and day.
pub date_month :
    (k day clock : ℕ)
    → 1 ≤ day
    → day ≤ month_len k
    → clock < day_seconds
    → local_month (date k day clock) ≡ k
date_month k day clock h f c = rw (date_day k day clock c) (
    month_of_unique (month_start k + (day - 1)) k (omega arith)
      (omega (arith, month_start_bounds k)))

pub month_day-date :
    (k day clock : ℕ)
    → 1 ≤ day
    → day ≤ month_len k
    → clock < day_seconds
    → month_day (date k day clock) ≡ day
month_day-date k day clock h f c =
    rw (date_month k day clock h f c, date_day k day clock c) (omega arith)

-- Any local instant lies in its month.
pub local_month_bounds :
    (l : ℕ)
    → (month_start (local_month l) * day_seconds ≤ l)
      × (l < month_start (suc (local_month l)) * day_seconds)
local_month_bounds l = omega (arith, month_of_bounds (l / day_seconds))

-- The day of month `k` that stands for `day`: the month's last day where it is too short.
unfoldable pub clamp_day : ℕ → ℕ → ℕ
clamp_day k day = let last = month_len k in if ltb last day then last else day

pub clamp_day_bounds :
    (k day : ℕ) → 1 ≤ day → (1 ≤ clamp_day k day) × (clamp_day k day ≤ month_len k)
unfolding clamp_day
clamp_day_bounds k day h = ground (arith, month_start_bounds k)

-- The boundary of month `k`.
unfoldable pub boundary : ℕ → ℕ → ℕ → ℕ
unfolding clamp_day
boundary day clock k = date k (clamp_day k day) clock

-- The last boundary: of this month, or of the month before where this month's is still to come.
unfoldable pub last_boundary : ℕ → ℕ → ℕ → ℕ
unfolding boundary
last_boundary day clock l =
    let k = local_month l in
    if ltb l (boundary day clock k) then boundary day clock (k - 1) else boundary day clock k

-- `start` is the boundary of some month, is not after `l`, and the next month's is after `l`.
pub record IsLastBoundary (day clock l start : ℕ) : Type 0 where
  pub month : ℕ
  pub is_boundary : start ≡ boundary day clock month
  pub past : start ≤ l
  pub before_next : l < boundary day clock (suc month)

module _ (day clock : ℕ) (h : 1 ≤ day) (c : clock < day_seconds) where
  pub boundary_in_month :
      (k : ℕ)
      → (month_start k * day_seconds ≤ boundary day clock k)
        × (boundary day clock k < month_start (suc k) * day_seconds)
  unfolding boundary
  boundary_in_month k =
      let (lo, hi) = clamp_day_bounds k day h in date_in_month k (clamp_day k day) clock lo hi c

  pub local_month-boundary : (k : ℕ) → local_month (boundary day clock k) ≡ k
  unfolding boundary
  local_month-boundary k =
      let (lo, hi) = clamp_day_bounds k day h in date_month k (clamp_day k day) clock lo hi c

  pub boundary-lt : (j k : ℕ) → j < k → boundary day clock j < boundary day clock k
  boundary-lt j k p =
      omega (arith, boundary_in_month j, boundary_in_month k, month_start_mono (suc j) k p)

  pub last_boundary-IsLastBoundary :
      (l : ℕ) → 1 ≤ local_month l → IsLastBoundary day clock l (last_boundary day clock l)
  unfolding last_boundary
  last_boundary-IsLastBoundary l m =
      elim (Bool-cases (ltb l (boundary day clock (local_month l)))) [
        | inl early ↦
            let e : suc (local_month l - 1) ≡ local_month l = omega arith in
            rw early (record {
              month = local_month l - 1;
              is_boundary = refl;
              past = omega (
                arith,
                boundary_in_month (local_month l - 1),
                local_month_bounds l,
                month_start_mono (suc (local_month l - 1)) (local_month l) (omega arith),
              );
              before_next = rw e (ground arith);
            })
        | inr late ↦ rw late (record {
          month = local_month l;
          is_boundary = refl;
          past = ground arith;
          before_next =
              omega (arith, boundary_in_month (suc (local_month l)), local_month_bounds l);
        })
      ]

  -- Only one instant is the last boundary.
  pub IsLastBoundary-le :
      (l l' s s' : ℕ)
      → l ≤ l'
      → IsLastBoundary day clock l s
      → IsLastBoundary day clock l' s'
      → s ≤ s'
  IsLastBoundary-le l l' s s' le a b = elim (Bool-cases (ltb b.month a.month)) [
    | inl p ↦
        let q : suc b.month ≤ a.month = ground arith in
        elim (Bool-cases (ltb (suc b.month) a.month)) [
          | inl r ↦ absurd (
              omega (
                arith,
                a.is_boundary,
                a.past,
                b.before_next,
                boundary-lt (suc b.month) a.month (ground arith),
              ))
          | inr r ↦
              let e : a.month ≡ suc b.month = ground arith in
              let f : s ≡ boundary day clock (suc b.month) = rw (← e) a.is_boundary in
              absurd (omega (arith, f, a.past, b.before_next))
        ]
    | inr p ↦ elim (Bool-cases (ltb a.month b.month)) [
      | inl q ↦
          omega (arith, a.is_boundary, b.is_boundary, boundary-lt a.month b.month (ground arith))
      | inr q ↦
          let e : a.month ≡ b.month = ground arith in
          let f : s ≡ boundary day clock b.month = rw (← e) a.is_boundary in
          omega (arith, f, b.is_boundary)
    ]
  ]
