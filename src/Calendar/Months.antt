-- ===== src/Calendar/Months.antt =====
-- Months follow one another without gaps, and every day is found in its month.
use vps_panel.Prelude.{
  ℕ, zero, suc, ◌+◌, ◌-◌, ◌*◌, ◌/◌, ◌%◌, ◌≤◌, ◌<◌, ◌≡◌, refl, Bool, true, false, arith, Bool-cases,
  ltb, inl, inr, subst, if◌then◌else◌,
}
use vps_panel.Calendar.{
  is_leap, days_before_year, days_before_month, month_start, month_scan, month_of,
}

days_before_year-suc :
    (y : ℕ) → days_before_year (suc y) ≡ days_before_year y + (if is_leap y then 366 else 365)
unfolding days_before_year is_leap
days_before_year-suc y = ground arith

abbrev IsMonthStep : ℕ → ℕ → Type 0
IsMonthStep a b = (a + 28 ≤ b) × (b ≤ a + 31)

IsMonthStep-inside :
    (leap : Bool) (r : ℕ)
    → r < 11
    → IsMonthStep (days_before_month leap r) (days_before_month leap (suc r))
unfolding days_before_month
IsMonthStep-inside leap r h = ground arith

days_before_december : (leap : Bool) → days_before_month leap 11 ≡ (if leap then 335 else 334)
unfolding days_before_month
days_before_december true = refl
days_before_december false = refl

days_before_january : (leap : Bool) → days_before_month leap 0 ≡ 0
unfolding days_before_month
days_before_january leap = refl

month_start_split :
    (y r : ℕ)
    → r < 12
    → month_start (12 * y + r) ≡ days_before_year y + days_before_month (is_leap y) r
unfolding month_start
month_start_split y r h =
    let e : (12 * y + r) / 12 ≡ y = omega arith in
    let f : (12 * y + r) % 12 ≡ r = omega arith in rw (e, f)

month_start_step :
    (y r : ℕ) → r < 12 → IsMonthStep (month_start (12 * y + r)) (month_start (suc (12 * y + r)))
month_start_step y r h = elim (Bool-cases (ltb r 11)) [
  | inl early ↦
      let e : suc (12 * y + r) ≡ 12 * y + suc r = omega arith in
      rw (e, month_start_split y r h, month_start_split y (suc r) (ground arith))
        (omega (arith, IsMonthStep-inside (is_leap y) r (ground arith)))
  | inr late ↦
      let e : r ≡ 11 = ground arith in
      let f : suc (12 * y + 11) ≡ 12 * suc y + 0 = omega arith in
      rw
        (
          e,
          f,
          month_start_split y 11 (omega arith),
          month_start_split (suc y) 0 (omega arith),
          days_before_year-suc y,
          days_before_december (is_leap y),
          days_before_january (is_leap (suc y)),
        )
        (ground arith)
]

-- Every month has 28 to 31 days.
pub month_start_bounds : (k : ℕ) → IsMonthStep (month_start k) (month_start (suc k))
month_start_bounds k =
    let e : 12 * (k / 12) + k % 12 ≡ k = omega arith in
    subst (λ n. IsMonthStep (month_start n) (month_start (suc n))) e
      (month_start_step (k / 12) (k % 12) (omega arith))

month_start_mono_add : (n k : ℕ) → month_start k + n ≤ month_start (k + n)
month_start_mono_add zero k = let e : k + 0 ≡ k = omega arith in rw e (omega arith)
month_start_mono_add (suc n) k =
    let e : k + suc n ≡ suc (k + n) = omega arith in
    rw e (omega (arith, month_start_mono_add n k, month_start_bounds (k + n)))

pub month_start_mono : (j k : ℕ) → j ≤ k → month_start j ≤ month_start k
month_start_mono j k h =
    let e : j + (k - j) ≡ k = omega arith in
    let f : month_start j + (k - j) ≤ month_start (j + (k - j)) = month_start_mono_add (k - j) j in
    let g : month_start j + (k - j) ≤ month_start k = rw e at f in omega arith

month_scan_bounds :
    (fuel k d : ℕ)
    → month_start k ≤ d
    → d < month_start k + fuel
    → (month_start (month_scan fuel k d) ≤ d) × (d < month_start (suc (month_scan fuel k d)))
unfolding month_scan
month_scan_bounds zero k d h f = absurd (omega arith)
month_scan_bounds (suc fuel) k d h f = elim (Bool-cases (ltb d (month_start (suc k)))) [
  | inl found ↦ rw found (h, ground arith)
  | inr later ↦
      rw later
        (month_scan_bounds fuel (suc k) d (ground arith) (omega (arith, month_start_bounds k)))
]

month_start_seed : (d : ℕ) → month_start (12 * (d / 366)) ≤ d
unfolding days_before_year
month_start_seed d =
    let e : 12 * (d / 366) ≡ 12 * (d / 366) + 0 = omega arith in
    rw (e, month_start_split (d / 366) 0 (omega arith), days_before_january (is_leap (d / 366)))
      (omega arith)

-- The search ends in the month that holds the day.
pub month_of_bounds :
    (d : ℕ) → (month_start (month_of d) ≤ d) × (d < month_start (suc (month_of d)))
unfolding month_of
month_of_bounds d = month_scan_bounds (suc d) (12 * (d / 366)) d (month_start_seed d) (omega arith)

-- There is only one.
pub month_of_unique : (d k : ℕ) → month_start k ≤ d → d < month_start (suc k) → month_of d ≡ k
month_of_unique d k h f =
    let (lo, hi) = month_of_bounds d in
    elim (Bool-cases (ltb (month_of d) k)) [
      | inl p ↦
          let q : suc (month_of d) ≤ k = ground arith in
          absurd (omega (arith, month_start_mono (suc (month_of d)) k q))
      | inr p ↦ elim (Bool-cases (ltb k (month_of d))) [
        | inl q ↦
            let r : suc k ≤ month_of d = ground arith in
            absurd (omega (arith, month_start_mono (suc k) (month_of d) r))
        | inr q ↦ ground arith
      ]
    ]

epoch : month_start 23628 ≡ 719162
unfolding month_start
epoch = refl

leap_day : month_of (719162 + 19782) ≡ 12 * 2023 + 1
unfolding month_of
leap_day = refl
