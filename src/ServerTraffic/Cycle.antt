-- ===== src/ServerTraffic/Cycle.antt =====
-- panel/internal/server/traffic.go: where the monthly cycle begins.
use vps_panel.Prelude.{
  ℕ, ◌≤◌, ◌<◌, ◌≡◌, refl, true, arith, ok, Bool-cases, Option-cases, inl, inr, ◌↔◌,
}
use vps_panel.Prelude.Text.{Text}
use vps_panel.Calendar.{in_zone, to_utc, local_month}
use vps_panel.Calendar.Boundary.{
  boundary, last_boundary, IsLastBoundary, last_boundary-IsLastBoundary, IsLastBoundary-le,
}
use vps_panel.Calendar.Clock.{
  format_clock, parse_clock, is_clock, is_clock_iff, parse_clock-format_clock, clock_seconds,
  clock_seconds_lt, IsTimeOfDay,
}
use vps_panel.ServerTraffic.{monthly_traffic_boundary, traffic_cycle_start, cycle_start_at}

pub monthly_traffic_boundary_lem :
    (k day clock : ℕ) → monthly_traffic_boundary k day clock ≡ boundary day clock k
unfolding monthly_traffic_boundary boundary
monthly_traffic_boundary_lem k day clock = refl

cycle_start_at_lem :
    (now day clock : ℕ)
    → cycle_start_at now day clock ≡ to_utc (last_boundary day clock (in_zone now))
unfolding monthly_traffic_boundary last_boundary
cycle_start_at_lem now day clock = refl

-- Every configuration that can be stored has a cycle.
pub traffic_cycle_start_valid :
    (now day : ℕ) (c : ℕ × ℕ)
    → c.0 < 24
    → c.1 < 60
    → 1 ≤ day
    → day ≤ 31
    → traffic_cycle_start now day (format_clock c.0 c.1)
      ≡ ok (to_utc (last_boundary day (clock_seconds c) (in_zone now)))
unfolding traffic_cycle_start last_boundary
traffic_cycle_start_valid now day c p q h f =
    let valid : is_clock (format_clock c.0 c.1) ≡ true =
      (is_clock_iff (format_clock c.0 c.1)).1 (c, p, q, refl) in
    rw (traffic_cycle_start, parse_clock-format_clock c.0 c.1 p q, valid) (ground arith)

-- A configuration that `update_traffic_config` lets through.
abbrev pub IsCycleConfig : ℕ → Text → Type 0
IsCycleConfig day s = IsTimeOfDay s × (1 ≤ day) × (day ≤ 31)

traffic_cycle_start_sound :
    (now day start : ℕ) (s : Text) → traffic_cycle_start now day s ≡ ok start → IsCycleConfig day s
unfolding traffic_cycle_start
traffic_cycle_start_sound now day start s e = elim (Option-cases (parse_clock s)) [
  | inl missing ↦ cc (rw (missing, traffic_cycle_start) at e)
  | inr (c, found) ↦ elim (Bool-cases (is_clock s)) [
    | inl valid ↦
        let f = rw (found, valid, traffic_cycle_start) at e in
        ((is_clock_iff s).0 valid, ground arith, ground arith)
    | inr invalid ↦ cc (rw (found, invalid, traffic_cycle_start) at e)
  ]
]

-- A cycle start is found exactly for a reset day from 1 to 31 and a time of day written HH:MM.
pub traffic_cycle_start-eq-ok_iff :
    (now day : ℕ) (s : Text)
    → ((start : ℕ) × (traffic_cycle_start now day s ≡ ok start)) ↔ IsCycleConfig day s
traffic_cycle_start-eq-ok_iff now day s = (
  λ (start, e). traffic_cycle_start_sound now day start s e,
  λ ((c, p, q, e), h, f). (
    to_utc (last_boundary day (clock_seconds c) (in_zone now)),
    rw e (traffic_cycle_start_valid now day c p q h f),
  ),
)

-- For a reset day from 1 to 31 and a time of day written HH:MM, at an instant from February of
-- year 1 on, a cycle start is found, and it is the last monthly boundary that is not after now:
-- the boundary of a month, at the reset day or the month's last day, such that the next month's
-- boundary is after now.
pub traffic_cycle_start-IsLastBoundary :
    (now day : ℕ) (c : ℕ × ℕ)
    → c.0 < 24
    → c.1 < 60
    → 1 ≤ day
    → day ≤ 31
    → 1 ≤ local_month (in_zone now)
    → (b : ℕ) × (traffic_cycle_start now day (format_clock c.0 c.1) ≡ ok (to_utc b))
      × IsLastBoundary day (clock_seconds c) (in_zone now) b
traffic_cycle_start-IsLastBoundary now day c p q h f m = (
  last_boundary day (clock_seconds c) (in_zone now),
  traffic_cycle_start_valid now day c p q h f,
  last_boundary-IsLastBoundary day (clock_seconds c) h (clock_seconds_lt c (p, q)) (in_zone now) m,
)

traffic_cycle_start-value :
    (now day s : ℕ) (c : ℕ × ℕ) (t : Text) {v : ℕ}
    → t ≡ format_clock c.0 c.1
    → traffic_cycle_start now day (format_clock c.0 c.1) ≡ ok v
    → traffic_cycle_start now day t ≡ ok s
    → s ≡ v
traffic_cycle_start-value now day s c t g a e = cc

-- With one reset day and time, and from February of year 1 on, a later instant is never in an
-- earlier cycle.
pub traffic_cycle_start_mono :
    (now later day s s' : ℕ) (t : Text)
    → 1 ≤ local_month (in_zone now)
    → 1 ≤ local_month (in_zone later)
    → now ≤ later
    → traffic_cycle_start now day t ≡ ok s
    → traffic_cycle_start later day t ≡ ok s'
    → s ≤ s'
traffic_cycle_start_mono now later day s s' t m n le e f =
    let ((c, p, q, g), lo, hi) = traffic_cycle_start_sound now day s t e in
    let clock = clock_seconds c in
    let bound = clock_seconds_lt c (p, q) in
    let a = traffic_cycle_start_valid now day c p q lo hi in
    let b = traffic_cycle_start_valid later day c p q lo hi in
    let order =
      IsLastBoundary-le day clock lo bound (in_zone now) (in_zone later)
        (last_boundary day clock (in_zone now)) (last_boundary day clock (in_zone later))
        (omega arith) (last_boundary-IsLastBoundary day clock lo bound (in_zone now) m)
        (last_boundary-IsLastBoundary day clock lo bound (in_zone later) n) in
    let x = traffic_cycle_start-value now day s c t g a e in
    let y = traffic_cycle_start-value later day s' c t g b f in omega (arith, x, y, order)
