-- ===== src/Subscriber/Billing.antt =====
-- panel/internal/subscription/usage.go: charging loses and invents no traffic.
use vps_panel.Prelude.{
  ℕ, ◌+◌, ◌-◌, ◌*◌, ◌/◌, ◌%◌, ◌≤◌, ◌<◌, ◌≡◌, arith, ok, err, Bool-cases, inl, inr, ltb, ltb→lt, ap,
  suc,
}
use vps_panel.Prelude.Int.{pos, max_int64}
use vps_panel.Subscriber.Charge.{charge_overflow, apply_traffic_multiplier_delta}

-- Of the whole hundreds and the rest of a number of bytes, charged apart.
charge_split :
    (d bp r : ℕ)
    → (d / 100 * bp + (d % 100 * bp + r) / 100 ≡ (d * bp + r) / 100)
      × ((d % 100 * bp + r) % 100 ≡ (d * bp + r) % 100)
charge_split d bp r =
    let e : d * bp ≡ 100 * (d / 100 * bp) + d % 100 * bp =
      let f : 100 * (d / 100) + d % 100 ≡ d = omega arith in
      omega (arith, ap (λ (t : ℕ). t * bp) f) in
    omega (arith, e)

quotient_parts : (x bp : ℕ) → 1 ≤ bp → (x / bp * bp ≤ x) × (x < x / bp * bp + bp)
quotient_parts x bp h = grind arith

quotient_lt : (x w bp : ℕ) → 1 ≤ bp → x / bp < w → x < w * bp
quotient_lt x w bp h p =
    let (_, hi) = quotient_parts x bp h in
    let m : suc (x / bp) * bp ≤ w * bp = grind arith in omega arith

quotient_ge : (x w bp : ℕ) → 1 ≤ bp → w ≤ x / bp → w * bp ≤ x
quotient_ge x w bp h p =
    let (lo, _) = quotient_parts x bp h in let m : w * bp ≤ x / bp * bp = grind arith in omega arith

extra_le : (d bp r : ℕ) → bp ≤ 500 → r < 100 → (d % 100 * bp + r) / 100 ≤ 500
extra_le d bp r h k = let m : d % 100 * bp ≤ 99 * 500 = grind arith in omega arith

-- For a valid multiplier and a remainder below 100, the charge for a delta is exactly a hundredth
-- of its product with the multiplier plus the remainder, and the rest is the new remainder, if
-- that charge is an int64.
pub apply_traffic_multiplier_delta-exact :
    (delta bp remainder : ℕ)
    → 10 ≤ bp
    → bp ≤ 500
    → remainder < 100
    → (delta * bp + remainder) / 100 ≤ max_int64
    → apply_traffic_multiplier_delta (pos delta) bp (pos remainder)
      ≡ ok ((delta * bp + remainder) / 100, (delta * bp + remainder) % 100)
unfolding apply_traffic_multiplier_delta
apply_traffic_multiplier_delta-exact delta bp remainder lo hi r fits =
    let extra = (delta % 100 * bp + remainder) / 100 in
    let (whole, rest) = charge_split delta bp remainder in
    elim (Bool-cases (ltb ((max_int64 - extra) / bp) (delta / 100))) [
      | inl over ↦ absurd (
          omega (
            arith,
            whole,
            extra_le delta bp remainder hi r,
            quotient_lt (max_int64 - extra) (delta / 100) bp (omega arith) (ltb→lt _ _ over),
          ))
      | inr fine ↦ ground (arith, whole, rest, fine)
    ]

-- For a valid multiplier and a remainder below 100, a charge that is past an int64 is refused.
pub apply_traffic_multiplier_delta-overflow :
    (delta bp remainder : ℕ)
    → 10 ≤ bp
    → bp ≤ 500
    → remainder < 100
    → max_int64 < (delta * bp + remainder) / 100
    → apply_traffic_multiplier_delta (pos delta) bp (pos remainder) ≡ err charge_overflow
unfolding apply_traffic_multiplier_delta
apply_traffic_multiplier_delta-overflow delta bp remainder lo hi r over =
    let extra = (delta % 100 * bp + remainder) / 100 in
    let (whole, rest) = charge_split delta bp remainder in
    elim (Bool-cases (ltb ((max_int64 - extra) / bp) (delta / 100))) [
      | inl past ↦ ground (arith, past)
      | inr fine ↦ absurd (
          omega (
            arith,
            whole,
            extra_le delta bp remainder hi r,
            quotient_ge (max_int64 - extra) (delta / 100) bp (omega arith) (ground (arith, fine)),
          ))
    ]

-- For a valid multiplier and a remainder below 100, charging two deltas in turn, with the
-- remainder carried, charges as much and leaves as much as charging their sum at once, if that
-- charge is an int64: rounding never drifts.
pub apply_traffic_multiplier_delta-split :
    (a b bp remainder : ℕ)
    → 10 ≤ bp
    → bp ≤ 500
    → remainder < 100
    → ((a + b) * bp + remainder) / 100 ≤ max_int64
    → (first second : ℕ) (rest rest' : ℕ)
    → apply_traffic_multiplier_delta (pos a) bp (pos remainder) ≡ ok (first, rest)
    → apply_traffic_multiplier_delta (pos b) bp (pos rest) ≡ ok (second, rest')
    → apply_traffic_multiplier_delta (pos (a + b)) bp (pos remainder) ≡ ok (first + second, rest')
apply_traffic_multiplier_delta-split a b bp remainder lo hi r fits first second rest rest' e f =
    let x = apply_traffic_multiplier_delta-exact a bp remainder lo hi r (omega arith) in
    let first_is : first ≡ (a * bp + remainder) / 100 = cc in
    let rest_is : rest ≡ (a * bp + remainder) % 100 = cc in
    let y = apply_traffic_multiplier_delta-exact b bp rest lo hi (omega arith) (omega arith) in
    let second_is : second ≡ (b * bp + rest) / 100 = cc in
    let rest'_is : rest' ≡ (b * bp + rest) % 100 = cc in
    let total : ((a + b) * bp + remainder) / 100 ≡ first + second = omega arith in
    let left : ((a + b) * bp + remainder) % 100 ≡ rest' = omega arith in
    rw (← total, ← left) (apply_traffic_multiplier_delta-exact (a + b) bp remainder lo hi r fits)
