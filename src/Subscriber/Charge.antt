-- ===== src/Subscriber/Charge.antt =====
-- panel/internal/subscription/usage.go: traffic charged by a multiplier in hundredths, with the
-- remainder carried to the next charge.
use vps_panel.Prelude.{
  ℕ, ◌+◌, ◌-◌, ◌*◌, ◌/◌, ◌%◌, ◌≤◌, ◌≡◌, arith, ◌||◌, ◌&&◌, ltb, if◌then◌else◌, Result, ok, err,
  ◌>>=◌, min,
}
use vps_panel.Prelude.Int.{ℤ, pos, pos_part, ltb_ℤ, max_int64}

pub data Error : Type 0 where
  invalid_charge_state charge_overflow invalid_traffic_multiplier : Error
  invalid_plan_nodes subscriber_not_found invalid_traffic_reset : Error

unfoldable pub saturating_add : ℕ → ℕ → ℕ
saturating_add left right =
    if ltb 0 right && ltb (max_int64 - right) left then max_int64 else left + right

unfoldable pub subscriber_counter_delta : ℕ → ℕ → ℕ
subscriber_counter_delta previous current = if ltb current previous then 0 else current - previous

-- validateTrafficMultiplierBP of published_node.go
unfoldable pub validate_traffic_multiplier : ℕ → Result Error ℕ
validate_traffic_multiplier bp =
    if ltb bp 10 || ltb 500 bp then err invalid_traffic_multiplier else ok bp

unfoldable pub apply_traffic_multiplier_delta : ℤ → ℕ → ℤ → Result Error (ℕ × ℕ)
unfolding validate_traffic_multiplier
apply_traffic_multiplier_delta delta bp remainder =
    if ltb_ℤ delta (pos 0) || ltb_ℤ remainder (pos 0) || ltb_ℤ (pos 99) remainder
    then err invalid_charge_state
    else (validate_traffic_multiplier bp >>= λ _.
        let tail = pos_part delta % 100 * bp + pos_part remainder in
        let extra = tail / 100 in
        let whole = pos_part delta / 100 in
        if ltb ((max_int64 - extra) / bp) whole
        then err charge_overflow
        else ok (whole * bp + extra, tail % 100))

pub saturating_add_lem :
    (a b : ℕ) → a ≤ max_int64 → b ≤ max_int64 → saturating_add a b ≡ min (a + b) max_int64
unfolding saturating_add
saturating_add_lem a b h k = ground arith
