-- ===== src/Calendar/Clock.antt =====
-- Times of day: `time.Parse("15:04", s)` and `Format("15:04")`.
use vps_panel.Prelude.{
  ℕ, ◌+◌, ◌-◌, ◌*◌, ◌/◌, ◌%◌, ◌<◌, ◌≡◌, refl, Bool, true, false, ◌&&◌, Option, none, some, [], ◌∷◌,
  ◌↔◌, inl, inr, sym, Option-cases, arith, leb, ltb, ◌==◌, if◌then◌else◌,
}
use vps_panel.Prelude.Text.{Text, text_eq, text_eq_iff}

abbrev is_digit : ℕ → Bool
is_digit c = leb b'0' c && leb c b'9'

-- `getnum`, which takes one digit or two for the hour, and two for the minute.
abbrev take_hour : Text → Option (ℕ × Text)
take_hour [] = none
take_hour (a ∷ []) = if is_digit a then some (a - b'0', []) else none
take_hour (a ∷ b ∷ s) =
    if is_digit a
    then if is_digit b then some ((a - b'0') * 10 + (b - b'0'), s) else some (a - b'0', b ∷ s)
    else none

-- The rest of a text behind a colon.
abbrev after_colon : Text → Option Text
after_colon [] = none
after_colon (c ∷ s) = if c == b':' then some s else none

abbrev take_minute : Text → Option ℕ
take_minute (a ∷ b ∷ []) =
    if is_digit a && is_digit b then some ((a - b'0') * 10 + (b - b'0')) else none
take_minute _ = none

abbrev in_day : ℕ → Option ℕ → Option (ℕ × ℕ)
in_day h none = none
in_day h (some m) = if ltb h 24 && ltb m 60 then some (h, m) else none

abbrev parse_rest : ℕ → Option Text → Option (ℕ × ℕ)
parse_rest h none = none
parse_rest h (some s) = in_day h (take_minute s)

unfoldable pub parse_clock : Text → Option (ℕ × ℕ)
parse_clock s = elim (take_hour s) [ none ↦ none | some (h, r) ↦ parse_rest h (after_colon r) ]

abbrev pub two_digits : ℕ → Text → Text
two_digits n s = (n / 10 + b'0') ∷ (n % 10 + b'0') ∷ s

unfoldable pub format_clock : ℕ → ℕ → Text
format_clock h m = two_digits h (b':' ∷ two_digits m [])

-- err == nil && parsed.Format("15:04") == value
abbrev pub reads_back : Text → Option (ℕ × ℕ) → Bool
reads_back s none = false
reads_back s (some (h, m)) = text_eq (format_clock h m) s

unfoldable pub is_clock : Text → Bool
unfolding parse_clock format_clock text_eq
is_clock s = reads_back s (parse_clock s)

-- The seconds from midnight to a time of day.
abbrev pub clock_seconds : ℕ × ℕ → ℕ
clock_seconds (h, m) = h * 3600 + m * 60

pub parse_clock-format_clock :
    (h m : ℕ) → h < 24 → m < 60 → parse_clock (format_clock h m) ≡ some (h, m)
unfolding parse_clock format_clock
parse_clock-format_clock h m p q = ground arith

in_day_bounds : (h : ℕ) (o : Option ℕ) (c : ℕ × ℕ) → in_day h o ≡ some c → (c.0 < 24) × (c.1 < 60)
in_day_bounds h none c e = cc
in_day_bounds h (some m) c e = ground arith

parse_rest_bounds :
    (h : ℕ) (o : Option Text) (c : ℕ × ℕ) → parse_rest h o ≡ some c → (c.0 < 24) × (c.1 < 60)
parse_rest_bounds h none c e = cc
parse_rest_bounds h (some s) c e = in_day_bounds h (take_minute s) c e

pub parse_clock_bounds : (s : Text) (c : ℕ × ℕ) → parse_clock s ≡ some c → (c.0 < 24) × (c.1 < 60)
unfolding parse_clock
parse_clock_bounds s c e = elim (Option-cases (take_hour s)) [
  | inl missing ↦ cc (rw (missing, parse_clock) at e)
  | inr ((h, r), found) ↦ parse_rest_bounds h (after_colon r) c (rw (found, parse_clock) at e)
]

-- A text that reads back is a formatted time of day.
abbrev pub IsTimeOfDay : Text → Type 0
IsTimeOfDay s = (c : ℕ × ℕ) × (c.0 < 24) × (c.1 < 60) × (s ≡ format_clock c.0 c.1)

is_clock_sound : (s : Text) → is_clock s ≡ true → IsTimeOfDay s
unfolding is_clock
is_clock_sound s e = elim (Option-cases (parse_clock s)) [
  | inl missing ↦ cc (rw (missing, reads_back) at e)
  | inr (c, found) ↦
      let (p, q) = parse_clock_bounds s c found in
      let r : reads_back s (some c) ≡ true = rw (found, reads_back) at e in
      (c, p, q, sym ((text_eq_iff _ _).0 r))
]

is_clock_complete : (s : Text) → IsTimeOfDay s → is_clock s ≡ true
unfolding is_clock
is_clock_complete s (c, p, q, e) =
    rw (e, parse_clock-format_clock c.0 c.1 p q)
      ((text_eq_iff (format_clock c.0 c.1) (format_clock c.0 c.1)).1 refl)

-- The texts that the program accepts are exactly the formatted times of day.
pub is_clock_iff : (s : Text) → (is_clock s ≡ true) ↔ IsTimeOfDay s
is_clock_iff s = (is_clock_sound s, is_clock_complete s)

pub clock_seconds_lt : (c : ℕ × ℕ) → (c.0 < 24) × (c.1 < 60) → clock_seconds c < 86400
clock_seconds_lt c h = omega arith
