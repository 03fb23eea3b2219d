-- ===== src/Renewal/Laws.antt =====
-- panel/internal/server/renewal.go: renewals move forward, end, and stop after now.
use vps_panel.Prelude.{
  ℕ, zero, suc, ◌+◌, ◌-◌, ◌≤◌, ◌<◌, ◌≡◌, refl, true, arith, none, some, ok, ltb, Bool-cases, inl,
  inr, Option-cases, List, [], ◌∷◌, All, map,
}
use vps_panel.Calendar.{in_zone, to_utc, local_month, month_day}
use vps_panel.Calendar.Months.{month_start_bounds, month_start_mono}
use vps_panel.Calendar.Boundary.{
  boundary, boundary_in_month, local_month_bounds, local_month-boundary,
}
use vps_panel.Renewal.{
  Server, last_second, next_renewal_expiration, renewed, renew_until, valid_renewal_period,
  renew_server, due, anchor_of, apply_automatic_renewals,
}

renewed_lem :
    (current period anchor : ℕ)
    → renewed current period anchor
      ≡ to_utc (boundary anchor last_second (local_month (in_zone current) + period))
unfolding boundary
renewed_lem current period anchor = refl

-- A renewal is later than what it renews, by at least the months that lie between.
renewed-lt :
    (current period anchor : ℕ)
    → 1 ≤ anchor
    → 1 ≤ period
    → 1 ≤ local_month (in_zone current)
    → current < renewed current period anchor
renewed-lt current period anchor a p m =
    let k = local_month (in_zone current) in
    rw (renewed_lem current period anchor) (
      omega (
        arith,
        local_month_bounds (in_zone current),
        boundary_in_month anchor last_second a (omega arith) (k + period),
        month_start_mono (suc k) (k + period) (omega arith),
        month_start_mono 1 k m,
        month_start_bounds 0,
      ))

-- The renewal falls `period` months later.
month_of_renewed :
    (current period anchor : ℕ)
    → 1 ≤ anchor
    → 1 ≤ local_month (in_zone current)
    → local_month (in_zone (renewed current period anchor)) ≡ local_month (in_zone current) + period
month_of_renewed current period anchor a m =
    let k = local_month (in_zone current) + period in
    let b = boundary anchor last_second k in
    let late = boundary_in_month anchor last_second a (omega arith) k in
    let local : in_zone (to_utc b) ≡ b =
      omega (arith, late, month_start_mono 1 k (omega arith), month_start_bounds 0) in
    rw (renewed_lem current period anchor, local)
      (local_month-boundary anchor last_second a (omega arith) k)

period_pos : (n : ℕ) → valid_renewal_period n ≡ true → 1 ≤ n
unfolding valid_renewal_period
period_pos n h = ground arith

next_renewal_valid :
    (current period anchor : ℕ)
    → valid_renewal_period period ≡ true
    → 1 ≤ anchor
    → anchor ≤ 31
    → next_renewal_expiration current period anchor ≡ ok (renewed current period anchor)
unfolding next_renewal_expiration
next_renewal_valid current period anchor v a b = ground arith

-- `t` is the first instant after `now` that a chain of renewals from `expires` reaches.
pub data FirstAfter (now period anchor : ℕ) : ℕ → ℕ → Type 0 where
  reached : {t : ℕ} → now < t → FirstAfter now period anchor t t
  renew :
      {expires t : ℕ}
      → expires ≤ now
      → FirstAfter now period anchor (renewed expires period anchor) t
      → FirstAfter now period anchor expires t

pub FirstAfter-lt :
    {now period anchor expires t : ℕ} → FirstAfter now period anchor expires t → now < t
FirstAfter-lt (reached h) = h
FirstAfter-lt (renew h c) = FirstAfter-lt c

-- With a valid period and an anchor day from 1 to 31, on an expiry from February of year 1 on,
-- the loop ends, after at most as many rounds as there are seconds to make up, at the first
-- renewal that is after now.
pub renew_until_total :
    (fuel now period anchor expires : ℕ)
    → valid_renewal_period period ≡ true
    → 1 ≤ anchor
    → anchor ≤ 31
    → 1 ≤ local_month (in_zone expires)
    → suc now - expires < fuel
    → (t : ℕ) × (renew_until fuel now period anchor expires ≡ some (ok t))
      × FirstAfter now period anchor expires t
unfolding renew_until
renew_until_total zero now period anchor expires v a b m f = absurd (omega arith)
renew_until_total (suc fuel) now period anchor expires v a b m f =
    elim (Bool-cases (ltb now expires)) [
      | inl past ↦ (expires, rw (past, renew_until) refl, reached (ground arith))
      | inr due_yet ↦
          let p = period_pos period v in
          let later = renewed-lt expires period anchor a p m in
          let (t, done, chain) =
            renew_until_total fuel now period anchor (renewed expires period anchor) v a b
              (rw (month_of_renewed expires period anchor a m) (omega arith)) (ground arith) in
          (
            t,
            rw (due_yet, renew_until, next_renewal_valid expires period anchor v a b) done,
            renew (ground arith) chain,
          )
    ]

-- What the table's checks make sure of: a period and an anchor day that are valid, if any.
abbrev pub IsStored : Server → Type 0
IsStored s =
    ((t : ℕ) → s.expires_at ≡ some t → 1 ≤ local_month (in_zone t))
    × ((p : ℕ) → s.period ≡ some p → valid_renewal_period p ≡ true)
    × ((d : ℕ) → s.anchor ≡ some d → (1 ≤ d) × (d ≤ 31))

pub month_day_bounds : (l : ℕ) → (1 ≤ month_day l) × (month_day l ≤ 31)
month_day_bounds l = omega (arith, local_month_bounds l, month_start_bounds (local_month l))

anchor_of_bounds :
    (s : Server) (t : ℕ)
    → ((d : ℕ) → s.anchor ≡ some d → (1 ≤ d) × (d ≤ 31))
    → (1 ≤ anchor_of s t) × (anchor_of s t ≤ 31)
anchor_of_bounds s t h = elim (Option-cases s.anchor) [
  | inl missing ↦ rw (missing, anchor_of) (month_day_bounds (in_zone t))
  | inr (d, found) ↦ rw (found, anchor_of) (h d found)
]

due-eq-some :
    (s : Server) (now t p : ℕ)
    → due s now ≡ some (t, p)
    → (s.expires_at ≡ some t) × (s.period ≡ some p) × (t ≤ now)
due-eq-some s now t p e = ground arith

-- A row that was due is renewed to a time after now, and any other row is left alone.
pub renew_server_total :
    (s : Server) (now : ℕ)
    → IsStored s
    → (s' : Server) × (renew_server s now ≡ some (ok s'))
      × (s'.id ≡ s.id)
      × (due s' now ≡ none)
      × ((due s now ≡ none) → s' ≡ s)
unfolding renew_server
renew_server_total s now (h, v, d) = elim (Option-cases (due s now)) [
  | inl idle ↦ (s, rw (idle, renew_server) refl, refl, idle, λ _. refl)
  | inr ((t, p), is_due) ↦
      let (ends, lasts, past) = due-eq-some s now t p is_due in
      let (lo, hi) = anchor_of_bounds s t d in
      let (t', done, chain) =
        renew_until_total (suc (suc now - t)) now p (anchor_of s t) t (v p lasts) lo hi (h t ends)
          (omega arith) in
      let after = FirstAfter-lt chain in
      (
        record s { expires_at = some t'; anchor = some (anchor_of s t); updated_at = now },
        rw (is_due, renew_server, done) refl,
        refl,
        ground arith,
        λ e. cc,
      )
]

-- On rows that hold the table's checks the renewal job always succeeds, keeps every row in its
-- place, and leaves no row that is still due.
pub apply_automatic_renewals_total :
    (servers : List Server) (now : ℕ)
    → All IsStored servers
    → (after : List Server) × (apply_automatic_renewals servers now ≡ some (ok after))
      × (map (λ s. s.id) after ≡ map (λ s. s.id) servers)
      × All (λ s. due s now ≡ none) after
unfolding apply_automatic_renewals
apply_automatic_renewals_total [] now h = ([], refl, refl, tt)
apply_automatic_renewals_total (s ∷ rest) now (h, hs) =
    let (s', step, kept, idle, _) = renew_server_total s now h in
    let (after, done, same, idles) = apply_automatic_renewals_total rest now hs in
    (s' ∷ after, rw (step, done) refl, (cc), (idle, idles))
