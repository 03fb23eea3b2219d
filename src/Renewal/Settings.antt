-- ===== src/Renewal/Settings.antt =====
-- panel/internal/server/renewal.go: a change of the settings keeps what the renewal job relies on.
use vps_panel.Prelude.{
  ℕ, ◌≤◌, ◌≡◌, subst, Bool, true, false, ◌&&◌, ◌||◌, not, Option, none, some, List, All, arith,
  find_first, Result, ok, >>=-eq-ok, Bool-cases, Option-cases, inl, inr, if◌then◌else◌,
}
use vps_panel.Prelude.Tables.{update_where, All-find_first, All-update_where}
use vps_panel.Calendar.{in_zone, local_month, month_day}
use vps_panel.Renewal.{
  Error, Server, SettingsUpdate, day_anchor, invalid_period, is_active, is_some,
  update_renewal_settings, updated_settings, valid_renewal_period,
}
use vps_panel.Renewal.Laws.{IsStored, month_day_bounds}

abbrev IsExpiry : Option ℕ → Type 0
IsExpiry o = (t : ℕ) → o ≡ some t → 1 ≤ local_month (in_zone t)

abbrev IsPeriod : Option ℕ → Type 0
IsPeriod o = (p : ℕ) → o ≡ some p → valid_renewal_period p ≡ true

abbrev IsAnchor : Option ℕ → Type 0
IsAnchor o = (d : ℕ) → o ≡ some d → (1 ≤ d) × (d ≤ 31)

chosen : (P : Option ℕ → Type 0) (b : Bool) (x y : Option ℕ) → P x → P y → P (if b then x else y)
chosen P true x y p q = p
chosen P false x y p q = q

day_anchor-IsAnchor : (o : Option ℕ) → IsAnchor (day_anchor o)
day_anchor-IsAnchor none d e = cc
day_anchor-IsAnchor (some t) d e =
    let same : month_day (in_zone t) ≡ d = cc in
    subst (λ n. (1 ≤ n) × (n ≤ 31)) same (month_day_bounds (in_zone t))

updated-IsPeriod :
    (set : Bool) (new old : Option ℕ)
    → (set && invalid_period new) ≡ false
    → IsPeriod old
    → IsPeriod (if set then new else old)
updated-IsPeriod true none old valid h = λ p e. cc
updated-IsPeriod true (some n) old valid h =
    λ p e. let same : n ≡ p = cc in subst (λ n. valid_renewal_period n ≡ true) same (ground arith)
updated-IsPeriod false new old valid h = h

ok_injective : {a b : Server} → ◌≡◌ {A = Result Error Server} (ok a) (ok b) → a ≡ b
ok_injective e = cc

updated_settings-IsStored :
    (s s' : Server) (u : SettingsUpdate) (now : ℕ)
    → IsExpiry u.expires_at
    → (u.period_set && invalid_period u.period) ≡ false
    → IsStored s
    → updated_settings s u now ≡ ok s'
    → IsStored s'
unfolding updated_settings
updated_settings-IsStored s s' u now dated valid (h, v, d) e =
    let expires : Option ℕ = if u.expires_at_set then u.expires_at else s.expires_at in
    let period : Option ℕ = if u.period_set then u.period else s.period in
    let day_set : Bool = u.expires_at_set || (u.period_set && not (is_some s.anchor)) in
    let anchor : Option ℕ = if day_set then day_anchor expires else s.anchor in
    let refused : Bool =
      u.auto_renew_set && u.auto_renew && (not (is_some expires) || not (is_some period)) in
    let ends = chosen IsExpiry u.expires_at_set u.expires_at s.expires_at dated h in
    let lasts = updated-IsPeriod u.period_set u.period s.period valid v in
    let from_day =
      chosen IsAnchor day_set (day_anchor expires) s.anchor (day_anchor-IsAnchor expires) d in
    elim (Bool-cases refused) [
      | inl amiss ↦ let f = rw amiss at e in absurd (ground arith)
      | inr fine ↦
          let f = rw fine at e in
          elim (Bool-cases (is_some expires)) [
            | inr gone ↦
                let g = rw gone at f in
                subst IsStored (ok_injective g) ((λ t i. cc), (λ p i. cc), (λ d i. cc))
            | inl lives ↦
                let g = rw lives at f in
                elim (Bool-cases (is_some period)) [
                  | inr gone ↦
                      let k = rw gone at g in
                      subst IsStored (ok_injective k) (ends, (λ p i. cc), (λ d i. cc))
                  | inl set ↦
                      let k = rw set at g in subst IsStored (ok_injective k) (ends, lasts, from_day)
                ]
          ]
    ]

-- Where every row holds the table's checks, and a new expiry is from February of year 1 on, every row
-- still holds them after a change of the settings that succeeds.
pub update_renewal_settings-IsStored :
    (servers after : List Server) (id : ℕ) (u : SettingsUpdate) (now : ℕ)
    → ((t : ℕ) → u.expires_at ≡ some t → 1 ≤ local_month (in_zone t))
    → All IsStored servers
    → update_renewal_settings servers id u now ≡ ok after
    → All IsStored after
unfolding update_renewal_settings
update_renewal_settings-IsStored servers after id u now dated h e =
    elim (Bool-cases (u.period_set && invalid_period u.period)) [
      | inl bad ↦ let f = rw bad at e in absurd (ground arith)
      | inr valid ↦
          let f = rw valid at e in
          elim (Option-cases (find_first (is_active id) servers)) [
            | inl gone ↦ let g = rw gone at f in absurd (ground arith)
            | inr (s, found) ↦
                let g = rw found at f in
                let (s', stored, k) =
                  >>=-eq-ok (updated_settings s u now)
                    (λ s'. ok (update_where (is_active id) (λ _. s') servers)) g in
                let holds =
                  updated_settings-IsStored s s' u now dated valid
                    (All-find_first IsStored (is_active id) servers found h) stored in
                let same : update_where (is_active id) (λ _. s') servers ≡ after = cc in
                subst (λ rows. All IsStored rows) same
                  (All-update_where IsStored (is_active id) (λ _. s') (λ _ _. holds) servers h)
          ]
    ]
