-- ===== src/Renewal.antt =====
-- panel/internal/server/renewal.go: when a server's contract ends, and its automatic renewal by a
-- number of months. The row of `servers` holds the columns that renewals read and write.
pub mod Laws
pub mod Settings
mod Tests
use vps_panel.Prelude.{
  ℕ, zero, suc, ◌+◌, ◌-◌, Bool, true, false, ◌&&◌, ◌||◌, not, Option, none, some, List, [], ◌∷◌,
  ltb, leb, ◌==◌, if◌then◌else◌, Result, ok, err, ◌>>=◌, find_first,
}
use vps_panel.Prelude.Tables.{update_where}
use vps_panel.Calendar.{in_zone, to_utc, month_len, local_month, month_day, date}

pub data Error : Type 0 where
  invalid_renewal_period auto_renew_requirements not_found : Error

pub record Server : Type 0 where
  pub id : ℕ
  pub archived : Bool
  pub expires_at : Option ℕ
  pub period : Option ℕ
  pub auto_renew : Bool
  pub anchor : Option ℕ
  pub updated_at : ℕ

-- A pointer with a flag that says whether the request has it.
pub record SettingsUpdate : Type 0 where
  pub expires_at_set : Bool
  pub expires_at : Option ℕ
  pub period_set : Bool
  pub period : Option ℕ
  pub auto_renew_set : Bool
  pub auto_renew : Bool

unfoldable pub valid_renewal_period : ℕ → Bool
valid_renewal_period n = n == 1 || n == 3 || n == 6 || n == 12 || n == 24 || n == 36

-- 23:59:59
abbrev pub last_second : ℕ
last_second = 86399

abbrev pub renewed : ℕ → ℕ → ℕ → ℕ
renewed current period anchor =
    let target = local_month (in_zone current) + period in
    let last_day = month_len target in
    to_utc (date target (if ltb last_day anchor then last_day else anchor) last_second)

unfoldable pub next_renewal_expiration : ℕ → ℕ → ℕ → Result Error ℕ
unfolding valid_renewal_period
next_renewal_expiration current period anchor =
    if not (valid_renewal_period period) || ltb anchor 1 || ltb 31 anchor
    then err invalid_renewal_period
    else ok (renewed current period anchor)

abbrev pub is_some : {A : Type 0} → Option A → Bool
is_some none = false
is_some (some a) = true

abbrev invalid_period : Option ℕ → Bool
invalid_period none = false
invalid_period (some n) = not (valid_renewal_period n)

abbrev day_anchor : Option ℕ → Option ℕ
day_anchor none = none
day_anchor (some t) = some (month_day (in_zone t))

-- The settings of a row after a request, with what no longer makes sense cleared.
unfoldable pub updated_settings : Server → SettingsUpdate → ℕ → Result Error Server
updated_settings s u now =
    let expires = if u.expires_at_set then u.expires_at else s.expires_at in
    let period = if u.period_set then u.period else s.period in
    let auto = if u.auto_renew_set then u.auto_renew else s.auto_renew in
    let anchor =
      if u.expires_at_set || (u.period_set && not (is_some s.anchor))
      then day_anchor expires
      else s.anchor in
    if u.auto_renew_set && u.auto_renew && (not (is_some expires) || not (is_some period))
    then err auto_renew_requirements
    else if not (is_some expires)
    then ok (record s {
      expires_at = none;
      period = none;
      auto_renew = false;
      anchor = none;
      updated_at = now;
    })
    else if not (is_some period)
    then ok (record s {
      expires_at = expires;
      period = none;
      auto_renew = false;
      anchor = none;
      updated_at = now;
    })
    else ok (record s {
      expires_at = expires;
      period = period;
      auto_renew = auto;
      anchor = anchor;
      updated_at = now;
    })

abbrev pub is_active : ℕ → Server → Bool
is_active id s = s.id == id && not s.archived

unfoldable pub update_renewal_settings :
    List Server → ℕ → SettingsUpdate → ℕ → Result Error (List Server)
update_renewal_settings servers id u now =
    if u.period_set && invalid_period u.period
    then err invalid_renewal_period
    else elim (find_first (is_active id) servers) [
      | none ↦ err not_found
      | some s ↦
          updated_settings s u now >>= λ s'. ok (update_where (is_active id) (λ _. s') servers)
    ]

-- `for !expiresAt.After(now)`, on fuel; `none` means that the fuel ran out.
unfoldable pub renew_until : ℕ → ℕ → ℕ → ℕ → ℕ → Option (Result Error ℕ)
renew_until zero now period anchor expires = none
renew_until (suc fuel) now period anchor expires = elim (ltb now expires) [
  | true ↦ some (ok expires)
  | false ↦ elim (next_renewal_expiration expires period anchor) [
    | err e ↦ some (err e)
    | ok next ↦ renew_until fuel now period anchor next
  ]
]

abbrev pub anchor_of : Server → ℕ → ℕ
anchor_of s expires = elim s.anchor [ some d ↦ d | none ↦ month_day (in_zone expires) ]

-- The rows that the query lists: renewed by themselves, and ended.
abbrev pub due : Server → ℕ → Option (ℕ × ℕ)
due s now = if s.archived || not s.auto_renew then none else elim s.expires_at [
  | none ↦ none
  | some t ↦ elim s.period [ none ↦ none | some p ↦ if leb t now then some (t, p) else none ]
]

abbrev store_renewal : Server → ℕ → ℕ → Option (Result Error ℕ) → Option (Result Error Server)
store_renewal s anchor now none = none
store_renewal s anchor now (some (err e)) = some (err e)
store_renewal s anchor now (some (ok t)) =
    some (ok (record s { expires_at = some t; anchor = some anchor; updated_at = now }))

unfoldable pub renew_server : Server → ℕ → Option (Result Error Server)
unfolding renew_until
renew_server s now = elim (due s now) [
  | none ↦ some (ok s)
  | some (t, p) ↦
      store_renewal s (anchor_of s t) now (renew_until (suc (suc now - t)) now p (anchor_of s t) t)
]

abbrev cons_result :
    Option (Result Error Server)
    → Option (Result Error (List Server))
    → Option (Result Error (List Server))
cons_result none rest = none
cons_result (some (err e)) rest = some (err e)
cons_result (some (ok s)) none = none
cons_result (some (ok s)) (some (err e)) = some (err e)
cons_result (some (ok s)) (some (ok rest)) = some (ok (s ∷ rest))

-- ApplyAutomaticRenewals
unfoldable pub apply_automatic_renewals : List Server → ℕ → Option (Result Error (List Server))
unfolding renew_server
apply_automatic_renewals [] now = some (ok [])
apply_automatic_renewals (s ∷ rest) now =
    cons_result (renew_server s now) (apply_automatic_renewals rest now)
