-- ===== src/LoginLimiter.antt =====
-- panel/internal/api/login_limiter.go: failed logins by address and by account, in memory. A map is a
-- list of entries. An instant and a duration are numbers of nanoseconds.
pub mod Bounds
pub mod Window
pub mod Attempts
mod Tests
use vps_panel.Prelude.{
  ℕ, suc, ◌+◌, Bool, true, false, ◌&&◌, ◌||◌, not, Option, none, some, List, [], ◌∷◌, ltb, leb,
  ◌==◌, if◌then◌else◌, length, any, find_first,
}
use vps_panel.Prelude.Int.{ℤ, pos, sub_ℕ, leb_ℤ}
use vps_panel.Prelude.Text.{Text, text_eq, trim_space, to_lower}
use vps_panel.Prelude.Tables.{upsert, delete_where}

abbrev pub failure_window : ℕ
failure_window = 60000000000

abbrev pub pair_failure_limit : ℕ
pair_failure_limit = 5

abbrev pub ip_failure_limit : ℕ
ip_failure_limit = 20

abbrev pub max_pair_entries : ℕ
max_pair_entries = 4096

abbrev pub max_ip_entries : ℕ
max_ip_entries = 1024

-- The zero value, which Go yields for a missing key, has a count of 0.
pub record Failure : Type 0 where
  pub count : ℕ
  pub started_at : ℕ

pub record AttemptKey : Type 0 where
  pub ip : Text
  pub username : Text

pub record Limiter : Type 0 where
  pub pair_failures : List (AttemptKey × Failure)
  pub ip_failures : List (Text × Failure)
  pub pair_limit : ℕ

abbrev pub new_login_limiter : Limiter
new_login_limiter = record { pair_failures = []; ip_failures = []; pair_limit = pair_failure_limit }

abbrev contains : ℕ → Text → Bool
contains c s = any (λ d. d == c) s

-- auth.NormalizeLoginIdentifier
unfoldable pub normalize_login_identifier : Text → Text
normalize_login_identifier identifier =
    let trimmed = trim_space identifier in
    if contains b'@' trimmed then to_lower trimmed else trimmed

abbrev pub key_of : Text → Text → AttemptKey
key_of ip username = record { ip = ip; username = normalize_login_identifier username }

abbrev pub is_pair : AttemptKey → AttemptKey × Failure → Bool
is_pair k e = text_eq k.ip e.0.ip && text_eq k.username e.0.username

abbrev pub is_ip : Text → Text × Failure → Bool
is_ip ip e = text_eq ip e.0

abbrev pub failure_of : {K : Type 0} → Option (K × Failure) → Failure
failure_of none = record { count = 0; started_at = 0 }
failure_of (some e) = e.1

unfoldable pub remaining_login_window : Failure → ℕ → ℤ
remaining_login_window f now =
    if f.count == 0 then pos 0 else sub_ℕ (failure_window + f.started_at) now

abbrev pub is_over : Failure → ℕ → Bool
is_over f now = leb_ℤ (remaining_login_window f now) (pos 0)

unfoldable pub next_login_failure : Failure → ℕ → Failure
unfolding remaining_login_window
next_login_failure current now =
    if current.count == 0 || is_over current now
    then record { count = 1; started_at = now }
    else record current { count = suc current.count }

unfoldable pub prune_expired : Limiter → ℕ → Limiter
prune_expired l now = record l {
  pair_failures = delete_where (λ e. is_over e.1 now) l.pair_failures;
  ip_failures = delete_where (λ e. is_over e.1 now) l.ip_failures;
}

abbrev pub is_missing : {A : Type 0} → Option A → Bool
is_missing none = true
is_missing (some a) = false

abbrev pub max_ℤ : ℤ → ℤ → ℤ
max_ℤ a b = if leb_ℤ a b then b else a

-- The four tests of allowLocked on the entries of an attempt, in their order.
unfoldable pub retry_after : Limiter → Text → Text → ℕ → ℤ
unfolding remaining_login_window
retry_after l ip username now =
    let found = find_first (is_pair (key_of ip username)) l.pair_failures in
    let found_ip = find_first (is_ip ip) l.ip_failures in
    let pair = failure_of found in
    let ip_failure = failure_of found_ip in
    let full =
      if is_missing found && leb max_pair_entries (length l.pair_failures)
      then pos failure_window
      else pos 0 in
    let by_pair = if leb l.pair_limit pair.count then remaining_login_window pair now else full in
    let by_table =
      if is_missing found_ip && leb max_ip_entries (length l.ip_failures)
      then pos failure_window
      else by_pair in
    if leb ip_failure_limit ip_failure.count
    then max_ℤ by_table (remaining_login_window ip_failure now)
    else by_table

-- allowLocked, and Allow, which only takes the lock
unfoldable pub allow : Limiter → Text → Text → ℕ → Limiter × (Bool × ℤ)
unfolding prune_expired retry_after
allow l ip username now =
    let pruned = prune_expired l now in
    let retry = retry_after pruned ip username now in (pruned, (leb_ℤ retry (pos 0), retry))

-- A known key is written, and a new one while there is room.
abbrev pub put : {A : Type 0} → (A → Bool) → A → ℕ → List A → List A
put p new limit xs =
    if not (is_missing (find_first p xs)) || ltb (length xs) limit
    then upsert p (λ _. new) new xs
    else xs

abbrev pub counted : {K : Type 0} → (K × Failure → Bool) → List (K × Failure) → ℕ → Failure
counted p entries now = next_login_failure (failure_of (find_first p entries)) now

-- recordFailureLocked, and RecordFailure
unfoldable pub record_failure : Limiter → Text → Text → ℕ → Limiter
unfolding prune_expired next_login_failure
record_failure l ip username now =
    let pruned = prune_expired l now in
    let key = key_of ip username in
    record pruned {
      pair_failures =
          put (is_pair key) (key, counted (is_pair key) pruned.pair_failures now) max_pair_entries
            pruned.pair_failures;
      ip_failures =
          put (is_ip ip) (ip, counted (is_ip ip) pruned.ip_failures now) max_ip_entries
            pruned.ip_failures;
    }

unfoldable pub take_attempt : Limiter → Text → Text → ℕ → Limiter × (Bool × ℤ)
unfolding allow record_failure
take_attempt l ip identifier now =
    let (pruned, answer) = allow l ip identifier now in
    (if answer.0 then record_failure pruned ip identifier now else pruned, answer)

unfoldable pub reset : Limiter → Text → Text → Limiter
reset l ip username = record l {
  pair_failures = delete_where (is_pair (key_of ip username)) l.pair_failures;
}
