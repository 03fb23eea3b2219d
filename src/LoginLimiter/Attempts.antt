-- ===== src/LoginLimiter/Attempts.antt =====
-- panel/internal/api/login_limiter.go: how many attempts on an account one window lets through, among all
-- the calls of the limiter.
use vps_panel.Prelude.{ℕ, ◌≤◌, ◌<◌, ◌+◌, ◌≡◌, Bool, true, false, ◌&&◌, List, [], ◌∷◌, if◌then◌else◌}
use vps_panel.Prelude.Text.{Text}
use vps_panel.LoginLimiter.{AttemptKey, Limiter, failure_window, key_of, take_attempt}
use vps_panel.LoginLimiter.Bounds.{Call, allowed, cleared, failed, step, taken}
use vps_panel.LoginLimiter.Window.{entry, same_pair}

-- What a call does to the account's entry.
record Stepped (l after : Limiter) (k : AttemptKey) (granted : Bool) : Type 0 where
  begun : (entry after k).started_at ≡ (entry l k).started_at
  counts : (entry l k).count + (if granted then 1 else 0) ≤ (entry after k).count
  room : granted ≡ true → (entry l k).count < l.pair_limit
  limit : after.pair_limit ≡ l.pair_limit

module _ (ip username : Text) where
  abbrev key : AttemptKey
  key = key_of ip username

  -- Whether a call is an attempt on the account that is let through.
  abbrev pub lets_in : Limiter → Call → Bool
  lets_in l (taken from name now) =
      same_pair (key_of ip username) (key_of from name) && (take_attempt l from name now).1.0
  lets_in l (allowed from name now) = false
  lets_in l (failed from name now) = false
  lets_in l (cleared from name) = false

  abbrev pub let_through : Limiter → List Call → ℕ
  let_through l [] = 0
  let_through l (c ∷ cs) = (if lets_in l c then 1 else 0) + let_through (step l c) cs

  -- A call before the end of the window that began at `started`, and none that clears the account.
  abbrev pub IsWithin : ℕ → Call → Type 0
  IsWithin started (allowed from name now) = now < failure_window + started
  IsWithin started (failed from name now) = now < failure_window + started
  IsWithin started (taken from name now) = now < failure_window + started
  IsWithin started (cleared from name) = same_pair (key_of ip username) (key_of from name) ≡ false
