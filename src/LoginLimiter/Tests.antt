-- ===== src/LoginLimiter/Tests.antt =====
-- The theorems on the login limiter at concrete calls: an account that was tried four times from one address.
use vps_panel.Prelude.{◌≡◌, refl, List, [], ◌∷◌, find_first}
use vps_panel.Prelude.Text.{Text, codes, text_eq, trim_space, to_lower}
use vps_panel.LoginLimiter.{Failure, Limiter, key_of, new_login_limiter, normalize_login_identifier}
use vps_panel.LoginLimiter.Bounds.{Call, IsBounded, cleared, failed, run, run-IsBounded, taken}
use vps_panel.LoginLimiter.Window.{tried}

abbrev home : Text
home = codes "192.0.2.7"

abbrev user : Text
user = codes "ann"

abbrev four_times : Failure
four_times = record { count = 4; started_at = 5000000000 }

abbrev limiter : Limiter
limiter = record {
  pair_failures = (key_of home user, four_times) ∷ [];
  ip_failures = (home, four_times) ∷ [];
  pair_limit = 5;
}

-- The account is tried further, by attempts and by a log-in that fails; another account is cleared.
abbrev attempts : List Call
attempts =
    taken home user 9000000000
    ∷ failed home user 9500000000
    ∷ cleared home (codes "bob")
    ∷ taken home (codes "bob") 9600000000
    ∷ taken home user 40000000000
    ∷ []

tried-four_times : tried limiter home user ≡ four_times
unfolding find_first normalize_login_identifier text_eq trim_space to_lower
tried-four_times = refl

abbrev calls : List Call
calls = failed home user 1000000000 ∷ taken home user 2000000000 ∷ cleared home user ∷ []

run-IsBounded_example : IsBounded (run new_login_limiter calls)
run-IsBounded_example = run-IsBounded calls
