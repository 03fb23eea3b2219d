-- ===== src/ServerAccess/Granted.antt =====
-- panel/internal/server/access.go: a private server is seen by those who are named, and by nobody else.
use vps_panel.Prelude.{ℕ, Bool, List, any, ◌==◌}
use vps_panel.Prelude.Text.{Text}

abbrev pub member : ℕ → List ℕ → Bool
member n = any (λ m. m == n)
