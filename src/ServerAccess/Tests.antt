-- ===== src/ServerAccess/Tests.antt =====
-- Runs of the model of panel/internal/server/access.go.
use vps_panel.Prelude.{◌≡◌, refl, [], ◌∷◌, err}
use vps_panel.Prelude.Text.{codes, text_eq, to_lower, trim_space, trim_left, is_space}
use vps_panel.ServerAccess.{
  Db, can_access, invalid_server_access, normalize_access_user_ids, update_access,
  normalize_visibility, update_to, is_granted, valid_access_users, updated_access,
}

abbrev one_server : Db
one_server = record {
  servers = record { id = 1; visibility = codes "public"; updated_at = 0 } ∷ [];
  users =
      record { id = 1; role = codes "admin" }
      ∷ record { id = 2; role = codes "vip" }
      ∷ record { id = 3; role = codes "user" }
      ∷ [];
  grants = [];
}

-- Only administrators and VIPs are named.
named_user : update_access one_server 1 1 (codes "private") (3 ∷ []) 10 ≡ err invalid_server_access
unfolding update_access normalize_visibility update_to can_access is_granted valid_access_users
    normalize_access_user_ids updated_access text_eq to_lower trim_space trim_left is_space
named_user = refl
