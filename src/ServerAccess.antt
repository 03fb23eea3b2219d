-- ===== src/ServerAccess.antt =====
-- panel/internal/server/access.go: who may see a server. Only administrators and VIPs are given access.
pub mod Granted
mod Tests
use vps_panel.Prelude.{
  ℕ, Bool, true, false, ◌&&◌, ◌||◌, not, Option, none, some, List, [], ◌∷◌, ◌++◌, map, any, ◌==◌,
  if◌then◌else◌, Result, ok, err, ◌>>=◌,
}
use vps_panel.Prelude.Text.{Text, codes, text_eq, to_lower, trim_space}
use vps_panel.Prelude.Tables.{delete_where, update_where}
use vps_panel.ServerLifecycle.{sorted_ids}

pub data Error : Type 0 where
  not_found invalid_visibility invalid_server_access : Error

pub record Server : Type 0 where
  pub id : ℕ
  pub visibility : Text
  pub updated_at : ℕ

pub record User : Type 0 where
  pub id : ℕ
  pub role : Text

-- A row of server_access
pub record Grant : Type 0 where
  pub server_id : ℕ
  pub user_id : ℕ

pub record Db : Type 0 where
  pub servers : List Server
  pub users : List User
  pub grants : List Grant

pub record Access : Type 0 where
  pub visibility : Text
  pub user_ids : List ℕ

abbrev pub is_server : ℕ → Server → Bool
is_server id s = s.id == id

-- role IN ('admin', 'vip')
abbrev pub is_staff : ℕ → User → Bool
is_staff id u = u.id == id && (text_eq u.role (codes "admin") || text_eq u.role (codes "vip"))

abbrev pub is_public : Text → Bool
is_public v = text_eq v (codes "public")

abbrev pub is_private : Text → Bool
is_private v = text_eq v (codes "private")

-- The inner EXISTS of the query
unfoldable pub is_granted : List User → List Grant → ℕ → ℕ → Bool
is_granted users grants user server =
    any
      (λ (g : Grant). g.server_id == server && g.user_id == user && any (is_staff g.user_id) users)
      grants

-- canAccessServer
unfoldable pub can_access : Db → ℕ → ℕ → Bool
unfolding is_granted
can_access db user server =
    if user == 0 || server == 0
    then false
    else any
        (λ (s : Server).
          is_server server s
          && (is_public s.visibility || is_granted db.users db.grants user server))
        db.servers

unfoldable pub normalize_visibility : Text → Result Error Text
normalize_visibility value =
    let v = to_lower (trim_space value) in
    if text_eq v []
    then ok (codes "public")
    else if not (is_public v) && not (is_private v)
    then err invalid_visibility
    else ok v

abbrev pub and_current : ℕ → List ℕ → List ℕ
and_current current values = if current == 0 then values else current ∷ values

abbrev pub is_nil : List ℕ → Bool
is_nil [] = true
is_nil (x ∷ xs) = false

-- normalizeAccessUserIDs
unfoldable pub normalize_access_user_ids : List ℕ → ℕ → Result Error (List ℕ)
normalize_access_user_ids values current =
    if any (λ id. id == 0) values
    then err invalid_server_access
    else if is_nil (and_current current values)
    then err invalid_server_access
    else ok (sorted_ids (and_current current values))

-- validateAccessUsers
unfoldable pub valid_access_users : List User → List ℕ → Bool
valid_access_users users [] = true
valid_access_users users (id ∷ ids) = any (is_staff id) users && valid_access_users users ids

-- replaceServerAccess
unfoldable pub replace_server_access : List Grant → ℕ → List ℕ → List Grant
replace_server_access grants server ids =
    delete_where (λ g. g.server_id == server) grants
    ++ map (λ id. record { server_id = server; user_id = id }) ids

-- The statements of UpdateAccess, once its guards hold.
unfoldable pub updated_access : Db → ℕ → Text → List ℕ → ℕ → Db
updated_access db server v ids now = record db {
  servers =
      update_where (is_server server) (λ s. record s { visibility = v; updated_at = now })
        db.servers;
  grants = replace_server_access db.grants server ids;
}

-- The part of UpdateAccess from the normal form on.
unfoldable pub update_to : Db → ℕ → ℕ → Text → List ℕ → ℕ → Result Error (Db × Access)
unfolding can_access valid_access_users updated_access
update_to db server current v ids now =
    if not (can_access db current server)
    then err not_found
    else if is_private v && not (valid_access_users db.users ids)
    then err invalid_server_access
    else ok (updated_access db server v ids now, record { visibility = v; user_ids = ids })

abbrev pub ids_for : Text → List ℕ → ℕ → Result Error (List ℕ)
ids_for v ids current = if is_private v then normalize_access_user_ids ids current else ok []

-- UpdateAccess
unfoldable pub update_access : Db → ℕ → ℕ → Text → List ℕ → ℕ → Result Error (Db × Access)
unfolding normalize_visibility update_to
update_access db server current visibility ids now = normalize_visibility visibility >>= λ v.
    ids_for v ids current >>= λ normal. update_to db server current v normal now
