-- ===== src/Invitation.antt =====
-- panel/internal/auth/invite.go: invitations, and the users that register with them. SHA-256 is the
-- argument `hash`, bcrypt the argument `encrypt`, and a token that is made at random an argument of the
-- operation that makes it.
pub mod Once
mod Tests
use vps_panel.Prelude.{
  ℕ, suc, ◌+◌, Bool, true, false, ◌&&◌, ◌||◌, not, Option, none, some, List, [], ◌∷◌, ◌++◌, any,
  keep, length, leb, ltb, ◌==◌, if◌then◌else◌, find_first, Result, ok, err, ◌>>=◌,
}
use vps_panel.Prelude.Text.{Text, byte_length, codes, text_eq, trim_space}
use vps_panel.Prelude.Tables.{count_where, delete_where, update_where}

pub data Error : Type 0 where
  invalid_invitation invalid_invitation_role invitation_not_found : Error
  invalid_username invalid_password username_taken encryption_failed : Error

pub record Invitation : Type 0 where
  pub id : ℕ
  pub token_hash : Text
  pub created_by : ℕ
  pub role : Text
  pub expires_at : ℕ
  pub used_at : Option ℕ
  pub created_at : ℕ

pub record User : Type 0 where
  pub id : ℕ
  pub username : Text
  pub password_hash : Text
  pub role : Text
  pub created_at : ℕ
  pub updated_at : ℕ

pub record Profile : Type 0 where
  pub user_id : ℕ
  pub enabled : Bool
  pub subscription_token : Text
  pub created_at : ℕ

pub record Usage : Type 0 where
  pub user_id : ℕ
  pub cycle_started_at : ℕ

pub record Db : Type 0 where
  pub invitations : List Invitation
  pub users : List User
  pub profiles : List Profile
  pub usage : List Usage
  pub next_id : ℕ

abbrev pub invitation_lifetime : ℕ
invitation_lifetime = 86400

abbrev pub is_empty : Text → Bool
is_empty [] = true
is_empty (c ∷ cs) = false

abbrev pub is_none : {A : Type 0} → Option A → Bool
is_none none = true
is_none (some a) = false

unfoldable pub valid_invitation_role : Text → Bool
unfolding text_eq
valid_invitation_role role =
    text_eq role (codes "vip")
    || text_eq role (codes "carpool")
    || text_eq role (codes "subscriber")

abbrev pub role_of : List Text → Option Text
role_of [] = some (codes "vip")
role_of (role ∷ []) = some role
role_of (role ∷ other ∷ roles) = none

abbrev pub new_invitation : Db → ℕ → Text → Text → ℕ → Invitation
new_invitation db created_by role token_hash now = record {
  id = db.next_id;
  token_hash = token_hash;
  created_by = created_by;
  role = role;
  expires_at = now + invitation_lifetime;
  used_at = none;
  created_at = now;
}

-- CreateInvitation; `token_hash` is of the new token.
unfoldable pub create_invitation : Db → ℕ → List Text → Text → ℕ → Result Error (Db × Invitation)
unfolding valid_invitation_role
create_invitation db created_by roles token_hash now = elim (role_of roles) [
  | none ↦ err invalid_invitation_role
  | some role ↦
      if not (valid_invitation_role role)
      then err invalid_invitation_role
      else let new = new_invitation db created_by role token_hash now in
        ok (record db { invitations = db.invitations ++ (new ∷ []); next_id = suc db.next_id }, new)
]

-- used_at IS NULL AND expires_at > ?
abbrev pub is_active : ℕ → Invitation → Bool
is_active now i = is_none i.used_at && ltb now i.expires_at

abbrev pub has_user : Db → ℕ → Bool
has_user db id = any (λ (u : User). u.id == id) db.users

-- ListActiveInvitations, without its order by date
unfoldable pub list_active_invitations : Db → ℕ → List Invitation
unfolding keep
list_active_invitations db now =
    keep (λ i. is_active now i && has_user db i.created_by) db.invitations

abbrev pub is_revocable : ℕ → ℕ → Invitation → Bool
is_revocable id now i = i.id == id && is_active now i

-- RevokeInvitation
unfoldable pub revoke_invitation : Db → ℕ → ℕ → Result Error Db
revoke_invitation db id now =
    if count_where (is_revocable id now) db.invitations == 0
    then err invitation_not_found
    else ok (record db { invitations = delete_where (is_revocable id now) db.invitations })

abbrev pub is_username_code : ℕ → Bool
is_username_code c =
    (leb 97 c && leb c 122)
    || (leb 65 c && leb c 90)
    || (leb 48 c && leb c 57)
    || c == 95
    || c == 46
    || c == 45

-- ^[A-Za-z0-9_.-]{3,64}$
abbrev pub valid_username : Text → Bool
valid_username s =
    leb 3 (length s) && leb (length s) 64 && not (any (λ c. not (is_username_code c)) s)

abbrev pub named : Text → User → Bool
named username u = text_eq u.username username

module _ (hash : Text → Text) (encrypt : Text → Option Text) where
  -- token_hash = ? AND used_at IS NULL AND expires_at > ?
  abbrev pub is_open : Text → ℕ → Invitation → Bool
  is_open token now i = text_eq i.token_hash (hash token) && is_active now i

  -- GetInvitation
  unfoldable pub get_invitation : Db → Text → ℕ → Result Error Invitation
  unfolding valid_invitation_role
  get_invitation db token now =
      if is_empty token
      then err invalid_invitation
      else elim (find_first (λ i. is_open token now i && has_user db i.created_by) db.invitations) [
        | none ↦ err invalid_invitation
        | some i ↦ if not (valid_invitation_role i.role) then err invalid_invitation else ok i
      ]

  -- prepareCredentials
  unfoldable pub prepare_credentials : Text → Text → Result Error (Text × Text)
  prepare_credentials username password =
      let name = trim_space username in
      if not (valid_username name)
      then err invalid_username
      else if ltb (byte_length password) 6 || ltb 72 (byte_length password)
      then err invalid_password
      else elim (encrypt password) [ none ↦ err encryption_failed | some p ↦ ok (name, p) ]

  abbrev pub new_user : Db → Invitation → Text × Text → ℕ → User
  new_user db i credentials now = record {
    id = db.next_id;
    username = credentials.0;
    password_hash = credentials.1;
    role = i.role;
    created_at = now;
    updated_at = now;
  }

  -- The statements of a registration, once its guards hold.
  unfoldable pub registered : Db → Invitation → Text × Text → Text → ℕ → Db
  registered db i credentials subscription_token now =
      let user = new_user db i credentials now in
      let subscribes = text_eq i.role (codes "subscriber") in
      record {
        invitations =
            update_where (is_revocable i.id now) (λ x. record x { used_at = some now })
              db.invitations;
        users = db.users ++ (user ∷ []);
        profiles =
            if subscribes
            then db.profiles
              ++ (record {
                user_id = user.id;
                enabled = true;
                subscription_token = subscription_token;
                created_at = now;
              }
                  ∷ [])
            else db.profiles;
        usage =
            if subscribes
            then db.usage ++ (record { user_id = user.id; cycle_started_at = now } ∷ [])
            else db.usage;
        next_id = suc db.next_id;
      }

  -- RegisterWithInvitation
  unfoldable pub register_with_invitation :
      Db → Text → Text → Text → Text → ℕ → Result Error (Db × User)
  unfolding registered prepare_credentials valid_invitation_role
  register_with_invitation db token username password subscription_token now =
      if is_empty token
      then err invalid_invitation
      else (prepare_credentials username password >>= λ credentials.
          elim (find_first (is_open token now) db.invitations) [
            | none ↦ err invalid_invitation
            | some i ↦
                if not (valid_invitation_role i.role)
                then err invalid_invitation
                else if not (is_none (find_first (named credentials.0) db.users))
                then err username_taken
                else if not (count_where (is_revocable i.id now) db.invitations == 1)
                then err invalid_invitation
                else ok (
                  registered db i credentials subscription_token now,
                  new_user db i credentials now,
                )
          ])
