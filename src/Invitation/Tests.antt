-- ===== src/Invitation/Tests.antt =====
-- panel/internal/auth/invite.go on one invitation of an administrator.
use vps_panel.Prelude.{
  ◌≡◌, ◌≢◌, refl, ◌≤◌, true, Option, none, some, [], ◌∷◌, ok, arith, find_first,
}
use vps_panel.Prelude.Text.{Text, codes, text_eq, trim_space, trim_left, is_space}
use vps_panel.Prelude.Tables.{count_where}
use vps_panel.Invitation.{
  Db, Invitation, User, is_open, named, new_user, prepare_credentials, register_with_invitation,
  registered, valid_invitation_role,
}
use vps_panel.Invitation.Once.{register_with_invitation-named, register_with_invitation-single_use}

abbrev no_hash : Text → Text
no_hash t = t

abbrev keep_text : Text → Option Text
keep_text t = some t

abbrev invitation : Invitation
invitation = record {
  id = 2;
  token_hash = codes "invited";
  created_by = 1;
  role = codes "subscriber";
  expires_at = 90000;
  used_at = none;
  created_at = 3600;
}

abbrev db : Db
db = record { invitations = invitation ∷ []; users = []; profiles = []; usage = []; next_id = 3 }

abbrev credentials : Text × Text
credentials = (codes "guest", codes "secret")

abbrev after : Db
after = registered no_hash keep_text db invitation credentials (codes "feed") 7200

abbrev user : User
user = new_user no_hash keep_text db invitation credentials 7200

first_time :
    register_with_invitation no_hash keep_text db
      (codes "invited")
      (codes "guest ")
      (codes "secret")
      (codes "feed")
      7200
    ≡ ok (after, user)
unfolding register_with_invitation prepare_credentials find_first count_where valid_invitation_role
    text_eq trim_space trim_left is_space
first_time = refl

own_name : (name : Text) → count_where (named name) db.users ≤ 1
unfolding count_where
own_name name = omega arith

own_hash :
    count_where
      (λ (x : Invitation). text_eq x.token_hash (no_hash (codes "invited")))
      db.invitations
    ≤ 1
unfolding count_where text_eq
own_hash = omega arith

register_with_invitation-named_example :
    (count_where (named (codes "guest")) after.users ≤ 1)
    × (valid_invitation_role user.role ≡ true)
    × ((i : Invitation) × (find_first
            (is_open no_hash keep_text (codes "invited") 7200)
            db.invitations
          ≡ some i)
        × (user.role ≡ i.role))
register_with_invitation-named_example =
    register_with_invitation-named no_hash keep_text db (codes "invited") (codes "guest ")
      (codes "secret") (codes "feed") 7200 own_name first_time (codes "guest")

register_with_invitation-single_use_example :
    register_with_invitation no_hash keep_text after
      (codes "invited")
      (codes "other")
      (codes "secret")
      (codes "feed")
      7300
    ≢ ok (after, user)
register_with_invitation-single_use_example =
    register_with_invitation-single_use no_hash keep_text db (codes "invited") (codes "guest ")
      (codes "secret") (codes "feed") 7200 own_hash first_time (codes "other") (codes "secret")
      (codes "feed") 7300 (after, user)
