-- ===== src/Invitation/Once.antt =====
-- panel/internal/auth/invite.go: an invitation makes one user, with its role and a name of the user's own.
use vps_panel.Prelude.{
  ℕ, ◌≤◌, ◌≡◌, ◌≢◌, refl, subst, ap, true, not, Option, none, some, [], ◌∷◌, ◌++◌, ◌==◌, ==_refl,
  find_first, arith, Bool-cases, Option-cases, inl, inr, ok, >>=-eq-ok, ok-inj, past_guard,
  past_search,
}
use vps_panel.Prelude.Text.{Text, text_eq, text_eq_iff}
use vps_panel.Prelude.Tables.{count_where, find_first-holds}
use vps_panel.Prelude.Counts.{
  find_first-update_where-used, count_where-append-hit, count_where-append-miss, find_first-none,
}
use vps_panel.Invitation.{
  Db, Invitation, User, is_empty, is_none, is_open, is_revocable, named, new_user,
  prepare_credentials, register_with_invitation, registered, valid_invitation_role,
}

module _ (hash : Text → Text) (encrypt : Text → Option Text) where
  register_with_invitation-shape :
      (db : Db) (token username password subscription : Text) (now : ℕ) {after : Db} {u : User}
      → register_with_invitation hash encrypt db token username password subscription now
        ≡ ok (after, u)
      → (i : Invitation) × (c : Text × Text) × (find_first
            (is_open hash encrypt token now)
            db.invitations
          ≡ some i)
        × (valid_invitation_role i.role ≡ true)
        × (find_first (named c.0) db.users ≡ none)
        × (registered hash encrypt db i c subscription now ≡ after)
        × (new_user hash encrypt db i c now ≡ u)
  unfolding register_with_invitation
  register_with_invitation-shape db token username password subscription now {after} {u} done =
      let (_, given) = past_guard (is_empty token) _ _ done in
      let (c, _, prepared) =
        >>=-eq-ok (prepare_credentials hash encrypt username password) _ given in
      let (i, found, rest) =
        past_search (find_first (is_open hash encrypt token now) db.invitations) _ _ prepared in
      let (role, valid) = past_guard (not (valid_invitation_role i.role)) _ _ rest in
      let (free, untaken) =
        past_guard (not (is_none (find_first (named c.0) db.users))) _ _ valid in
      let (_, same) =
        past_guard (not (count_where (is_revocable i.id now) db.invitations == 1)) _ _ untaken in
      let equal = ok-inj same in
      let absent : find_first (named c.0) db.users ≡ none =
        elim (Option-cases (find_first (named c.0) db.users)) [
          | inl e ↦ e
          | inr (x, e) ↦ let f = rw e at free in absurd (ground arith)
        ] in
      (
        i,
        c,
        found,
        ground arith,
        absent,
        ap (λ (r : Db × User). r.0) equal,
        ap (λ (r : Db × User). r.1) equal,
      )

  -- A registration gives the role of an invitation that was open, which is never an administrator's; and
  -- where no two users have the same name, no two have after it.
  pub register_with_invitation-named :
      (db : Db) (token username password subscription : Text) (now : ℕ) {after : Db} {u : User}
      → ((name : Text) → count_where (named name) db.users ≤ 1)
      → register_with_invitation hash encrypt db token username password subscription now
        ≡ ok (after, u)
      → (name : Text)
      → (count_where (named name) after.users ≤ 1)
        × (valid_invitation_role u.role ≡ true)
        × ((i : Invitation) × (find_first (is_open hash encrypt token now) db.invitations ≡ some i)
            × (u.role ≡ i.role))
  unfolding registered
  register_with_invitation-named db token username password subscription now {after} {u} own done
        name =
      let (i, c, found, role, absent, same, new) =
        register_with_invitation-shape db token username password subscription now done in
      let user = new_user hash encrypt db i c now in
      let alone : count_where (named name) (db.users ++ (user ∷ [])) ≤ 1 =
        elim (Bool-cases (text_eq c.0 name)) [
          | inl its ↦
              let at : c.0 ≡ name = (text_eq_iff c.0 name).0 its in
              let zero =
                subst (λ n. count_where (named n) db.users ≡ 0) at
                  (find_first-none (named c.0) db.users absent) in
              let le = count_where-append-hit (named name) db.users user in omega (arith, zero, le)
          | inr other ↦
              let kept = count_where-append-miss (named name) db.users user other in
              let one = own name in omega (arith, kept, one)
        ] in
      (
        subst (λ (d : Db). count_where (named name) d.users ≤ 1) same alone,
        subst (λ (v : User). valid_invitation_role v.role ≡ true) new role,
        (i, found, subst (λ (v : User). v.role ≡ i.role) new refl),
      )

  -- An invitation serves once: after a registration with its token, no other succeeds, as long as the
  -- hashes of the invitations are their own.
  pub register_with_invitation-single_use :
      (db : Db) (token username password subscription : Text) (now : ℕ) {after : Db} {u : User}
      → count_where (λ (x : Invitation). text_eq x.token_hash (hash token)) db.invitations ≤ 1
      → register_with_invitation hash encrypt db token username password subscription now
        ≡ ok (after, u)
      → (name secret other : Text) (later : ℕ) (result : Db × User)
      → register_with_invitation hash encrypt after token name secret other later ≢ ok result
  unfolding registered
  register_with_invitation-single_use db token username password subscription now {after} {u} own
        done name secret other later result second =
      let (i, c, found, _, _, same, _) =
        register_with_invitation-shape db token username password subscription now done in
      let opened = find_first-holds (is_open hash encrypt token now) db.invitations found in
      let spent =
        find_first-update_where-used (λ (x : Invitation). text_eq x.token_hash (hash token))
          (is_open hash encrypt token now) (is_open hash encrypt token later)
          (is_revocable i.id now) (λ x. record x { used_at = some now }) (λ x e. rw e refl)
          (λ x. ground arith) db.invitations found (ground arith)
          (let r = ==_refl i.id in ground arith) own in
      let nothing =
        subst (λ (d : Db). find_first (is_open hash encrypt token later) d.invitations ≡ none) same
          spent in
      let (_, _, found_again, _, _, _, _) =
        register_with_invitation-shape after token name secret other later second in
      cc
