-- ===== src/Subscriber/Reset.antt =====
-- panel/internal/subscription/usage.go: a cycle is reset once.
use vps_panel.Prelude.{
  ℕ, ◌≡◌, refl, sym, ◌∙◌, subst, Bool, true, false, some, arith, leb, ◌==◌, find_first, ok,
  >>=-eq-ok, Bool-cases, Option-cases, inl, inr, if◌then◌else◌,
}
use vps_panel.Prelude.Tables.{find_first-update_where}
use vps_panel.Subscriber.Cycle.{current_subscriber_cycle_start, is_never}
use vps_panel.Subscriber.{
  Db, Profile, Usage, reset_subscriber_cycle_if_due, reset_usage, reset_if_due,
}

abbrev usage_of : ℕ → Usage → Bool
usage_of user u = u.user_id == user

abbrev profile_of : ℕ → Profile → Bool
profile_of user p = p.user_id == user

leb_refl : (n : ℕ) → leb n n ≡ true
leb_refl n = ground arith

profiles-reset_usage :
    (db : Db) (user start now : ℕ) → (reset_usage db user start now).profiles ≡ db.profiles
unfolding reset_usage
profiles-reset_usage db user start now = refl

-- The usage of a user after the reset of the cycle began at its start.
begun :
    (db : Db) (user start now : ℕ) (u : Usage)
    → find_first (usage_of user) db.usages ≡ some u
    → (v : Usage) × (find_first (usage_of user) (reset_usage db user start now).usages ≡ some v)
      × (v.cycle_started_at ≡ start)
unfolding reset_usage
begun db user start now u found = (
  _,
  find_first-update_where (usage_of user)
      (λ u. record u {
        archived_uplink = 0;
        archived_downlink = 0;
        cycle_started_at = start;
        updated_at = now;
      })
      (λ x p. p) db.usages found,
  refl,
)

reset_if_due_again :
    (db after : Db) (user now : ℕ) (p : Profile) (u : Usage)
    → find_first (usage_of user) db.usages ≡ some u
    → reset_if_due db user now p u ≡ ok (after, true)
    → (v : Usage) × (find_first (usage_of user) after.usages ≡ some v)
      × (after.profiles ≡ db.profiles)
      × (reset_if_due after user now p v ≡ ok (after, false))
unfolding reset_if_due
reset_if_due_again db after user now p u usage e = elim (Bool-cases (is_never p.mode)) [
  | inl never ↦ let f = rw never at e in absurd (ground arith)
  | inr resets ↦
      let (start, begins, f) =
        >>=-eq-ok (current_subscriber_cycle_start now p.mode p.day p.reset_time)
          (λ start. ok (
            if leb start u.cycle_started_at
            then (db, false)
            else (reset_usage db user start now, true)))
          (rw resets at e) in
      elim (Bool-cases (leb start u.cycle_started_at)) [
        | inl early ↦ let g = rw early at f in absurd (ground arith)
        | inr late ↦
            let same : reset_usage db user start now ≡ after = cc (rw late at f) in
            let (v, found, started) = begun db user start now u usage in
            let done : leb start v.cycle_started_at ≡ true = rw started (leb_refl start) in
            subst
              (λ d.
                (v : Usage) × (find_first (usage_of user) d.usages ≡ some v)
                × (d.profiles ≡ db.profiles)
                × (reset_if_due d user now p v ≡ ok (d, false)))
              same
              (v, found, profiles-reset_usage db user start now, rw (resets, begins, done) refl)
      ]
]

read :
    (db : Db) (user now : ℕ) (p : Profile) (u : Usage)
    → find_first (profile_of user) db.profiles ≡ some p
    → find_first (usage_of user) db.usages ≡ some u
    → reset_subscriber_cycle_if_due db user now ≡ reset_if_due db user now p u
unfolding reset_subscriber_cycle_if_due
read db user now p u profile usage = rw (profile, usage, reset_subscriber_cycle_if_due) refl

-- The cycle is not reset again at once: after a call that reset it, a second call at the same instant
-- succeeds and changes nothing.
pub reset_subscriber_cycle_if_due_again :
    (db after : Db) (user now : ℕ)
    → reset_subscriber_cycle_if_due db user now ≡ ok (after, true)
    → reset_subscriber_cycle_if_due after user now ≡ ok (after, false)
unfolding reset_subscriber_cycle_if_due
reset_subscriber_cycle_if_due_again db after user now e =
    elim (Option-cases (find_first (profile_of user) db.profiles)) [
      | inl gone ↦ let f = rw (gone, reset_subscriber_cycle_if_due) at e in absurd (ground arith)
      | inr (p, profile) ↦ elim (Option-cases (find_first (usage_of user) db.usages)) [
        | inl gone ↦
            let f = rw (profile, gone, reset_subscriber_cycle_if_due) at e in absurd (ground arith)
        | inr (u, usage) ↦
            let (v, found, kept, stays) =
              reset_if_due_again db after user now p u usage
                (sym (read db user now p u profile usage) ∙ e) in
            let profile' : find_first (profile_of user) after.profiles ≡ some p =
              subst (λ ps. find_first (profile_of user) ps ≡ some p) (sym kept) profile in
            read after user now p v profile' found ∙ stays
      ]
    ]
