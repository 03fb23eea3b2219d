-- ===== src/Notification/Outages.antt =====
-- panel/internal/notification/watcher.go: how often a server's outage and its end are told of.
use vps_panel.Prelude.{
  ℕ, ◌+◌, ◌*◌, ◌≤◌, ◌≡◌, refl, sym, Bool, true, false, ◌||◌, not, Option, none, some, List, [], ◌∷◌,
  any, ltb, ==_refl, find_first, arith, Bool-cases, Option-cases, inl, inr,
}
use vps_panel.Prelude.Tables.{find_first-update_where, find_first-upsert}
use vps_panel.Prelude.Counts.{find_first-update_where-none}
use vps_panel.Notification.{Entry, Settings, configured, fresh_state, is_of, state_of}
use vps_panel.Notification.Online.{
  Absence, Server, Turn, Watch, begin, begun, clear, cleared, forget, is_absence, is_some, second,
  turn, turn_absent, turn_connected, unix,
}

abbrev pub num : Bool → ℕ
num true = 1
num false = 0

-- An outage of the server has begun, by the table.
abbrev pub is_down : ℕ → Watch → Bool
is_down id w = is_some (state_of w.rows id).started

clear-is_down : (id now : ℕ) (w : Watch) → is_down id (clear id now w) ≡ false
unfolding clear state_of
clear-is_down id now w = elim (Option-cases (find_first (is_of id) w.rows)) [
  | inl absent ↦
      let there =
        find_first-update_where-none (is_of id) (is_of id) (cleared now) (λ x. refl) w.rows
          absent in
      rw (state_of, there) refl
  | inr (s, present) ↦
      let there = find_first-update_where (is_of id) (cleared now) (λ x h. h) w.rows present in
      rw (state_of, there) refl
]

begin-is_down : (id start now : ℕ) (w : Watch) → is_down id (begin id start now w) ≡ true
unfolding begin state_of
begin-is_down id start now w =
    let there =
      find_first-upsert (is_of id) (begun start now) (begun start now (fresh_state id)) (λ x h. h)
        (==_refl id) w.rows in
    elim (Option-cases (find_first (is_of id) w.rows)) [
      | inl absent ↦ let e = rw absent at there in rw (state_of, e) refl
      | inr (s, present) ↦ let e = rw present at there in rw (state_of, e) refl
    ]

-- The balance of a turn: a recovery is told only when an outage ends, an outage only when it begins, and
-- it ends only when the server is seen.
abbrev Balanced : ℕ → Watch → Turn → ℕ → Type 0
Balanced id w t seen =
    (num (is_some t.back) + num (is_down id t.watch) ≤ num (is_some t.gone) + num (is_down id w))
    × (num (is_some t.gone) + num (is_down id w) ≤ num (is_down id t.watch) + seen)

num_le : (b : Bool) → num b ≤ 1
num_le true = omega arith
num_le false = omega arith

few : (o : Option Entry) → num (is_some o) + 0 ≤ 1
few none = omega arith
few (some e) = omega arith

turn_connected-Balanced :
    (settings : Settings) (now id : ℕ) (w : Watch)
    → Balanced id w (turn_connected settings now id w) 1
unfolding turn_connected
turn_connected-Balanced settings now id w =
    elim (Bool-cases (any (is_absence id) w.pending_offline)) [
      | inl waits ↦ rw waits (omega arith, omega arith)
      | inr e ↦ elim (Option-cases (state_of w.rows id).started) [
        | inl up ↦
            let rest : is_down id w ≡ false = rw up refl in
            rw (e, up) (rw rest (omega arith, omega arith))
        | inr (start, down) ↦
            let ends = clear-is_down id now (forget id w) in
            rw (e, down) (rw ends (few _, omega arith))
      ]
    ]

turn_absent-Balanced :
    (settings : Settings) (now : ℕ) (again : Bool) (id : ℕ) (w : Watch)
    → is_down id w ≡ false
    → Balanced id w (turn_absent settings now again id w) 0
unfolding turn_absent
turn_absent-Balanced settings now again id w up =
    elim (Option-cases (find_first (is_absence id) w.first_absent)) [
      | inl e ↦ rw (e, turn_absent) (omega arith, omega arith)
      | inr (a, e) ↦
          elim (Bool-cases
            (ltb now (a.since + settings.offline_grace_minutes * (60 * second)) || again)) [
              | inl waits ↦ rw (e, turn_absent, waits) (omega arith, omega arith)
              | inr over ↦
                  let starts = begin-is_down id (unix a.since) now w in
                  rw (e, turn_absent, over) (rw (starts, up) (omega arith, omega arith))
            ]
    ]

-- A turn of the server `s`, which is seen when it is connected, or when no notice is due to it.
abbrev pub is_seen : Bool → Server → Bool
is_seen connected s = connected || not s.is_eligible

turn-Balanced :
    (settings : Settings) (now : ℕ) (connected again : Bool) (w : Watch) (s : Server)
    → Balanced s.id w (turn settings now connected again w s) (num (is_seen connected s))
unfolding turn
turn-Balanced settings now connected again w s = elim (Bool-cases s.is_eligible) [
  | inr out ↦
      let ends = clear-is_down s.id now (forget s.id w) in
      let le = num_le (is_down s.id w) in
      elim (Bool-cases connected) [
        | inl c ↦ rw (out, c) (rw ends (omega arith, omega (arith, le)))
        | inr c ↦ rw (out, c) (rw ends (omega arith, omega (arith, le)))
      ]
  | inl e ↦ elim (Bool-cases connected) [
    | inl c ↦ rw (e, c) (turn_connected-Balanced settings now s.id w)
    | inr c ↦ elim (Bool-cases (not (configured settings) || not settings.online_enabled)) [
      | inl off ↦ rw (e, c, off) (omega arith, omega arith)
      | inr f ↦ elim (Bool-cases (is_down s.id w)) [
        | inl down ↦ rw (e, c, f, down) (rw down (omega arith, omega arith))
        | inr up ↦
            let t = turn_absent-Balanced settings now again s.id w up in
            let b = rw up at t in rw (e, c, f, up) b
      ]
    ]
  ]
]

-- What a sweep finds of one server.
pub record Look : Type 0 where
  pub settings : Settings
  pub now : ℕ
  pub connected : Bool
  pub again : Bool
  pub is_eligible : Bool

abbrev pub server_at : ℕ → Look → Server
server_at id l = record { id = id; is_eligible = l.is_eligible }

abbrev pub turn_at : ℕ → Look → Watch → Turn
turn_at id l w = turn l.settings l.now l.connected l.again w (server_at id l)

abbrev pub watch_after : ℕ → List Look → Watch → Watch
watch_after id [] w = w
watch_after id (l ∷ looks) w = watch_after id looks (turn_at id l w).watch

abbrev pub told_gone : ℕ → List Look → Watch → ℕ
told_gone id [] w = 0
told_gone id (l ∷ looks) w =
    num (is_some (turn_at id l w).gone) + told_gone id looks (turn_at id l w).watch

abbrev pub told_back : ℕ → List Look → Watch → ℕ
told_back id [] w = 0
told_back id (l ∷ looks) w =
    num (is_some (turn_at id l w).back) + told_back id looks (turn_at id l w).watch

abbrev pub times_seen : ℕ → List Look → ℕ
times_seen id [] = 0
times_seen id (l ∷ looks) = num (is_seen l.connected (server_at id l)) + times_seen id looks

-- At any turns of a server, whatever the settings and the connections are: no more ends of outages are
-- told than outages, and no more outages than turns at which the server was seen, but for an outage that
-- had begun before, or that lasts.
pub outages_bounded :
    (id : ℕ) (looks : List Look) (w : Watch)
    → (told_back id looks w + num (is_down id (watch_after id looks w))
        ≤ told_gone id looks w + num (is_down id w))
      × (told_gone id looks w + num (is_down id w)
          ≤ times_seen id looks + num (is_down id (watch_after id looks w)))
outages_bounded id [] w = (omega arith, omega arith)
outages_bounded id (l ∷ looks) w =
    let (ends, begins) = turn-Balanced l.settings l.now l.connected l.again w (server_at id l) in
    let (later_ends, later_begins) = outages_bounded id looks (turn_at id l w).watch in
    (omega (arith, ends, later_ends), omega (arith, begins, later_begins))

turn_connected-gone :
    (settings : Settings) (now id : ℕ) (w : Watch) → (turn_connected settings now id w).gone ≡ none
unfolding turn_connected
turn_connected-gone settings now id w = elim (Bool-cases (any (is_absence id) w.pending_offline)) [
  | inl waits ↦ rw waits refl
  | inr e ↦ elim (Option-cases (state_of w.rows id).started) [
    | inl up ↦ rw (e, up) refl
    | inr (start, down) ↦ rw (e, down) refl
  ]
]

-- What an outage that is told of rests on.
abbrev pub Due : Settings → ℕ → ℕ → Watch → Entry → Type 0
Due settings now id w e =
    (a : Absence) × (find_first (is_absence id) w.first_absent ≡ some a)
    × (a.since + settings.offline_grace_minutes * 60000000000 ≤ now)
    × (e.started_at ≡ unix a.since)

turn_absent-gone :
    (settings : Settings) (now : ℕ) (again : Bool) (id : ℕ) (w : Watch) (e : Entry)
    → (turn_absent settings now again id w).gone ≡ some e
    → (again ≡ false) × Due settings now id w e
unfolding turn_absent
turn_absent-gone settings now again id w e told =
    elim (Option-cases (find_first (is_absence id) w.first_absent)) [
      | inl absent ↦ let f = rw (absent, turn_absent) at told in absurd (ground arith)
      | inr (a, found) ↦
          elim (Bool-cases
            (ltb now (a.since + settings.offline_grace_minutes * (60 * second)) || again)) [
              | inl waits ↦ let f = rw (found, turn_absent, waits) at told in absurd (ground arith)
              | inr over ↦
                  let f = rw (found, turn_absent, over) at told in
                  let started : unix a.since ≡ e.started_at = cc in
                  (ground arith, (a, found, ground arith, sym started))
            ]
    ]

-- When a turn tells that a server is gone, the server is not connected, its outage had not begun yet, and
-- its absence has lasted for the settings' minutes of grace from the time that was noted, which the
-- notice names.
pub turn-gone :
    (settings : Settings) (now : ℕ) (connected again : Bool) (w : Watch) (s : Server) (e : Entry)
    → (turn settings now connected again w s).gone ≡ some e
    → (connected ≡ false) × (again ≡ false) × (is_down s.id w ≡ false) × Due settings now s.id w e
unfolding turn
turn-gone settings now connected again w s e told = elim (Bool-cases s.is_eligible) [
  | inr out ↦ let f = rw out at told in absurd (ground arith)
  | inl able ↦ elim (Bool-cases connected) [
    | inl c ↦
        let f = rw (able, c) at told in
        let never = turn_connected-gone settings now s.id w in absurd (ground arith)
    | inr c ↦ elim (Bool-cases (not (configured settings) || not settings.online_enabled)) [
      | inl off ↦ let f = rw (able, c, off) at told in absurd (ground arith)
      | inr on ↦ elim (Bool-cases (is_down s.id w)) [
        | inl down ↦ let f = rw (able, c, on, down) at told in absurd (ground arith)
        | inr up ↦
            let f = rw (able, c, on, up) at told in
            let (apart, due) = turn_absent-gone settings now again s.id w e f in (c, apart, up, due)
      ]
    ]
  ]
]
