-- ===== src/Notification/Online.antt =====
-- panel/internal/notification/watcher.go and service.go: servers that go offline and come back. Instants
-- are nanoseconds. The connections of the agents are the tests `connected` and `connected_again`, the
-- latter at the second question of a turn. A failure of the database is not modelled.
use vps_panel.Prelude.{
  ℕ, ◌+◌, ◌*◌, ◌/◌, Bool, true, false, ◌&&◌, ◌||◌, not, Option, none, some, List, [], ◌∷◌, ◌++◌,
  map, any, keep, length, ltb, ◌==◌, if◌then◌else◌, find_first,
}
use vps_panel.Prelude.Tables.{delete_where, update_where, upsert}
use vps_panel.Notification.{Entry, Settings, State, configured, fresh_state, is_of, state_of}

pub record Absence : Type 0 where
  pub server_id : ℕ
  pub since : ℕ

pub data Kind : Type 0 where
  offline recovery traffic : Kind

pub record Event : Type 0 where
  pub kind : Kind
  pub entries : List Entry

-- The service's memory, with the table of states: pending_offline maps a server to its entry's start.
pub record Watch : Type 0 where
  pub rows : List State
  pub first_absent : List Absence
  pub pending_offline : List Absence
  pub queue : List Event

pub record Server : Type 0 where
  pub id : ℕ
  pub is_eligible : Bool

abbrev pub second : ℕ
second = 1000000000

abbrev pub unix : ℕ → ℕ
unix instant = instant / second

abbrev pub is_absence : ℕ → Absence → Bool
is_absence id a = a.server_id == id

abbrev pub is_some : {A : Type 0} → Option A → Bool
is_some none = false
is_some (some a) = true

abbrev pub forget : ℕ → Watch → Watch
forget id w = record w { first_absent = delete_where (is_absence id) w.first_absent }

abbrev pub cleared : ℕ → State → State
cleared now s = record s { started = none; notified = none; updated_at = unix now }

-- UPDATE server_notification_state SET offline_started_at = NULL, offline_notified_at = NULL
unfoldable pub clear : ℕ → ℕ → Watch → Watch
clear id now w = record w { rows = update_where (is_of id) (cleared now) w.rows }

abbrev pub begun : ℕ → ℕ → State → State
begun start now s = record s { started = some start; notified = none; updated_at = unix now }

-- The insert with its ON CONFLICT that begins an absence.
unfoldable pub begin : ℕ → ℕ → ℕ → Watch → Watch
begin id start now w = record w {
  rows = upsert (is_of id) (begun start now) (begun start now (fresh_state id)) w.rows;
}

abbrev pub entry : ℕ → ℕ → Entry
entry id start = record { server_id = id; started_at = start; step = 0 }

-- What a turn leaves: the state, an offline entry, and a recovery entry.
pub record Turn : Type 0 where
  pub watch : Watch
  pub gone : Option Entry
  pub back : Option Entry

abbrev pub quiet : Watch → Turn
quiet w = record { watch = w; gone = none; back = none }

-- The server is connected.
unfoldable pub turn_connected : Settings → ℕ → ℕ → Watch → Turn
unfolding clear state_of
turn_connected settings now id w =
    if any (is_absence id) w.pending_offline
    then quiet (forget id w)
    else elim (state_of w.rows id).started [
      | none ↦ quiet (forget id w)
      | some start ↦ record {
        watch = clear id now (forget id w);
        gone = none;
        back =
            if is_some (state_of w.rows id).notified
              && configured settings
              && settings.online_enabled
              && settings.recovery_enabled
            then some (entry id start)
            else none;
      }
    ]

-- The server is not connected, and its absence is not begun yet.
unfoldable pub turn_absent : Settings → ℕ → Bool → ℕ → Watch → Turn
unfolding begin find_first
turn_absent settings now connected_again id w = elim (find_first (is_absence id) w.first_absent) [
  | none ↦
      quiet (record w {
        first_absent = w.first_absent ++ (record { server_id = id; since = now } ∷ []);
      })
  | some a ↦
      if ltb now (a.since + settings.offline_grace_minutes * (60 * second)) || connected_again
      then quiet w
      else record {
        watch = forget id (begin id (unix a.since) now w);
        gone = some (entry id (unix a.since));
        back = none;
      }
]

-- One server's turn in sweepOnline
unfoldable pub turn : Settings → ℕ → Bool → Bool → Watch → Server → Turn
unfolding clear turn_connected turn_absent
turn settings now connected connected_again w s =
    if not s.is_eligible
    then quiet (clear s.id now (forget s.id w))
    else if connected
    then turn_connected settings now s.id w
    else if not (configured settings) || not settings.online_enabled
    then quiet (forget s.id w)
    else if is_some (state_of w.rows s.id).started
    then quiet w
    else turn_absent settings now connected_again s.id w

abbrev pub is_offline : Kind → Bool
is_offline offline = true
is_offline _ = false

abbrev pub queue_size : ℕ
queue_size = 64

-- enqueue: a full queue drops the event.
unfoldable pub enqueue : Event → Watch → Watch
enqueue item w = elim item.entries [
  | [] ↦ w
  | first ∷ others ↦ if not (ltb (length w.queue) queue_size) then w else record w {
    queue = w.queue ++ (item ∷ []);
    pending_offline =
        if is_offline item.kind
        then map (λ (e : Entry). record { server_id = e.server_id; since = e.started_at })
            item.entries
          ++ w.pending_offline
        else w.pending_offline;
  }
]

abbrev pub and_entry : Option Entry → List Entry → List Entry
and_entry none entries = entries
and_entry (some e) entries = e ∷ entries

-- The turns of a sweep, with the entries of both kinds.
unfoldable pub turns :
    Settings → ℕ → (ℕ → Bool) → (ℕ → Bool) → Watch → List Server → Watch × (List Entry × List Entry)
unfolding turn
turns settings now connected connected_again w [] = (w, ([], []))
turns settings now connected connected_again w (s ∷ servers) =
    let first = turn settings now (connected s.id) (connected_again s.id) w s in
    let (last, (gone, back)) = turns settings now connected connected_again first.watch servers in
    (last, (and_entry first.gone gone, and_entry first.back back))

-- sweepOnline
unfoldable pub sweep_online : Settings → ℕ → (ℕ → Bool) → (ℕ → Bool) → Watch → List Server → Watch
unfolding turns enqueue keep
sweep_online settings now connected connected_again w servers =
    let (last, (gone, back)) = turns settings now connected connected_again w servers in
    let seen = λ (a : Absence). any (λ (s : Server). s.id == a.server_id) servers in
    let kept = record last { first_absent = keep seen last.first_absent } in
    enqueue (record { kind = recovery; entries = back })
      (enqueue (record { kind = offline; entries = gone }) kept)

-- The end of deliver for an event that was taken from the queue: `sent` are the entries that Telegram
-- took, and none if it failed.
abbrev pub confirm : ℕ → List Entry → List State → List State
confirm now [] rows = rows
confirm now (e ∷ sent) rows = confirm now sent (
    update_where
      (λ s.
        s.server_id == e.server_id
        && (elim s.started [ none ↦ false | some t ↦ t == e.started_at ]))
      (λ s. record s { notified = some (unix now); updated_at = unix now }) rows)

unfoldable pub deliver : ℕ → Event → Option (List Entry) → Watch → Watch
deliver now item sent w = if not (is_offline item.kind) then w else record w {
  rows = elim sent [ none ↦ w.rows | some entries ↦ confirm now entries w.rows ];
  pending_offline =
      delete_where (λ a. any (λ (e : Entry). e.server_id == a.server_id) item.entries)
        w.pending_offline;
}
