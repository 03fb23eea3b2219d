-- ===== src/Operation/History.antt =====
-- panel/internal/operation/operation.go: what any history of records, sendings and receipts keeps.
use vps_panel.Prelude.{
  ℕ, ◌≡◌, ◌<◌, ◌⊎◌, leb, Bool, true, false, ◌&&◌, ◌||◌, not, List, [], ◌∷◌, some, find_first, All,
  arith, ◌==◌, refl, ltb, if◌then◌else◌, Bool-cases, inl, inr,
}
use vps_panel.Prelude.Text.{Text}
use vps_panel.Prelude.Tables.{
  update_where, All-rows, All-append, All-update_where-turn, find_first-append,
  find_first-update_where-skip,
}
use vps_panel.Operation.{
  Db, Operation, Status, applied, failed, pending, sent, superseded, apply, fail, is_awaited,
  is_failed, is_open, is_outdated, is_success, is_unapplied, is_unsent, mark_sent, record_operation,
  record_receipt, send, supersede,
}

-- One transaction on the table.
pub data Event : Type 0 where
  recorded : (server : ℕ) (kind : Text) (resource : ℕ) (action : Text) (version now : ℕ) → Event
  sent_to : (server version now : ℕ) → Event
  received : (server version : ℕ) (status message : Text) (now : ℕ) → Event

abbrev pub step : Db → Event → Db
step db (recorded server kind resource action version now) =
    record_operation db server kind resource action version now
step db (sent_to server version now) = mark_sent db server version now
step db (received server version status message now) =
    record_receipt db server version status message now

abbrev pub run : Db → List Event → Db
run db [] = db
run db (e ∷ es) = run (step db e) es

abbrev pub is_settled : Status → Bool
is_settled s = not (is_open s || is_failed s)

abbrev pub has_id : ℕ → Operation → Bool
has_id id o = o.id == id

settled_step :
    (db : Db) (e : Event) (id : ℕ) (o : Operation)
    → find_first (has_id id) db.operations ≡ some o
    → is_settled o.status ≡ true
    → find_first (has_id id) (step db e).operations ≡ some o
unfolding record_operation mark_sent record_receipt
settled_step db (recorded server kind resource action version now) id o found settled =
    find_first-append (has_id id)
      (update_where (is_outdated server version) (supersede now) db.operations) _
      (find_first-update_where-skip (has_id id) (is_outdated server version) (supersede now)
        (λ x. refl) db.operations found (ground arith))
settled_step db (sent_to server version now) id o found settled =
    find_first-update_where-skip (has_id id) (is_unsent server version) (send now) (λ x. refl)
      db.operations found (ground arith)
settled_step db (received server version status message now) id o found settled =
    let applied =
      find_first-update_where-skip (has_id id) (is_unapplied server version) (apply now) (λ x. refl)
        db.operations found (ground arith) in
    let failed =
      find_first-update_where-skip (has_id id) (is_awaited server version) (fail message now)
        (λ x. refl) db.operations found (ground arith) in
    elim (Bool-cases (is_success status)) [ inl e ↦ rw e applied | inr e ↦ rw e failed ]

-- An operation that is applied or superseded is never changed again, whatever follows.
pub find_first-run-settled :
    (db : Db) (es : List Event) (id : ℕ) (o : Operation)
    → find_first (has_id id) db.operations ≡ some o
    → is_settled o.status ≡ true
    → find_first (has_id id) (run db es).operations ≡ some o
find_first-run-settled db [] id o found settled = found
find_first-run-settled db (e ∷ es) id o found settled =
    find_first-run-settled (step db e) es id o (settled_step db e id o found settled) settled

-- An open operation is of its server's newest version or a later one.
abbrev pub IsNewest : (ℕ → ℕ) → Operation → Type 0
IsNewest newest o = (is_open o.status && ltb o.version (newest o.server_id)) ≡ false

abbrev pub raised : (ℕ → ℕ) → ℕ → ℕ → ℕ → ℕ
raised newest server version s = if s == server then version else newest s

-- Where the open operations are of their server's newest version or a later one, they still are after
-- an operation is recorded, with its version as the newest of its server.
pub record_operation-IsNewest :
    (db : Db) (newest : ℕ → ℕ) (server : ℕ) (kind : Text) (resource : ℕ) (action : Text)
    (version now : ℕ)
    → All (IsNewest newest) db.operations
    → All
        (IsNewest (raised newest server version))
        (record_operation db server kind resource action version now).operations
unfolding record_operation
record_operation-IsNewest db newest server kind resource action version now h =
    All-append (IsNewest (raised newest server version)) _ _
      (All-update_where-turn (IsNewest newest) (IsNewest (raised newest server version))
        (is_outdated server version) (supersede now) (λ x before hit. refl)
        (λ x before miss. ground arith) db.operations h)
      (ground arith, tt)

-- Nothing of the server up to the version is left to do: it was applied or superseded.
abbrev pub IsDone : ℕ → ℕ → Operation → Type 0
IsDone server version o =
    (o.server_id == server ≡ false)
    ⊎ ((version < o.version) ⊎ ((o.status ≡ applied) ⊎ (o.status ≡ superseded)))

status_cases : (s : Status) → is_open s || is_failed s ≡ false → (s ≡ applied) ⊎ (s ≡ superseded)
status_cases pending h = cc
status_cases sent h = cc
status_cases failed h = cc
status_cases applied h = inl refl
status_cases superseded h = inr refl

is_unapplied-IsDone :
    (server version : ℕ) (o : Operation)
    → is_unapplied server version o ≡ false
    → IsDone server version o
is_unapplied-IsDone server version o h = elim (Bool-cases (o.server_id == server)) [
  | inr other ↦ inl other
  | inl here ↦ elim (Bool-cases (leb o.version version)) [
    | inr later ↦ inr (inl (ground arith))
    | inl up_to ↦ inr (inr (status_cases o.status (let f = rw (here, up_to) at h in f)))
  ]
]

-- After a receipt of success for a version, each operation of the server up to that version is applied
-- or superseded.
pub record_receipt-IsDone :
    (db : Db) (server version : ℕ) (status message : Text) (now : ℕ)
    → is_success status ≡ true
    → All (IsDone server version) (record_receipt db server version status message now).operations
unfolding record_receipt
record_receipt-IsDone db server version status message now success = rw success (
    All-update_where-turn (λ _. Unit {0}) (IsDone server version) (is_unapplied server version)
      (apply now) (λ x _ hit. inr (inr (inl refl)))
      (λ x _ miss. is_unapplied-IsDone server version x miss) db.operations
      (All-rows (λ _. Unit {0}) (λ _. tt) db.operations))
