-- ===== src/Operation.antt =====
-- panel/internal/operation/operation.go: the configuration operations of servers, from their record to
-- the receipt of the agent. The row identifiers are those of SQLite, one after the other.
pub mod History
mod Tests
use vps_panel.Prelude.{
  ℕ, suc, ◌+◌, Bool, true, false, ◌&&◌, ◌||◌, Option, none, some, List, [], ◌∷◌, ◌++◌, ltb, leb,
  ◌==◌, if◌then◌else◌,
}
use vps_panel.Prelude.Text.{Text, codes, text_eq}
use vps_panel.Prelude.Tables.{update_where, count_where}

pub data Status : Type 0 where
  pending sent applied failed superseded : Status

pub record Operation : Type 0 where
  pub id : ℕ
  pub server_id : ℕ
  pub resource_type : Text
  pub resource_id : ℕ
  pub action : Text
  pub version : ℕ
  pub status : Status
  pub error : Text
  pub created_at : ℕ
  pub updated_at : ℕ
  pub applied_at : Option ℕ

pub record Db : Type 0 where
  pub operations : List Operation
  pub next_id : ℕ

abbrev pub is_pending : Status → Bool
is_pending pending = true
is_pending _ = false

-- status IN ('pending', 'sent')
abbrev pub is_open : Status → Bool
is_open pending = true
is_open sent = true
is_open _ = false

abbrev pub is_failed : Status → Bool
is_failed failed = true
is_failed _ = false

abbrev pub is_outdated : ℕ → ℕ → Operation → Bool
is_outdated server version o = o.server_id == server && ltb o.version version && is_open o.status

abbrev pub supersede : ℕ → Operation → Operation
supersede now o = record o { status = superseded; error = []; updated_at = now }

-- RecordTx: what is open for an older version is superseded, and the new operation is pending.
unfoldable pub record_operation : Db → ℕ → Text → ℕ → Text → ℕ → ℕ → Db
record_operation db server kind resource action version now =
    let new : Operation = record {
      id = db.next_id;
      server_id = server;
      resource_type = kind;
      resource_id = resource;
      action = action;
      version = version;
      status = pending;
      error = [];
      created_at = now;
      updated_at = now;
      applied_at = none;
    } in
    record {
      operations =
          update_where (is_outdated server version) (supersede now) db.operations ++ (new ∷ []);
      next_id = suc db.next_id;
    }

abbrev pub is_unsent : ℕ → ℕ → Operation → Bool
is_unsent server version o = o.server_id == server && leb o.version version && is_pending o.status

abbrev pub send : ℕ → Operation → Operation
send now o = record o { status = sent; updated_at = now }

-- MarkSentTx
unfoldable pub mark_sent : Db → ℕ → ℕ → ℕ → Db
mark_sent db server version now = record db {
  operations = update_where (is_unsent server version) (send now) db.operations;
}

abbrev pub is_unapplied : ℕ → ℕ → Operation → Bool
is_unapplied server version o =
    o.server_id == server && leb o.version version && (is_open o.status || is_failed o.status)

abbrev pub apply : ℕ → Operation → Operation
apply now o = record o { status = applied; error = []; updated_at = now; applied_at = some now }

abbrev pub is_awaited : ℕ → ℕ → Operation → Bool
is_awaited server version o = o.server_id == server && o.version == version && is_open o.status

abbrev pub fail : Text → ℕ → Operation → Operation
fail message now o = record o {
  status = failed;
  error = message;
  updated_at = now;
  applied_at = none;
}

abbrev pub is_success : Text → Bool
is_success status = text_eq status (codes "success")

-- RecordReceiptTx
unfoldable pub record_receipt : Db → ℕ → ℕ → Text → Text → ℕ → Db
record_receipt db server version status message now = record db {
  operations =
      if is_success status
      then update_where (is_unapplied server version) (apply now) db.operations
      else update_where (is_awaited server version) (fail message now) db.operations;
}

-- Counts: the operations that are open, and those that failed.
unfoldable pub counts : Db → ℕ × ℕ
counts db = (
  count_where (λ (o : Operation). is_open o.status) db.operations,
  count_where (λ (o : Operation). is_failed o.status) db.operations,
)
