-- ===== src/Operation/Tests.antt =====
-- The theorems on configuration operations at a concrete table: of server 1, an operation for version 2
-- was applied, and one for version 3 is sent.
use vps_panel.Prelude.{ℕ, ◌≡◌, refl, true, none, some, List, [], ◌∷◌, All, find_first}
use vps_panel.Prelude.Text.{codes, text_eq}
use vps_panel.Operation.{Db, Operation, applied, is_success, record_receipt, sent}
use vps_panel.Operation.History.{
  IsDone, Event, find_first-run-settled, has_id, received, record_receipt-IsDone, recorded, run,
  sent_to,
}

abbrev old : Operation
old = record {
  id = 1;
  server_id = 1;
  resource_type = codes "proxy";
  resource_id = 5;
  action = codes "update";
  version = 2;
  status = applied;
  error = [];
  created_at = 100;
  updated_at = 110;
  applied_at = some 110;
}

abbrev current : Operation
current = record {
  id = 2;
  server_id = 1;
  resource_type = codes "relay";
  resource_id = 6;
  action = codes "create";
  version = 3;
  status = sent;
  error = [];
  created_at = 120;
  updated_at = 130;
  applied_at = none;
}

abbrev db : Db
db = record { operations = old ∷ current ∷ []; next_id = 3 }

abbrev newest : ℕ → ℕ
newest s = 3

abbrev events : List Event
events =
    recorded 1 (codes "proxy") 5 (codes "delete") 4 140
    ∷ sent_to 1 4 150
    ∷ received 1 4 (codes "success") [] 160
    ∷ []

found : find_first (has_id 1) db.operations ≡ some old
unfolding find_first
found = refl

success : is_success (codes "success") ≡ true
unfolding text_eq
success = refl

find_first-run-settled_example : find_first (has_id 1) (run db events).operations ≡ some old
find_first-run-settled_example = find_first-run-settled db events 1 old found refl

record_receipt-IsDone_example :
    All (IsDone 1 3) (record_receipt db 1 3 (codes "success") [] 160).operations
record_receipt-IsDone_example = record_receipt-IsDone db 1 3 (codes "success") [] 160 success
