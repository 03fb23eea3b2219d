-- ===== src/ServerTraffic/Usage.antt =====
-- panel/internal/server/traffic.go: the traffic that is shown, and its correction by hand.
use vps_panel.Prelude.{
  ℕ, ◌+◌, ◌-◌, ◌≤◌, ◌≡◌, false, arith, Option, none, some, ok, find_first, min, ==_refl,
}
use vps_panel.Prelude.Int.{ℤ, pos, negsuc, pos_part, neg_part, sub_ℕ, ltb_ℤ, max_int64, IsInt64}
use vps_panel.Prelude.Tables.{upsert, find_first-upsert}
use vps_panel.ServerTraffic.{
  CountMode, single, bidirectional, other, Metrics, Server, Db, measured_traffic_used_bytes,
  measured_of, adjusted, traffic_used_bytes, update_traffic_adjustment, is_active, has_server,
  joined, new_metrics,
}

measured-le :
    (mode : CountMode) (rx tx : ℤ)
    → IsInt64 rx
    → IsInt64 tx
    → measured_traffic_used_bytes mode rx tx ≤ max_int64
unfolding measured_traffic_used_bytes
measured-le single rx tx h f = ground arith
measured-le bidirectional rx tx h f = ground arith
measured-le other rx tx h f = ground arith

-- a + b, held to the range from 0 to math.MaxInt64
abbrev pub clamped_sum : ℕ → ℤ → ℕ
clamped_sum a b = min (a + pos_part b - neg_part b) max_int64

-- The used traffic is the measured traffic plus the correction, held to the range of an int64 that
-- is not negative: no sum wraps.
pub adjusted-clamped :
    (measured : ℕ) (adjustment : ℤ)
    → measured ≤ max_int64
    → IsInt64 adjustment
    → adjusted measured adjustment ≡ pos (clamped_sum measured adjustment)
unfolding adjusted
adjusted-clamped measured (pos n) h f = ground arith
adjusted-clamped measured (negsuc n) h f = ground arith

-- Counters that a row can hold.
abbrev pub FitsInt64 : Option Metrics → Type 0
FitsInt64 none = Unit
FitsInt64 (some m) = (m.cycle_rx ≤ max_int64) × (m.cycle_tx ≤ max_int64)

measured_of-le :
    (mode : CountMode) (o : Option Metrics) → FitsInt64 o → measured_of mode o ≤ max_int64
unfolding measured_of
measured_of-le mode none h = omega arith
measured_of-le mode (some m) h =
    measured-le mode (pos m.cycle_rx) (pos m.cycle_tx) (omega arith) (omega arith)

-- The used traffic of a server with int64 metrics is its measured traffic plus its correction,
-- held to the range of an int64 that is not negative.
pub traffic_used_bytes-clamped :
    (mode : CountMode) (m : Metrics)
    → FitsInt64 (some m)
    → IsInt64 m.adjustment
    → traffic_used_bytes mode (some m) ≡ pos (clamped_sum (measured_of mode (some m)) m.adjustment)
unfolding traffic_used_bytes
traffic_used_bytes-clamped mode m h f =
    adjusted-clamped (measured_of mode (some m)) m.adjustment (measured_of-le mode (some m) h) f

corrected :
    (measured target : ℕ)
    → measured ≤ max_int64
    → target ≤ max_int64
    → adjusted measured (sub_ℕ target measured) ≡ pos target
unfolding adjusted
corrected measured target h f = ground arith

abbrev set_adjustment : ℤ → Metrics → Metrics
set_adjustment a m = record m { adjustment = a }

used_after :
    (mode : CountMode) (o : Option Metrics) (id target now : ℕ)
    → FitsInt64 o
    → target ≤ max_int64
    → let a = sub_ℕ target (measured_traffic_used_bytes mode (joined o).0 (joined o).1) in
      traffic_used_bytes mode
        (elim o [ none ↦ some (new_metrics id a now) | some m ↦ some (set_adjustment a m) ])
      ≡ pos target
unfolding traffic_used_bytes
used_after mode none id target now h f =
    corrected (measured_traffic_used_bytes mode (pos 0) (pos 0)) target
      (measured-le mode (pos 0) (pos 0) (omega arith) (omega arith)) f
used_after mode (some m) id target now h f =
    corrected (measured_traffic_used_bytes mode (pos m.cycle_rx) (pos m.cycle_tx)) target
      (measured-le mode (pos m.cycle_rx) (pos m.cycle_tx) (omega arith) (omega arith)) f

-- After a successful correction to a target of at least 0 that is an int64, the server has used
-- exactly the target, whether it had a row of metrics or not.
pub traffic_used_bytes-update_traffic_adjustment :
    (db db' : Db) (id target now : ℕ) (s : Server)
    → find_first (is_active id) db.servers ≡ some s
    → FitsInt64 (find_first (has_server id) db.metrics)
    → target ≤ max_int64
    → update_traffic_adjustment db id (pos target) now ≡ ok db'
    → traffic_used_bytes s.count_mode (find_first (has_server id) db'.metrics) ≡ pos target
unfolding update_traffic_adjustment
traffic_used_bytes-update_traffic_adjustment db db' id target now s found h f e =
    let o = find_first (has_server id) db.metrics in
    let a = sub_ℕ target (measured_traffic_used_bytes s.count_mode (joined o).0 (joined o).1) in
    let not_negative : ltb_ℤ (pos target) (pos 0) ≡ false = ground arith in
    let stored : ok (record db {
      metrics = upsert (has_server id) (set_adjustment a) (new_metrics id a now) db.metrics;
    })
        ≡ ok db' =
      rw (found, update_traffic_adjustment, not_negative) at e in
    let rows : db'.metrics
        ≡ upsert (has_server id) (set_adjustment a) (new_metrics id a now) db.metrics =
      ground arith in
    rw
      (
        rows,
        find_first-upsert (has_server id) (set_adjustment a) (new_metrics id a now) (λ x p. p)
            (==_refl id) db.metrics,
      )
      (used_after s.count_mode o id target now h f)
