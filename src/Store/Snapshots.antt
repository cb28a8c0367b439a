-- ===== src/Store/Snapshots.antt =====
-- internal/store/snapshots.go: snapshots and baselines.
pub mod Latest
pub mod Baselines
pub mod Marked
pub mod Flags
pub mod Stepping
pub mod Nodes
use cluster_recorder.Prelude.{
  ℕ, ◌+◌, String, Bool, true, false, ◌&&◌, ◌||◌, not, List, [], ◌∷◌, ◌++◌, Option, none, some, leb,
  str_eq, select, take, map, map_option, head?, any, if◌then◌else◌, ◌==◌,
}
use cluster_recorder.Prelude.Order.{pair_order, descending}
use cluster_recorder.Prelude.Sorting.{sort_by}
use cluster_recorder.Sample.{Time, Snapshot}
use cluster_recorder.Sample.Stored.{encode_fields, decode_fields}
use cluster_recorder.Store.Tables.{SnapshotRow, Tables, ms, from_ms}
use cluster_recorder.Store.Db.{Action, exec, statement, query, pure, ◌>>=◌, ◌>>◌}

unfoldable pub row_of : ℕ → Snapshot → SnapshotRow
row_of id s = record {
  id = id;
  node = s.node;
  source = s.source;
  ts = ms s.time;
  driver = s.driver;
  driver_confidence = s.driver_confidence;
  driver_reason = s.driver_reason;
  fields = encode_fields s.fields;
  baseline = s.baseline;
}

unfoldable pub insert_snapshot : Snapshot → Tables → Tables
unfolding row_of
insert_snapshot s t = record t {
  snapshots = t.snapshots ++ row_of t.next_snapshot s ∷ [];
  next_snapshot = t.next_snapshot + 1;
}

-- PutSnapshot: the snapshot comes back with its id.
unfoldable pub put_snapshot : Snapshot → Action Snapshot
unfolding insert_snapshot
put_snapshot s = do
  id ← statement (λ t. t.next_snapshot) (insert_snapshot s)
  pure (record s { id = id })

-- scanSnapshot
unfoldable pub scan_snapshot : SnapshotRow → Snapshot
scan_snapshot r = record {
  id = r.id;
  node = r.node;
  source = r.source;
  time = from_ms r.ts;
  driver = r.driver;
  driver_confidence = r.driver_confidence;
  driver_reason = r.driver_reason;
  fields = decode_fields r.fields;
  baseline = r.baseline;
}

abbrev pub stamp : SnapshotRow → ℕ × ℕ
stamp r = (r.ts, r.id)

-- ORDER BY ts DESC, id DESC
unfoldable pub newest_first : List SnapshotRow → List SnapshotRow
newest_first = sort_by ⦃o = descending pair_order⦄ stamp

-- WHERE node = ? AND source = ?
abbrev pub is_of : String → String → SnapshotRow → Bool
is_of node source r = str_eq r.node node && str_eq r.source source

unfoldable pub latest_row : (SnapshotRow → Bool) → Tables → Option SnapshotRow
latest_row p t = head? (newest_first (select p t.snapshots))

-- LatestSnapshot
unfoldable pub latest_snapshot : String → String → Action (Option Snapshot)
unfolding latest_row
latest_snapshot node source =
    query (λ t. map_option scan_snapshot (latest_row (is_of node source) t))

-- AND baseline = 1
abbrev pub is_baseline_of : String → String → SnapshotRow → Bool
is_baseline_of node source r = is_of node source r && r.baseline

-- Baseline
unfoldable pub baseline : String → String → Action (Option Snapshot)
unfolding latest_row
baseline node source =
    query (λ t. map_option scan_snapshot (latest_row (is_baseline_of node source) t))

unfoldable pub mark_row : Option SnapshotRow → SnapshotRow → SnapshotRow
mark_row none r = r
mark_row (some l) r = if r.id == l.id then record r { baseline = true } else r

-- UPDATE snapshots SET baseline = 1 WHERE id = (the latest)
unfoldable pub mark_latest : String → String → Tables → Tables
unfolding mark_row latest_row
mark_latest node source t = record t {
  snapshots = map (mark_row (latest_row (is_of node source) t)) t.snapshots;
}

-- id IN (...)
unfoldable pub is_in : List ℕ → ℕ → Bool
is_in [] i = false
is_in (j ∷ js) i = i == j || is_in js i

-- The ids of the newest `keep` baselines.
unfoldable pub kept : String → String → ℕ → List SnapshotRow → List ℕ
unfolding newest_first
kept node source keep rs =
    map (λ (r : SnapshotRow). r.id)
      (take keep (newest_first (select (is_baseline_of node source) rs)))

unfoldable pub unmark_row : String → String → List ℕ → SnapshotRow → SnapshotRow
unfolding is_in
unmark_row node source ids r =
    if is_baseline_of node source r && not (is_in ids r.id)
    then record r { baseline = false }
    else r

-- UPDATE snapshots SET baseline = 0 WHERE ... AND id NOT IN (the newest `keep` baselines)
unfoldable pub trim_baselines : String → String → ℕ → Tables → Tables
unfolding kept unmark_row
trim_baselines node source keep t = record t {
  snapshots = map (unmark_row node source (kept node source keep t.snapshots)) t.snapshots;
}

-- MarkBaseline
unfoldable pub mark_baseline : String → String → ℕ → Action (Unit {0})
mark_baseline node source keep = do
  exec (mark_latest node source)
  exec (trim_baselines node source keep)

-- Snapshots
unfoldable pub snapshots : String → Time → Time → Action (List Snapshot)
snapshots node from to = query λ t. map scan_snapshot (
    sort_by stamp (
      select (λ (r : SnapshotRow). str_eq r.node node && leb (ms from) r.ts && leb r.ts (ms to))
        t.snapshots))
