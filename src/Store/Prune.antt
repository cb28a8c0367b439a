-- ===== src/Store/Prune.antt =====
-- internal/store/store.go: retention and the size cap.
pub mod Kept
pub mod Left
pub mod Dropping
pub mod Cap
use cluster_recorder.Prelude.{
  ℕ, zero, suc, ◌+◌, ◌-◌, ◌*◌, ◌≤◌, Bool, true, false, ◌&&◌, ◌||◌, not, List, [], ◌∷◌, Option, none,
  some, String, leb, ltb, select, map, take, length, is_some, ◌==◌, if◌then◌else◌, any, str_eq,
}
use cluster_recorder.Prelude.Order.{nat_order}
use cluster_recorder.Prelude.Sorting.{sort_by}
use cluster_recorder.Sample.{Time}
use cluster_recorder.Store.Tables.{
  Tables, Event, PodTransition, ChangeRow, SnapshotRow, IncidentRow, ms,
}
use cluster_recorder.Store.Db.{Action, exec, statement, query, pure, raise, over_cap, ◌>>=◌, ◌>>◌}
use cluster_recorder.Store.Snapshots.{is_in}

pub record Retention : Type 0 where
  pub events : ℕ
  pub changes : ℕ
  pub snapshots : ℕ

-- DELETE FROM events WHERE last_ts < ?
unfoldable pub prune_events : ℕ → Tables → Tables
prune_events cut t = record t { events = select (λ (r : Event). not (ltb r.last cut)) t.events }

-- DELETE FROM pod_transitions WHERE ts < ?
unfoldable pub prune_transitions : ℕ → Tables → Tables
prune_transitions cut t = record t {
  pod_transitions = select (λ (r : PodTransition). not (ltb r.time cut)) t.pod_transitions;
}

-- DELETE FROM changes WHERE ts < ?
unfoldable pub prune_changes : ℕ → Tables → Tables
prune_changes cut t = record t {
  changes = select (λ (r : ChangeRow). not (ltb r.ts cut)) t.changes;
}

-- DELETE FROM snapshots WHERE ts < ? AND baseline = 0
unfoldable pub prune_snapshots : ℕ → Tables → Tables
prune_snapshots cut t = record t {
  snapshots = select (λ (r : SnapshotRow). not (ltb r.ts cut && not r.baseline)) t.snapshots;
}

unfoldable pub closed_before : ℕ → Option ℕ → Bool
closed_before cut none = false
closed_before cut (some c) = ltb c cut

-- DELETE FROM incidents WHERE closed_ts IS NOT NULL AND closed_ts < ?
unfoldable pub prune_incidents : ℕ → Tables → Tables
unfolding closed_before
prune_incidents cut t = record t {
  incidents = select (λ (r : IncidentRow). not (closed_before cut r.closed_ts)) t.incidents;
}

-- `PRAGMA incremental_vacuum` and `PRAGMA wal_checkpoint(TRUNCATE)` change no row.
abbrev pub pragma : Action (Unit {0})
pragma = exec (λ t. t)

-- Prune
unfoldable pub prune : Time → Retention → Action (Unit {0})
prune now r = do
  exec (prune_events (ms (now - r.events)))
  exec (prune_transitions (ms (now - r.events)))
  exec (prune_changes (ms (now - r.changes)))
  exec (prune_snapshots (ms (now - r.snapshots)))
  exec (prune_incidents (ms (now - r.changes)))
  pragma
  pragma

-- What SQLite says of the size of its file.
pub record Pages : Type 0 where
  pub page_count : Tables → ℕ
  pub freelist_count : Tables → ℕ
  pub page_size : Tables → ℕ

module _ (p : Pages) where
  abbrev pub used_bytes : Tables → ℕ
  used_bytes t = (p.page_count t - p.freelist_count t) * p.page_size t

  -- SizeBytes
  unfoldable pub size_bytes : Action ℕ
  size_bytes = do
    pages ← query p.page_count
    free ← query p.freelist_count
    size ← query p.page_size
    pure ((pages - free) * size)

-- The ids of the oldest 100 snapshots that are no baselines.
unfoldable pub oldest_snapshots : List SnapshotRow → List ℕ
oldest_snapshots rs =
    map (λ (r : SnapshotRow). r.id)
      (take 100
        (sort_by (λ (r : SnapshotRow). r.ts) (select (λ (r : SnapshotRow). not r.baseline) rs)))

unfoldable pub drop_snapshots : Tables → Tables
unfolding oldest_snapshots is_in
drop_snapshots t = record t {
  snapshots =
      select
        (λ (r : SnapshotRow). not (not r.baseline && is_in (oldest_snapshots t.snapshots) r.id))
        t.snapshots;
}

-- The uids of the oldest 100 events.
unfoldable pub oldest_events : List Event → List String
oldest_events es = map (λ (e : Event). e.uid) (take 100 (sort_by (λ (e : Event). e.last) es))

unfoldable pub drop_events : Tables → Tables
unfolding oldest_events
drop_events t = record t {
  events =
      select (λ (e : Event). not (any (λ (u : String). str_eq e.uid u) (oldest_events t.events)))
        t.events;
}

-- RowsAffected of the two.
abbrev pub dropped_snapshots : Tables → ℕ
dropped_snapshots t = length t.snapshots - length (drop_snapshots t).snapshots

abbrev pub dropped_events : Tables → ℕ
dropped_events t = length t.events - length (drop_events t).events

-- The loop over `dropOrder`: whether a statement dropped something; the first that does ends it.
unfoldable pub drop_oldest : Action Bool
drop_oldest = do
  n ← statement dropped_snapshots drop_snapshots
  if ltb 0 n then pure true else do m ← statement dropped_events drop_events; pure (ltb 0 m)

module _ (p : Pages) (max_bytes : ℕ) where
  -- EnforceSizeCap, with at most `fuel` rounds of its loop; `none` means that they were not enough.
  unfoldable pub enforce_size_cap : ℕ → Action (Option (Unit {0}))
  unfolding size_bytes drop_oldest
  enforce_size_cap zero = pure none
  enforce_size_cap (suc fuel) = do
    used ← size_bytes p
    if leb used max_bytes then pure (some tt) else do
      dropped ← drop_oldest
      if not dropped then raise (over_cap used max_bytes) else do pragma; enforce_size_cap fuel
