-- ===== src/Collector.antt =====
-- cmd/collector/main.go: the collector, in which the informers' handlers, the API, the evaluator and the
-- maintenance of the database run beside each other on one database.
pub mod Rows
pub mod Writes
pub mod Unclosed
use cluster_recorder.Prelude.{ℕ, suc, ◌*◌, ◌≤◌, String, Bool, Option, List}
use cluster_recorder.Config.{Config}
use cluster_recorder.Sample.{Time}
use cluster_recorder.Store.Tables.{Tables, empty}
use cluster_recorder.Store.Db.{Action}
use cluster_recorder.Store.Prune.{Pages, Retention, prune, enforce_size_cap}
use cluster_recorder.Store.Prune.Dropping.{rows}
use cluster_recorder.Informers.{ApiEvent, Pod, Node}
use cluster_recorder.Informers.Collector.{logged, on_event, on_pod, on_pod_delete, on_node}
use cluster_recorder.Incident.{tick}
use cluster_recorder.Api.Requests.{Server, Request, handle}

-- What the collector is set off by: an informer, a request, or one of the three tickers. The API's
-- server comes with the request, since its readiness and its hints change with time.
pub data Job : Type 0 where
  event_seen : (String → String → String) → ApiEvent → Job
  pod_seen : Option Pod → Pod → Time → Job
  pod_deleted : Pod → Time → Job
  node_seen : Node → Time → Job
  request : Server → Time → Request → Job
  evaluator_tick : Time → Job
  cap_tick : Job
  prune_tick : Time → Job

abbrev pub retention_of : Config → Retention
retention_of cfg = record {
  events = cfg.retention_events;
  changes = cfg.retention_changes;
  snapshots = cfg.retention_snapshots;
}

-- `int64(cfg.StorageMaxMB) * 1024 * 1024`
abbrev pub cap_bytes : Config → ℕ
cap_bytes cfg = cfg.storage_max_mb * 1024 * 1024

module _ (cfg : Config) (p : Pages) where
  -- The arm of the ticker in `Evaluator.Run`, internal/incident/incident.go.
  unfoldable pub evaluate : Time → Action (Unit {0})
  evaluate now = logged (tick cfg now)

  -- The arm of `capTick` in `maintenance`, with more rounds than there are rows to drop.
  unfoldable pub enforce_cap : Action (Unit {0})
  enforce_cap db = logged (enforce_size_cap p (cap_bytes cfg) (suc (rows db.tables))) db

  -- The arm of `pruneTick`.
  unfoldable pub prune_old : Time → Action (Unit {0})
  prune_old now = logged (prune now (retention_of cfg))

  -- An error is logged and dropped, wherever the job comes from.
  unfoldable pub run : Job → Action (Unit {0})
  unfolding evaluate enforce_cap prune_old
  run (event_seen node_of_pod ev) = on_event node_of_pod ev
  run (pod_seen old_pod new_pod now) = on_pod old_pod new_pod now
  run (pod_deleted pod now) = on_pod_delete pod now
  run (node_seen n now) = on_node n now
  run (request s now r) = logged (handle s now r)
  run (evaluator_tick now) = evaluate now
  run cap_tick = enforce_cap
  run (prune_tick now) = prune_old now

  -- The tables after an action, of whose statements the ones with a `true` fail.
  abbrev pub after : Action (Unit {0}) → List Bool → Tables → Tables
  after m fs t = (m (record { tables = t; faults = fs })).1.tables

  -- The time of the evaluator's last tick.
  abbrev pub clock : Time → Job → Time
  clock last (evaluator_tick now) = now
  clock last _ = last

  -- The tables that the collector can reach from an empty database, with the time of the evaluator's
  -- last tick: jobs in any order, with any failures, as long as the evaluator's clock does not run
  -- backwards.
  pub data Reachable : Time → Tables → Type 0 where
    created : Reachable 0 empty
    ran :
        {last : Time} {t : Tables}
        → Reachable last t
        → (j : Job) (fs : List Bool) → last ≤ clock last j
        → Reachable (clock last j) (after (run j) fs t)
