-- ===== src/Store/Tables.antt =====
-- The schema, internal/store/migrations/001_init.sql, and the records of internal/store/records.go
-- and internal/store/snapshots.go. A row's time is in milliseconds; counted from Go's zero time
-- and not from 1970, which shifts every one of them by the same number. The rows of a table stand
-- in the order in which they were inserted.
pub mod Times
use cluster_recorder.Prelude.{ℕ, ◌*◌, ◌/◌, String, Option, List, [], Bool}
use cluster_recorder.Dict.{Dict}
use cluster_recorder.Sample.{Time, Field}
use cluster_recorder.Sample.Stored.{FieldDoc}
use cluster_recorder.Diff.{Severity}

-- ms
unfoldable pub ms : Time → ℕ
ms t = t / 1_000_000

-- fromMS
unfoldable pub from_ms : ℕ → Time
from_ms v = v * 1_000_000

-- In a row `first` and `last` are first_ts and last_ts.
pub record Event : Type 0 where
  pub uid : String
  pub namespace : String
  pub name : String
  pub type : String
  pub reason : String
  pub message : String
  pub kind : String
  pub obj_namespace : String
  pub obj_name : String
  pub node : String
  pub count : ℕ
  pub first : Time
  pub last : Time

abbrev pub transition_phase : String
transition_phase = "phase"

abbrev pub transition_restart : String
transition_restart = "restart"

abbrev pub transition_waiting : String
transition_waiting = "waiting"

-- In a row `time` is ts.
pub record PodTransition : Type 0 where
  pub id : ℕ
  pub time : Time
  pub namespace : String
  pub name : String
  pub node : String
  pub kind : String
  pub old : String
  pub new : String
  pub detail : String

-- In a row `since` is since_ts; the row's key is `PodState.Key`.
pub record PodState : Type 0 where
  pub namespace : String
  pub name : String
  pub node : String
  pub phase : String
  pub waiting_reason : String
  pub restarts : ℕ
  pub since : Time

pub record SnapshotRow : Type 0 where
  pub id : ℕ
  pub node : String
  pub source : String
  pub ts : ℕ
  pub driver : String
  pub driver_confidence : ℕ
  pub driver_reason : String
  pub fields : Dict FieldDoc
  pub baseline : Bool

pub record ChangeRow : Type 0 where
  pub id : ℕ
  pub ts : ℕ
  pub node : String
  pub source : String
  pub field : String
  pub old : FieldDoc
  pub new : FieldDoc
  pub severity : Severity

pub record IncidentRow : Type 0 where
  pub id : ℕ
  pub opened_ts : ℕ
  pub closed_ts : Option ℕ
  pub pods : List String

-- The `next_` fields are the counters of AUTOINCREMENT: the id that the next row gets.
pub record Tables : Type 0 where
  pub events : List Event
  pub pod_transitions : List PodTransition
  pub pods : List PodState
  pub snapshots : List SnapshotRow
  pub changes : List ChangeRow
  pub incidents : List IncidentRow
  pub next_transition : ℕ
  pub next_snapshot : ℕ
  pub next_change : ℕ
  pub next_incident : ℕ

-- The database that the migration creates.
abbrev pub empty : Tables
empty = record {
  events = [];
  pod_transitions = [];
  pods = [];
  snapshots = [];
  changes = [];
  incidents = [];
  next_transition = 1;
  next_snapshot = 1;
  next_change = 1;
  next_incident = 1;
}
