-- ===== src/Tests.antt =====
-- Concrete inputs for the theorems.
pub mod Samples
pub mod Stores
pub mod Incidents
pub mod Marking
pub mod Informing
pub mod Sampling
pub mod Posting
pub mod Outages
pub mod Settings
pub mod Requests
pub mod Starting
pub mod Running
pub mod Client
use cluster_recorder.Prelude.{ℕ, ◌*◌, String, Bool, true, false, Option, none, some, List, [], ◌∷◌}
use cluster_recorder.Config.{Config, defaults, second, hour}
use cluster_recorder.Sample.{Field, Snapshot, present, absent, unknown, source_api, source_agent}
use cluster_recorder.Sample.Encoding.{Value}
use cluster_recorder.Sample.Stored.{FieldDoc, encode}
use cluster_recorder.Diff.{alert}
use cluster_recorder.Store.Tables.{
  Tables, SnapshotRow, PodTransition, PodState, Event, ChangeRow, IncidentRow, empty,
  transition_waiting,
}

abbrev pub bridge_up : Field
bridge_up = present (Value.text "cni0")

abbrev pub mtu_1450 : Field
mtu_1450 = present (Value.int 1450)

abbrev pub before : Snapshot
before = record {
  id = 1;
  node = "node-a";
  source = source_agent;
  time = 100 * second;
  driver = "flannel";
  driver_confidence = 90;
  driver_reason = "";
  fields = ("pod_bridge", bridge_up) ∷ ("pod_bridge.mtu", mtu_1450) ∷ [];
  baseline = false;
}

-- The bridge has vanished.
abbrev pub after : Snapshot
after = record before {
  id = 2;
  time = 130 * second;
  fields = ("pod_bridge.mtu", mtu_1450) ∷ ("pod_bridge", absent) ∷ [];
}

-- The same reading, in another order.
abbrev pub again : Snapshot
again = record before { fields = ("pod_bridge.mtu", mtu_1450) ∷ ("pod_bridge", bridge_up) ∷ [] }

abbrev pub row : ℕ → ℕ → Bool → SnapshotRow
row id ts flag = record {
  id = id;
  node = "node-a";
  source = source_agent;
  ts = ts;
  driver = "flannel";
  driver_confidence = 90;
  driver_reason = "";
  fields = [];
  baseline = flag;
}

-- Three snapshots of one node, the second of them a baseline.
abbrev pub sampled : Tables
sampled = record empty {
  snapshots = row 1 100_000 false ∷ row 2 130_000 true ∷ row 3 160_000 false ∷ [];
  next_snapshot = 4;
}

abbrev pub crash : String → String → ℕ → PodTransition
crash namespace name ts = record {
  id = 1;
  time = ts;
  namespace = namespace;
  name = name;
  node = "node-a";
  kind = transition_waiting;
  old = "";
  new = "CrashLoopBackOff";
  detail = "container=app";
}

abbrev pub pod_row : String → String → String → ℕ → PodState
pod_row namespace name reason since = record {
  namespace = namespace;
  name = name;
  node = "node-a";
  phase = "Running";
  waiting_reason = reason;
  restarts = 4;
  since = since;
}

-- The time of the tests, two days after the zero time, in nanoseconds.
abbrev pub now : ℕ
now = 48 * hour

abbrev pub now_ms : ℕ
now_ms = 172_800_000

abbrev pub event_row : Event
event_row = record {
  uid = "e1";
  namespace = "shop";
  name = "web.1";
  type = "Warning";
  reason = "BackOff";
  message = "restarting";
  kind = "Pod";
  obj_namespace = "shop";
  obj_name = "web";
  node = "node-a";
  count = 3;
  first = 100_000;
  last = 160_000;
}

-- A snapshot, an event and a field that has vanished a second ago.
abbrev pub noisy : Tables
noisy = record sampled {
  events = event_row ∷ [];
  changes =
      record {
        id = 1;
        ts = 172_799_000;
        node = "node-a";
        source = source_agent;
        field = "pod_bridge";
        old = record { state = bridge_up.state; value = none; reason = none };
        new = record { state = absent.state; value = none; reason = none };
        severity = alert;
      }
      ∷ [];
}
