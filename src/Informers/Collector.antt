-- ===== src/Informers/Collector.antt =====
-- internal/informers/collector.go: the handlers of the informers. An error of the store is logged and
-- dropped there; the handlers below return it with the rest.
pub mod Resync
use cluster_recorder.Prelude.{
  ℕ, String, Bool, true, false, not, Option, none, some, List, [], ◌∷◌, length, ◌==◌, if◌then◌else◌,
}
use cluster_recorder.Diff.{Change, snapshots}
use cluster_recorder.Sample.{Time, Snapshot, fields_equal, source_api}
use cluster_recorder.Store.Tables.{PodTransition, transition_phase}
use cluster_recorder.Store.Db.{Db, Result, ok, err, Action, pure, ◌>>=◌, ◌>>◌}
use cluster_recorder.Store.Events.{put_event}
use cluster_recorder.Store.Pods.{put_pod_transitions, upsert_pod, forget_pod, pod_key}
use cluster_recorder.Store.Snapshots.{latest_snapshot, put_snapshot}
use cluster_recorder.Store.Changes.{put_changes}
use cluster_recorder.Informers.{ApiEvent, Pod, Node}
use cluster_recorder.Informers.Events.{event_record}
use cluster_recorder.Informers.Pods.{pod_transitions, pod_state_of}
use cluster_recorder.Informers.Nodes.{node_snapshot}

-- `if err := ...; err != nil { log }`: the handler goes on.
unfoldable pub logged : {A : Type 0} → Action A → Action (Unit {0})
logged m db = (ok tt, (m db).1)

-- onEvent
unfoldable pub on_event : (String → String → String) → ApiEvent → Action (Unit {0})
on_event node_of_pod ev = logged (put_event (event_record ev node_of_pod))

unfoldable pub record_transitions : Option Pod → Pod → Time → Action (Unit {0})
record_transitions none new_pod now = pure tt
record_transitions (some old_pod) new_pod now =
    if length (pod_transitions old_pod new_pod now) == 0
    then pure tt
    else logged (put_pod_transitions (pod_transitions old_pod new_pod now))

-- onPod; an added pod has no old version.
unfoldable pub on_pod : Option Pod → Pod → Time → Action (Unit {0})
unfolding record_transitions
on_pod old_pod new_pod now = do
  record_transitions old_pod new_pod now
  logged (upsert_pod (pod_state_of new_pod) now)

abbrev pub deleted : Pod → Time → PodTransition
deleted p now = record {
  id = 0;
  time = now;
  namespace = p.namespace;
  name = p.name;
  node = p.node_name;
  kind = transition_phase;
  old = p.phase;
  new = "Deleted";
  detail = "";
}

-- onPodDelete
unfoldable pub on_pod_delete : Pod → Time → Action (Unit {0})
on_pod_delete p now = do
  logged (put_pod_transitions (deleted p now ∷ []))
  logged (forget_pod (pod_key p.namespace p.name))

-- `prev != nil && sample.FieldsEqual(prev.Fields, snap.Fields)`
unfoldable pub is_unchanged : Option Snapshot → Snapshot → Bool
is_unchanged none snap = false
is_unchanged (some prev) snap = fields_equal prev.fields snap.fields

-- RecordNode
unfoldable pub record_node : Node → Time → Action (Unit {0})
unfolding is_unchanged
record_node n now = do
  prev ← latest_snapshot n.name source_api
  if is_unchanged prev (node_snapshot n now)
      then pure tt
      else do snap ← put_snapshot (node_snapshot n now); put_changes (snapshots prev (some snap))

-- onNode
unfoldable pub on_node : Node → Time → Action (Unit {0})
on_node n now = logged (record_node n now)
