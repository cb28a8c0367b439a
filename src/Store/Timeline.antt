-- ===== src/Store/Timeline.antt =====
-- internal/store/store.go: the merged timeline of one node.
pub mod Merged
use cluster_recorder.Prelude.{String, List, map, ◌++◌}
use cluster_recorder.Prelude.Order.{nat_order}
use cluster_recorder.Prelude.Sorting.{sort_by}
use cluster_recorder.Sample.{Time}
use cluster_recorder.Diff.{Change}
use cluster_recorder.Store.Tables.{Event, PodTransition}
use cluster_recorder.Store.Db.{Action, pure, ◌>>=◌}
use cluster_recorder.Store.Changes.{changes}
use cluster_recorder.Store.Events.{events}
use cluster_recorder.Store.Pods.{pod_transitions}

-- The data of an entry; its kind is the constructor.
pub data TimelineData : Type 0 where
  change : Change → TimelineData
  event : Event → TimelineData
  pod_transition : PodTransition → TimelineData

pub record TimelineEntry : Type 0 where
  pub time : Time
  pub node : String
  pub data_of : TimelineData

unfoldable pub change_entry : Change → TimelineEntry
change_entry c = record { time = c.time; node = c.node; data_of = change c }

unfoldable pub event_entry : Event → TimelineEntry
event_entry e = record { time = e.last; node = e.node; data_of = event e }

unfoldable pub transition_entry : PodTransition → TimelineEntry
transition_entry t = record { time = t.time; node = t.node; data_of = pod_transition t }

-- `sort.SliceStable` by time.
unfoldable pub merge_timeline : List Change → List Event → List PodTransition → List TimelineEntry
unfolding change_entry event_entry transition_entry
merge_timeline cs es ts =
    sort_by (λ (e : TimelineEntry). e.time)
      (map change_entry cs ++ (map event_entry es ++ map transition_entry ts))

-- Timeline
unfoldable pub timeline : String → Time → Time → Action (List TimelineEntry)
timeline node from to = do
  cs ← changes node from to
  es ← events (record { namespace = ""; node = node; from = from; to = to; limit = 0 })
  ts ← pod_transitions node from to
  pure (merge_timeline cs es ts)
