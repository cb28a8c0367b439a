-- ===== src/Store/Timeline/Merged.antt =====
-- The timeline of a node is in order and complete.
use mathlib.Core.List.{Permᴰ}
use cluster_recorder.Prelude.{ℕ, String, Bool, ◌&&◌, ◌||◌, List, ◌++◌, map, select, leb, str_eq}
use cluster_recorder.Prelude.Order.{nat_order, pair_order}
use cluster_recorder.Prelude.Sorting.{sort_by}
use cluster_recorder.Sample.{Time}
use cluster_recorder.Store.Tables.{Tables, Event, PodTransition, ChangeRow, ms, from_ms}
use cluster_recorder.Store.Changes.{changes, scan_change}
use cluster_recorder.Store.Events.{EventQuery, events, select_events, with_limit, of_row}
use cluster_recorder.Store.Pods.{pod_transitions, transition_of_row}
use cluster_recorder.Store.Timeline.{TimelineEntry, change, event, pod_transition, merge_timeline}

abbrev pub by_time : TimelineEntry → ℕ
by_time e = e.time

module _ (node : String) (from to : Time) where
  -- A row of the node whose time is in the range.
  abbrev pub is_shown : ℕ → String → Bool
  is_shown time of_node =
      leb (ms from) time && leb time (ms to) && (str_eq node "" || str_eq of_node node)

  abbrev pub shown_events : Tables → List Event
  shown_events t = select (λ (r : Event). is_shown r.last r.node) t.events

  -- An entry for each row of the node in the range, at the row's own time.
  abbrev pub recorded : Tables → List TimelineEntry
  recorded t =
      map
        (λ (r : ChangeRow). record {
          time = from_ms r.ts;
          node = r.node;
          data_of = change (scan_change r);
        })
        (select (λ (r : ChangeRow). is_shown r.ts r.node) t.changes)
      ++ (map
            (λ (r : Event). record {
              time = from_ms r.last;
              node = r.node;
              data_of = event (of_row r);
            })
            (shown_events t)
          ++ map
              (λ (r : PodTransition). record {
                time = from_ms r.time;
                node = r.node;
                data_of = pod_transition (transition_of_row r);
              })
              (select (λ (r : PodTransition). is_shown r.time r.node) t.pod_transitions))

  abbrev asked : EventQuery
  asked = record { namespace = ""; node = node; from = from; to = to; limit = 0 }

  -- What the three queries answer, merged.
  answered : Tables → List TimelineEntry
  unfolding scan_change
  answered t =
      merge_timeline
        (map scan_change (
          sort_by {K = ℕ × ℕ} (λ (r : ChangeRow). (r.ts, r.id))
            (select (λ (r : ChangeRow). is_shown r.ts r.node) t.changes)))
        (select_events (with_limit asked) t)
        (map transition_of_row (
          sort_by {K = ℕ × ℕ} (λ (r : PodTransition). (r.time, r.id))
            (select (λ (r : PodTransition). is_shown r.time r.node) t.pod_transitions)))
