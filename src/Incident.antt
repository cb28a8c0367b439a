-- ===== src/Incident.antt =====
-- internal/incident/incident.go: the periodic evaluation that groups pod failures into incidents and
-- marks healthy baselines. `now.Sub(t) < d` is `now < t + d`.
pub mod Counts
pub mod Grouping
pub mod Lifecycle
pub mod Following
pub mod Marks
pub mod Quiet
pub mod Ticks
pub mod Opening
use Prim.Native.Nat.{ℕ}
use Prim.Native.Char.{code}
use Prim.Native.String.{◌++◌ as ◌<>◌}
use cluster_recorder.Prelude.{
  ◌+◌, ◌-◌, ◌*◌, String, Bool, true, false, ◌&&◌, ◌||◌, not, List, [], ◌∷◌, ◌++◌, Option, none,
  some, leb, ltb, str_eq, length, any, if◌then◌else◌, ◌==◌,
}
use cluster_recorder.Prelude.Order.{text_order}
use cluster_recorder.Prelude.Sorting.{sort_by}
use cluster_recorder.Dict.{Dict, get}
use cluster_recorder.Config.{Config, hour}
use cluster_recorder.Sample.{Time, Snapshot, Field, source_api, source_agent, equal, present}
use cluster_recorder.Sample.State.{FieldState}
use cluster_recorder.Sample.Encoding.{Value}
use cluster_recorder.Store.Tables.{PodState}
use cluster_recorder.Store.Db.{Action, pure, ◌>>=◌, ◌>>◌}
use cluster_recorder.Store.Pods.{crash_loops_since, restarts_since, crash_looping_pods, pod}
use cluster_recorder.Store.Changes.{alerts_since, changes_on_field}
use cluster_recorder.Store.Incidents.{
  Incident, incidents as incidents_of, open_incident, set_incident_pods, close_incident,
}
use cluster_recorder.Store.Snapshots.{latest_snapshot, mark_baseline}
use cluster_recorder.Store.Snapshots.Nodes.{NodeSummary, nodes}

abbrev pub baselines_kept : ℕ
baselines_kept = 4

-- `strings.SplitN(key, "/", 2)[0]`
unfoldable pub namespace_of : String → String
namespace_of String.[] = ""
namespace_of (String.◌∷◌ c s) =
    let rest = namespace_of s in if code c == 47 then "" else String.◌∷◌ c rest

-- The set `ns` of the namespaces.
unfoldable pub add_namespace : String → List String → List String
add_namespace n ns = if any (str_eq n) ns then ns else n ∷ ns

unfoldable pub namespaces : Dict Time → List String
unfolding add_namespace
namespaces [] = []
namespaces ((k, t) ∷ crashing) = add_namespace (namespace_of k) (namespaces crashing)

-- ShouldOpen
unfoldable pub should_open : Dict Time → ℕ → ℕ → Bool
unfolding namespaces
should_open crashing pod_threshold ns_threshold =
    if ltb (length crashing) pod_threshold
    then false
    else leb ns_threshold (length (namespaces crashing))

-- The loop that finds the keys and the earliest time.
unfoldable pub earliest : Time → Dict Time → Time
earliest opened [] = opened
earliest opened ((k, t) ∷ crashing) = earliest (if ltb t opened then t else opened) crashing

unfoldable pub keys_of : Dict Time → List String
keys_of [] = []
keys_of ((k, t) ∷ crashing) = k ∷ keys_of crashing

abbrev pub sorted : List String → List String
sorted = sort_by (λ (s : String). s)

-- The keys of `crashing` that are not among the incident's pods.
unfoldable pub added_pods : List String → Dict Time → List String
added_pods pods [] = []
added_pods pods ((k, t) ∷ crashing) =
    let rest = added_pods pods crashing in if any (str_eq k) pods then rest else k ∷ rest

-- `p.Phase != "Running" || p.WaitingReason != "" || now.Sub(p.Since) < stable`; a pod that is gone
-- does not keep an incident open.
unfoldable pub is_unsteady : Time → ℕ → Option PodState → Bool
is_unsteady now stable none = false
is_unsteady now stable (some p) =
    not (str_eq p.phase "Running") || not (str_eq p.waiting_reason "") || ltb now (p.since + stable)

module _ (cfg : Config) (now : Time) where
  -- The loop over the incident's pods, and the close after it.
  unfoldable pub close_if_steady : ℕ → List String → Action (Unit {0})
  unfolding is_unsteady
  close_if_steady id [] = close_incident id now
  close_if_steady id (key ∷ keys) = do
    p ← pod key
    if is_unsteady now cfg.baseline_stable p then pure tt else close_if_steady id keys

  unfoldable pub open_new : Dict Time → Action (Unit {0})
  unfolding should_open earliest keys_of
  open_new crashing =
      if not (should_open crashing cfg.incident_pod_thresh cfg.incident_ns_thresh)
      then pure tt
      else do id ← open_incident (earliest now crashing) (sorted (keys_of crashing)); pure tt

  -- The incident's pods with the ones that have crashed since.
  abbrev pub pods_with : Incident → Dict Time → List String
  pods_with inc crashing =
      let added = added_pods inc.pods crashing in
      if length added == 0 then inc.pods else sorted (inc.pods ++ added)

  unfoldable pub follow : Incident → Dict Time → Action (Unit {0})
  unfolding added_pods
  follow inc crashing =
      if length (added_pods inc.pods crashing) == 0 then close_if_steady inc.id inc.pods else do
        set_incident_pods inc.id (pods_with inc crashing)
        close_if_steady inc.id (pods_with inc crashing)

  unfoldable pub open_or_follow : List Incident → Dict Time → Action (Unit {0})
  open_or_follow [] crashing = open_new crashing
  open_or_follow (inc ∷ incs) crashing = follow inc crashing

  -- incidents
  unfoldable pub incidents : Action (Unit {0})
  unfolding open_or_follow
  incidents = do
    crashing ← crash_loops_since (now - cfg.incident_window)
    unclosed ← incidents_of (now - 24 * hour) now true
    open_or_follow unclosed crashing

-- `latest.Fields["node.ready"]` of a map without the key is the zero Field.
abbrev pub field_or_zero : Option Field → Field
field_or_zero none = record { state = FieldState.other ""; value = Value.null; reason = "" }
field_or_zero (some f) = f

unfoldable pub is_ready : Option Snapshot → Bool
is_ready none = false
is_ready (some s) = equal (field_or_zero (get s.fields "node.ready")) (present (Value.text "True"))

unfoldable pub has_baseline_flag : Option Snapshot → Bool
has_baseline_flag none = true
has_baseline_flag (some s) = s.baseline

-- The body of the second loop, for one node and source.
unfoldable pub mark_if_new : String → String → Action (Unit {0})
unfolding has_baseline_flag
mark_if_new node source = do
  latest ← latest_snapshot node source
  if has_baseline_flag latest then pure tt else mark_baseline node source baselines_kept

unfoldable pub mark_all : List NodeSummary → Action (Unit {0})
mark_all [] = pure tt
mark_all (n ∷ ns) = do mark_if_new n.node source_api; mark_if_new n.node source_agent; mark_all ns

module _ (cfg : Config) (now : Time) where
  -- The first loop, over the nodes that are left, and the second over all.
  unfoldable pub mark_if_ready : List NodeSummary → List NodeSummary → Action (Unit {0})
  unfolding is_ready
  mark_if_ready all_nodes [] = mark_all all_nodes
  mark_if_ready all_nodes (n ∷ ns) = do
    latest ← latest_snapshot n.node source_api
    if not (is_ready latest) then pure tt else do
      flaps ← changes_on_field n.node "node.ready" (now - cfg.baseline_stable)
      if ltb 0 flaps then pure tt else mark_if_ready all_nodes ns

  -- baseline
  unfoldable pub baseline : Action (Unit {0})
  baseline = do
    ns ← nodes
    if length ns == 0 then pure tt else do
      looping ← crash_looping_pods
      if ltb 0 (length looping) then pure tt else do
        recent ← crash_loops_since (now - cfg.baseline_stable)
        if ltb 0 (length recent) then pure tt else do
          restarts ← restarts_since (now - cfg.baseline_stable)
          if ltb 0 restarts then pure tt else do
            alerts ← alerts_since (now - cfg.baseline_stable)
            if ltb 0 alerts then pure tt else mark_if_ready ns ns

  -- Evaluator.Tick
  unfoldable pub tick : Action (Unit {0})
  tick = do incidents cfg now; baseline
