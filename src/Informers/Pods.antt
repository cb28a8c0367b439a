-- ===== src/Informers/Pods.antt =====
-- internal/informers/convert.go: what changed between two versions of a pod, and a pod's state.
pub mod Changes
use Prim.Native.String.{◌++◌ as ◌<>◌}
use cluster_recorder.Prelude.{
  ℕ, ◌+◌, String, Bool, true, false, not, ◌&&◌, ◌||◌, Option, none, some, List, [], ◌∷◌, ◌++◌, map,
  ltb, str_eq, show, ◌==◌, if◌then◌else◌,
}
use cluster_recorder.Prelude.Order.{text_order}
use cluster_recorder.Prelude.Sorting.{sort_by}
use cluster_recorder.Dict.{Dict, get, put}
use cluster_recorder.Sample.{Time}
use cluster_recorder.Store.Tables.{
  PodTransition, PodState, transition_phase, transition_restart, transition_waiting,
}
use cluster_recorder.Informers.{Pod, ContainerStatus, Waiting, Terminated}

unfoldable pub add_statuses : Dict ContainerStatus → List ContainerStatus → Dict ContainerStatus
add_statuses m [] = m
add_statuses m (cs ∷ rest) = add_statuses (put m cs.name cs) rest

-- containerStatuses
unfoldable pub container_statuses : Pod → Dict ContainerStatus
unfolding add_statuses
container_statuses p = add_statuses (add_statuses [] p.init_container_statuses) p.container_statuses

-- waitingReason
unfoldable pub waiting_reason : ContainerStatus → String
waiting_reason cs = elim cs.waiting [ none ↦ "" | some w ↦ w.reason ]

-- A missing key of the map is the zero status.
unfoldable pub status_at : Dict ContainerStatus → String → ContainerStatus
status_at m k = elim (get m k) [
  | none ↦ record { name = ""; restart_count = 0; waiting = none; last_terminated = none }
  | some cs ↦ cs
]

restart_detail : String → Option Terminated → String
restart_detail name none = "container=" <> name
restart_detail name (some term) =
    "container=" <> (name <> (" reason=" <> (term.reason <> (" exit=" <> show term.exit_code))))

restart_time : Time → Option Terminated → Time
restart_time now none = now
restart_time now (some term) = if term.finished_at == 0 then now else term.finished_at

waiting_detail : String → Option Waiting → String
waiting_detail name none = "container=" <> name
waiting_detail name (some w) =
    if str_eq w.message ""
    then "container=" <> name
    else "container=" <> (name <> (" " <> w.message))

module _ (new_pod : Pod) (now : Time) where
  abbrev base : PodTransition
  base = record {
    id = 0;
    time = now;
    namespace = new_pod.namespace;
    name = new_pod.name;
    node = new_pod.node_name;
    kind = "";
    old = "";
    new = "";
    detail = "";
  }

  unfoldable pub phase_change : Pod → List PodTransition
  phase_change old_pod =
      if str_eq old_pod.phase new_pod.phase
      then []
      else record base {
        kind = transition_phase;
        old = old_pod.phase;
        new = new_pod.phase;
        detail = new_pod.reason;
      }
        ∷ []

  unfoldable pub restart_change : String → ContainerStatus → ContainerStatus → List PodTransition
  unfolding restart_detail restart_time
  restart_change name o n =
      if ltb o.restart_count n.restart_count
      then record base {
        kind = transition_restart;
        old = show o.restart_count;
        new = show n.restart_count;
        detail = restart_detail name n.last_terminated;
        time = restart_time now n.last_terminated;
      }
        ∷ []
      else []

  unfoldable pub waiting_change : String → ContainerStatus → ContainerStatus → List PodTransition
  unfolding waiting_reason waiting_detail
  waiting_change name o n =
      if str_eq (waiting_reason o) (waiting_reason n)
      then []
      else record base {
        kind = transition_waiting;
        old = waiting_reason o;
        new = waiting_reason n;
        detail = waiting_detail name n.waiting;
      }
        ∷ []

  -- The loop over the container names.
  unfoldable pub container_changes :
      Dict ContainerStatus → Dict ContainerStatus → List String → List PodTransition
  unfolding restart_change waiting_change status_at
  container_changes old_cs new_cs [] = []
  container_changes old_cs new_cs (name ∷ names) =
      restart_change name (status_at old_cs name) (status_at new_cs name)
      ++ (waiting_change name (status_at old_cs name) (status_at new_cs name)
          ++ container_changes old_cs new_cs names)

-- PodTransitions
unfoldable pub pod_transitions : Pod → Pod → Time → List PodTransition
unfolding phase_change container_changes container_statuses
pod_transitions old_pod new_pod now =
    phase_change new_pod now old_pod
    ++ container_changes new_pod now (container_statuses old_pod) (container_statuses new_pod) (
        sort_by (λ (s : String). s)
          (map (λ (e : String × ContainerStatus). e.0) (container_statuses new_pod)))

-- The body of the loop of PodStateOf.
unfoldable pub add_container : ContainerStatus → PodState → PodState
unfolding waiting_reason
add_container cs s =
    let counted = record s { restarts = s.restarts + cs.restart_count } in
    if not (str_eq (waiting_reason cs) "")
      && (str_eq s.waiting_reason "" || str_eq (waiting_reason cs) "CrashLoopBackOff")
    then record counted { waiting_reason = waiting_reason cs }
    else counted

unfoldable pub add_containers : Dict ContainerStatus → PodState → PodState
unfolding add_container
add_containers [] s = s
add_containers ((k, cs) ∷ m) s = add_containers m (add_container cs s)

abbrev pub blank_state : Pod → PodState
blank_state p = record {
  namespace = p.namespace;
  name = p.name;
  node = p.node_name;
  phase = p.phase;
  waiting_reason = "";
  restarts = 0;
  since = 0;
}

-- PodStateOf, with the statuses in the order in which `range` visits them.
unfoldable pub pod_state_in : Dict ContainerStatus → Pod → PodState
unfolding add_containers
pod_state_in statuses p = add_containers statuses (blank_state p)

-- PodStateOf, in the order in which the map was filled.
unfoldable pub pod_state_of : Pod → PodState
unfolding pod_state_in container_statuses
pod_state_of p = pod_state_in (container_statuses p) p
