-- ===== src/Store/Pods.antt =====
-- internal/store/records.go: pod transitions and the current state of every pod.
pub mod Since
pub mod Crashes
use Prim.Native.String.{◌++◌ as ◌<>◌}
use cluster_recorder.Prelude.{
  ℕ, ◌+◌, ◌≤◌, String, Bool, true, false, ◌&&◌, ◌||◌, not, List, [], ◌∷◌, ◌++◌, Option, none, some,
  leb, ltb, str_eq, select, map, map_option, if◌then◌else◌, length,
}
use cluster_recorder.Prelude.Order.{pair_order, text_order}
use cluster_recorder.Prelude.Sorting.{sort_by, find_by}
use cluster_recorder.Dict.{Dict, get, put}
use cluster_recorder.Sample.{Time}
use cluster_recorder.Store.Tables.{
  PodTransition, PodState, Tables, ms, from_ms, transition_waiting, transition_restart,
}
use cluster_recorder.Store.Db.{Action, exec, query, pure, ◌>>=◌, ◌>>◌}

-- INSERT INTO pod_transitions
unfoldable pub insert_transition : PodTransition → Tables → Tables
insert_transition p t = record t {
  pod_transitions = t.pod_transitions ++ record p { id = t.next_transition; time = ms p.time } ∷ [];
  next_transition = t.next_transition + 1;
}

-- PutPodTransitions
unfoldable pub put_pod_transitions : List PodTransition → Action (Unit {0})
unfolding insert_transition
put_pod_transitions [] = pure tt
put_pod_transitions (p ∷ ps) = do exec (insert_transition p); put_pod_transitions ps

abbrev pub transition_of_row : PodTransition → PodTransition
transition_of_row r = record r { time = from_ms r.time }

-- PodTransitions
unfoldable pub pod_transitions : String → Time → Time → Action (List PodTransition)
pod_transitions node from to = query λ t. map transition_of_row (
    sort_by {K = ℕ × ℕ} (λ (r : PodTransition). (r.time, r.id))
      (select
        (λ (r : PodTransition).
          leb (ms from) r.time && leb r.time (ms to) && (str_eq node "" || str_eq r.node node))
        t.pod_transitions))

abbrev pub crash_loop : String
crash_loop = "CrashLoopBackOff"

-- namespace || '/' || name
unfoldable pub pod_key : String → String → String
pod_key namespace name = namespace <> ("/" <> name)

-- kind = 'waiting' AND new = 'CrashLoopBackOff' AND ts >= ?
unfoldable pub is_crash_since : ℕ → PodTransition → Bool
is_crash_since since r =
    str_eq r.kind transition_waiting && str_eq r.new crash_loop && leb since r.time

min_with : Option ℕ → ℕ → ℕ
min_with none v = v
min_with (some w) v = if ltb v w then v else w

-- MIN(ts) ... GROUP BY 1: the groups, each with its least time.
unfoldable pub group_min : List PodTransition → Dict ℕ
unfolding pod_key min_with
group_min [] = []
group_min (r ∷ rs) =
    let groups = group_min rs in
    let key = pod_key r.namespace r.name in put groups key (min_with (get groups key) r.time)

unfoldable pub times_of : Dict ℕ → Dict Time
times_of [] = []
times_of ((k, v) ∷ m) = (k, from_ms v) ∷ times_of m

-- CrashLoopsSince
unfoldable pub crash_loops_since : Time → Action (Dict Time)
unfolding is_crash_since group_min times_of
crash_loops_since since =
    query λ t. times_of (group_min (select (is_crash_since (ms since)) t.pod_transitions))

-- RestartsSince
unfoldable pub restarts_since : Time → Action ℕ
restarts_since since = query λ t. length (
    select (λ (r : PodTransition). str_eq r.kind transition_restart && leb (ms since) r.time)
      t.pod_transitions)

-- PodState.Key
abbrev pub key_of : PodState → String
key_of p = pod_key p.namespace p.name

-- ON CONFLICT(key) DO UPDATE: since_ts stays if phase and waiting reason are as they were.
unfoldable pub merge_pod : PodState → PodState → PodState
merge_pod p old = record old {
  node = p.node;
  phase = p.phase;
  waiting_reason = p.waiting_reason;
  restarts = p.restarts;
  since =
      if str_eq old.phase p.phase && str_eq old.waiting_reason p.waiting_reason
      then old.since
      else p.since;
}

-- `p` is the row to insert.
unfoldable pub upsert_row : PodState → List PodState → List PodState
unfolding merge_pod
upsert_row p [] = p ∷ []
upsert_row p (q ∷ qs) =
    if str_eq (key_of q) (key_of p) then merge_pod p q ∷ qs else q ∷ upsert_row p qs

-- UpsertPod
unfoldable pub upsert_pod : PodState → Time → Action (Unit {0})
unfolding upsert_row
upsert_pod p now = exec (λ t. record t { pods = upsert_row (record p { since = ms now }) t.pods })

-- ForgetPod
unfoldable pub forget_pod : String → Action (Unit {0})
forget_pod key =
    exec (λ t. record t { pods = select (λ (p : PodState). not (str_eq (key_of p) key)) t.pods })

abbrev pub pod_of_row : PodState → PodState
pod_of_row r = record r { since = from_ms r.since }

-- Pod
unfoldable pub pod : String → Action (Option PodState)
pod key = query (λ t. map_option pod_of_row (find_by key_of key t.pods))

-- CrashLoopingPods
unfoldable pub crash_looping_pods : Action (List String)
crash_looping_pods = query λ t.
    sort_by (λ (k : String). k)
      (map key_of (select (λ (p : PodState). str_eq p.waiting_reason crash_loop) t.pods))
