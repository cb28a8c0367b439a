-- ===== src/Collector/Writes.antt =====
-- The statements that write, but for the evaluator's on incidents, and what the informers' handlers, the
-- API, the marking of baselines and the maintenance keep when the statements keep it.
use cluster_recorder.Prelude.{
  ℕ, zero, suc, ◌≡◌, refl, String, Bool, true, false, not, leb, ltb, List, [], ◌∷◌, Option, none,
  some, length, select, str_eq, ◌==◌, if◌then◌else◌,
}
use cluster_recorder.Config.{Config}
use cluster_recorder.Sample.{Time, Snapshot, source_api, source_agent}
use cluster_recorder.Diff.{Change}
use cluster_recorder.Store.Tables.{Tables, Event, PodState, PodTransition}
use cluster_recorder.Store.Db.{
  Action, pure, query, exec, ◌>>=◌, Keeps, Keeps-pure, Keeps-raise, Keeps-statement, Keeps-query,
  Keeps-bind,
}
use cluster_recorder.Store.Events.{put_event, insert_event}
use cluster_recorder.Store.Pods.{
  put_pod_transitions, insert_transition, upsert_row, key_of, upsert_pod, forget_pod,
  crash_loops_since, restarts_since, crash_looping_pods,
}
use cluster_recorder.Store.Snapshots.{
  put_snapshot, insert_snapshot, latest_snapshot, mark_latest, trim_baselines, mark_baseline,
}
use cluster_recorder.Store.Snapshots.Nodes.{NodeSummary, nodes}
use cluster_recorder.Store.Changes.{put_changes, insert_change, changes_on_field, alerts_since}
use cluster_recorder.Store.Prune.{
  Pages, Retention, prune, prune_events, prune_transitions, prune_changes, prune_snapshots,
  prune_incidents, size_bytes, drop_snapshots, drop_events, drop_oldest, enforce_size_cap,
}
use cluster_recorder.Informers.{ApiEvent, Pod, Node}
use cluster_recorder.Informers.Collector.{
  logged, on_event, record_transitions, on_pod, on_pod_delete, record_node, on_node,
}
use cluster_recorder.Incident.{is_ready, mark_if_new, mark_all, mark_if_ready, baseline, tick}
use cluster_recorder.Collector.{
  Job, event_seen, pod_seen, pod_deleted, node_seen, request, evaluator_tick, cap_tick, prune_tick,
  evaluate, enforce_cap, prune_old, run,
}
use cluster_recorder.Api.Requests.{Server, Request, handle}
use cluster_recorder.Api.Requests.Answers.{served}

pub Keeps-if :
    {A : Type 0} {Q : Tables → Type 0} (b : Bool) (m n : Action A)
    → Keeps Q m
    → Keeps Q n
    → Keeps Q (if b then m else n)
Keeps-if true m n km kn = km
Keeps-if false m n km kn = kn

pub Keeps-logged :
    {A : Type 0} {Q : Tables → Type 0} (m : Action A) → Keeps Q m → Keeps Q (logged m)
unfolding logged
Keeps-logged m km = record { at = km.at }

-- `Q` holds after each of the statements if it held before.
pub record Writes (Q : Tables → Type 0) : Type 0 where
  pub event : (e : Event) (t : Tables) → Q t → Q (insert_event e t)
  pub transition : (p : PodTransition) (t : Tables) → Q t → Q (insert_transition p t)
  pub pod : (p : PodState) (t : Tables) → Q t → Q (record t { pods = upsert_row p t.pods })
  pub pod_gone :
      (key : String) (t : Tables)
      → Q t
      → Q (record t { pods = select (λ (p : PodState). not (str_eq (key_of p) key)) t.pods })
  pub snapshot : (s : Snapshot) (t : Tables) → Q t → Q (insert_snapshot s t)
  pub change : (c : Change) (t : Tables) → Q t → Q (insert_change c t)
  pub marked : (node source : String) (t : Tables) → Q t → Q (mark_latest node source t)
  pub trimmed :
      (node source : String) (keep : ℕ) (t : Tables) → Q t → Q (trim_baselines node source keep t)
  pub snapshots_dropped : (t : Tables) → Q t → Q (drop_snapshots t)
  pub events_dropped : (t : Tables) → Q t → Q (drop_events t)
  pub events_pruned : (cut : ℕ) (t : Tables) → Q t → Q (prune_events cut t)
  pub transitions_pruned : (cut : ℕ) (t : Tables) → Q t → Q (prune_transitions cut t)
  pub changes_pruned : (cut : ℕ) (t : Tables) → Q t → Q (prune_changes cut t)
  pub snapshots_pruned : (cut : ℕ) (t : Tables) → Q t → Q (prune_snapshots cut t)
  pub incidents_pruned : (cut : ℕ) (t : Tables) → Q t → Q (prune_incidents cut t)

module _ (Q : Tables → Type 0) (w : Writes Q) where
  put_transitions : (ps : List PodTransition) → Keeps Q (put_pod_transitions ps)
  unfolding put_pod_transitions
  put_transitions [] = Keeps-pure tt
  put_transitions (p ∷ ps) =
      Keeps-bind (exec (insert_transition p)) _
        (Keeps-statement _ (insert_transition p) (w.transition p)) λ _. put_transitions ps

  put_snapshots : (s : Snapshot) → Keeps Q (put_snapshot s)
  unfolding put_snapshot
  put_snapshots s =
      Keeps-bind _ _ (Keeps-statement _ (insert_snapshot s) (w.snapshot s)) λ id. Keeps-pure _

  puts : (cs : List Change) → Keeps Q (put_changes cs)
  unfolding put_changes
  puts [] = Keeps-pure tt
  puts (c ∷ cs) =
      Keeps-bind (exec (insert_change c)) _ (Keeps-statement _ (insert_change c) (w.change c))
        λ _. puts cs

  pub on_event-Keeps :
      (node_of_pod : String → String → String) (ev : ApiEvent) → Keeps Q (on_event node_of_pod ev)
  unfolding on_event put_event
  on_event-Keeps node_of_pod ev = Keeps-logged _ (Keeps-statement _ _ (w.event _))

  record_transitions-Keeps :
      (o : Option Pod) (n : Pod) (now : Time) → Keeps Q (record_transitions o n now)
  unfolding record_transitions
  record_transitions-Keeps none n now = Keeps-pure tt
  record_transitions-Keeps (some o) n now =
      Keeps-if _ _ _ (Keeps-pure tt) (Keeps-logged _ (put_transitions _))

  pub on_pod-Keeps : (o : Option Pod) (n : Pod) (now : Time) → Keeps Q (on_pod o n now)
  unfolding on_pod upsert_pod
  on_pod-Keeps o n now =
      Keeps-bind (record_transitions o n now) _ (record_transitions-Keeps o n now)
        λ _. Keeps-logged _ (Keeps-statement _ _ (w.pod _))

  pub on_pod_delete-Keeps : (p : Pod) (now : Time) → Keeps Q (on_pod_delete p now)
  unfolding on_pod_delete forget_pod
  on_pod_delete-Keeps p now =
      Keeps-bind _ _ (Keeps-logged _ (put_transitions _))
        λ _. Keeps-logged _ (Keeps-statement _ _ (w.pod_gone _))

  pub record_node-Keeps : (n : Node) (now : Time) → Keeps Q (record_node n now)
  unfolding record_node latest_snapshot
  record_node-Keeps n now = Keeps-bind _ _ (Keeps-query _) λ prev.
      Keeps-if _ _ _ (Keeps-pure tt)
        (Keeps-bind (put_snapshot _) _ (put_snapshots _) λ snap. puts _)

  pub handle-Keeps : (s : Server) (now : Time) (r : Request) → Keeps Q (handle s now r)
  handle-Keeps s now r = record { at = λ db h. ((served Q put_snapshots puts s now r).at db h).0 }

  marks : (node source : String) (keep : ℕ) → Keeps Q (mark_baseline node source keep)
  unfolding mark_baseline
  marks node source keep =
      Keeps-bind (exec (mark_latest node source)) _ (Keeps-statement _ _ (w.marked node source))
        λ _. Keeps-statement _ _ (w.trimmed node source keep)

  marks_new : (node source : String) → Keeps Q (mark_if_new node source)
  unfolding mark_if_new latest_snapshot
  marks_new node source =
      Keeps-bind _ _ (Keeps-query _) λ latest. Keeps-if _ _ _ (Keeps-pure tt) (marks _ _ _)

  marks_all : (ns : List NodeSummary) → Keeps Q (mark_all ns)
  unfolding mark_all
  marks_all [] = Keeps-pure tt
  marks_all (n ∷ ns) =
      Keeps-bind (mark_if_new n.node source_api) _ (marks_new _ _)
        λ _. Keeps-bind (mark_if_new n.node source_agent) _ (marks_new _ _) λ _. marks_all ns

  -- A query, and going on only if a test of its answer fails.
  stop_or :
      {A : Type 0} (a : Tables → A) (b : A → Bool) (m : A → Action (Unit {0}))
      → ((r : A) → Keeps Q (m r))
      → Keeps Q (query a >>= λ r. if b r then pure tt else m r)
  stop_or a b m k =
      Keeps-bind (query a) _ (Keeps-query a) λ r. Keeps-if (b r) _ _ (Keeps-pure tt) (k r)

  module _ (cfg : Config) (now : Time) where
    ready : (all_nodes ns : List NodeSummary) → Keeps Q (mark_if_ready cfg now all_nodes ns)
    unfolding mark_if_ready latest_snapshot changes_on_field
    ready all_nodes [] = marks_all all_nodes
    ready all_nodes (n ∷ ns) =
        stop_or _ (λ latest. not (is_ready latest)) _
          λ _. stop_or _ (λ flaps. ltb 0 flaps) _ λ _. ready all_nodes ns

    pub baseline-Keeps : Keeps Q (baseline cfg now)
    unfolding baseline nodes crash_looping_pods crash_loops_since restarts_since alerts_since
    baseline-Keeps =
        stop_or _ (λ ns. length ns == 0) _
          λ ns.
            stop_or _ (λ ks. ltb 0 (length ks)) _
              λ _.
                stop_or _ (λ recent. ltb 0 (length recent)) _
                  λ _. stop_or _ (λ n. ltb 0 n) _ λ _. stop_or _ (λ n. ltb 0 n) _ λ _. ready ns ns

  module _ (p : Pages) where
    size : Keeps Q (size_bytes p)
    unfolding size_bytes
    size = Keeps-bind (query p.page_count) _ (Keeps-query _) λ pages.
        Keeps-bind (query p.freelist_count) _ (Keeps-query _)
          λ free. Keeps-bind (query p.page_size) _ (Keeps-query _) λ bytes. Keeps-pure _

    drops : Keeps Q drop_oldest
    unfolding drop_oldest
    drops = Keeps-bind _ _ (Keeps-statement _ drop_snapshots w.snapshots_dropped) λ n.
        Keeps-if (ltb 0 n) _ _ (Keeps-pure true) (
          Keeps-bind _ _ (Keeps-statement _ drop_events w.events_dropped) λ m. Keeps-pure (ltb 0 m))

    pub enforce_size_cap-Keeps : (max_bytes fuel : ℕ) → Keeps Q (enforce_size_cap p max_bytes fuel)
    unfolding enforce_size_cap
    enforce_size_cap-Keeps max_bytes zero = Keeps-pure none
    enforce_size_cap-Keeps max_bytes (suc fuel) = Keeps-bind (size_bytes p) _ size λ used.
        Keeps-if (leb used max_bytes) _ _ (Keeps-pure (some tt)) (
          Keeps-bind drop_oldest _ drops λ dropped.
            Keeps-if (not dropped) _ _ (Keeps-raise _)
              (Keeps-bind _ _ (Keeps-query (λ t. tt)) λ _. enforce_size_cap-Keeps max_bytes fuel))

  pub prune-Keeps : (now : Time) (r : Retention) → Keeps Q (prune now r)
  unfolding prune
  prune-Keeps now r = Keeps-bind _ _ (Keeps-statement _ _ (w.events_pruned _)) λ _.
      Keeps-bind _ _ (Keeps-statement _ _ (w.transitions_pruned _)) λ _.
        Keeps-bind _ _ (Keeps-statement _ _ (w.changes_pruned _)) λ _.
          Keeps-bind _ _ (Keeps-statement _ _ (w.snapshots_pruned _)) λ _.
            Keeps-bind _ _ (Keeps-statement _ _ (w.incidents_pruned _))
              λ _. Keeps-bind _ _ (Keeps-query (λ t. tt)) λ _. Keeps-query (λ t. tt)

  -- A job keeps what the statements and the evaluator's tick keep.
  pub run-Keeps :
      (cfg : Config) (p : Pages)
      → (j : Job) → ((now : Time) → j ≡ evaluator_tick now → Keeps Q (tick cfg now))
      → Keeps Q (run cfg p j)
  unfolding run evaluate enforce_cap prune_old on_node
  run-Keeps cfg p (event_seen node_of_pod ev) ticks = on_event-Keeps node_of_pod ev
  run-Keeps cfg p (pod_seen o n now) ticks = on_pod-Keeps o n now
  run-Keeps cfg p (pod_deleted pod now) ticks = on_pod_delete-Keeps pod now
  run-Keeps cfg p (node_seen n now) ticks = Keeps-logged _ (record_node-Keeps n now)
  run-Keeps cfg p (request s now r) ticks = Keeps-logged _ (handle-Keeps s now r)
  run-Keeps cfg p (evaluator_tick now) ticks = Keeps-logged _ (ticks now refl)
  run-Keeps cfg p cap_tick ticks = record {
    at = λ db k. (Keeps-logged _ (enforce_size_cap-Keeps p _ _)).at db k;
  }
  run-Keeps cfg p (prune_tick now) ticks = Keeps-logged _ (prune-Keeps now _)
