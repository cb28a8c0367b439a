-- ===== src/Incident/Quiet.antt =====
-- When the evaluation marks baselines.
use cluster_recorder.Prelude.{
  ℕ, ◌-◌, ◌≡◌, refl, ◌∙◌, length-map, String, Bool, false, ◌&&◌, not, List, [], ◌∷◌, arith, leb,
  ltb, ◌==◌, str_eq, any, all, length, select, map, map_option, if◌then◌else◌,
}
use cluster_recorder.Prelude.Order.{text_order}
use cluster_recorder.Prelude.Sorting.{sort_by}
use cluster_recorder.Prelude.Ordering.{length-sort_by}
use cluster_recorder.Config.{Config}
use cluster_recorder.Sample.{Time, source_api}
use cluster_recorder.Store.Tables.{
  Tables, PodState, PodTransition, ChangeRow, SnapshotRow, ms, transition_restart,
}
use cluster_recorder.Store.Db.{StoreError, Action, pure, query, ◌>>=◌}
use cluster_recorder.Store.Triples.{Triple, Triple-pure, Triple-if, Triple-query}
use cluster_recorder.Store.Pods.{
  is_crash_since, crash_loop, crash_loops_since, restarts_since, crash_looping_pods, group_min,
  times_of, key_of,
}
use cluster_recorder.Store.Changes.{alerts_since, changes_on_field, is_alert}
use cluster_recorder.Store.Snapshots.{latest_snapshot, latest_row, is_of, scan_snapshot}
use cluster_recorder.Store.Snapshots.Nodes.{NodeSummary, nodes, nodes_of, summary}
use cluster_recorder.Incident.Counts.{
  count-select, count-group_min, all-sort_by, all-nodes_of, all-summary,
}
use cluster_recorder.Incident.{is_ready, mark_if_ready, baseline}

-- The node's last API snapshot says Ready, and its readiness has not changed since.
abbrev pub is_steady_node : Tables → ℕ → String → Bool
is_steady_node t since n =
    is_ready (map_option scan_snapshot (latest_row (is_of n source_api) t))
    && all
        (λ (c : ChangeRow). not (str_eq c.node n && str_eq c.field "node.ready" && leb since c.ts))
        t.changes

-- The cluster has been quiet since a time: no pod waits in a crash loop, none has entered one, none
-- has restarted, no field has vanished, and every node is steady.
abbrev pub is_quiet : Tables → ℕ → Bool
is_quiet t since =
    not (any (λ (p : PodState). str_eq p.waiting_reason crash_loop) t.pods)
    && not (any (is_crash_since since) t.pod_transitions)
    && not (
        any (λ (r : PodTransition). str_eq r.kind transition_restart && leb since r.time)
          t.pod_transitions)
    && not (any (λ (c : ChangeRow). is_alert c.severity && leb since c.ts) t.changes)
    && all (λ (s : SnapshotRow). is_steady_node t since s.node) t.snapshots

pub all-not : {A : Type 0} → (p : A → Bool) (xs : List A) → all (λ x. not (p x)) xs ≡ not (any p xs)
all-not p [] = refl
all-not p (x ∷ xs) = ground (arith, all-not p xs)

module _ (cfg : Config) (now : Time) (t : Tables) where
  -- The tables are as before.
  abbrev Same : Unit {0} → Tables → Type 0
  Same x u = u ≡ t

  abbrev SameOnError : StoreError → Tables → Type 0
  SameOnError e u = u ≡ t

  abbrev since : ℕ
  since = ms (now - cfg.baseline_stable)

  -- A query, and going on only if a test of its answer fails.
  unless :
      {A : Type 0}
      → (a : Tables → A) (b : A → Bool) (m : A → Action (Unit {0}))
      → (b (a t) ≡ false → Triple (λ u. u ≡ t) (m (a t)) Same SameOnError)
      → Triple (λ u. u ≡ t) (query a >>= λ r. if b r then pure tt else m r) Same SameOnError
  unless a b m k =
      Triple-query t a (λ r. if b r then pure tt else m r) refl
        (Triple-if (b (a t)) (pure tt) (m (a t)) (λ _. Triple-pure tt (λ u h. h)) k)

  abbrev pub is_flap : String → ChangeRow → Bool
  is_flap n c = str_eq c.node n && str_eq c.field "node.ready" && leb since c.ts

  unsteady_rest :
      (n : String) (b : Bool)
      → not (is_ready (map_option scan_snapshot (latest_row (is_of n source_api) t))) ≡ false
      → ltb 0 (length (select (is_flap n) t.changes)) ≡ false
      → (is_steady_node t since n && b) ≡ false
      → b ≡ false
  unsteady_rest n b ready calm h =
      ground (arith, count-select (is_flap n) t.changes, all-not (is_flap n) t.changes)

  mark_if_ready-Triple :
      (all_nodes ns : List NodeSummary)
      → all (λ (n : NodeSummary). is_steady_node t since n.node) ns ≡ false
      → Triple (λ u. u ≡ t) (mark_if_ready cfg now all_nodes ns) Same SameOnError
  unfolding mark_if_ready latest_snapshot changes_on_field
  mark_if_ready-Triple all_nodes [] h = absurd (cc)
  mark_if_ready-Triple all_nodes (n ∷ ns) h =
      unless (λ u. map_option scan_snapshot (latest_row (is_of n.node source_api) u))
        (λ latest. not (is_ready latest)) _
        (λ ready.
          unless (λ u. length (select (is_flap n.node) u.changes)) (λ flaps. ltb 0 flaps)
            (λ _. mark_if_ready cfg now all_nodes ns)
            (λ calm. mark_if_ready-Triple all_nodes ns (
              unsteady_rest n.node (all (λ (n : NodeSummary). is_steady_node t since n.node) ns)
                ready calm h)))

  abbrev pub listed : Tables → List NodeSummary
  listed u = map (summary u.snapshots) (sort_by (λ (n : String). n) (nodes_of u.snapshots))

  abbrev pub looping : Tables → List String
  looping u =
      sort_by (λ (k : String). k)
        (map key_of (select (λ (p : PodState). str_eq p.waiting_reason crash_loop) u.pods))

  abbrev pub is_restart : PodTransition → Bool
  is_restart r = str_eq r.kind transition_restart && leb since r.time

  abbrev pub is_vanished : ChangeRow → Bool
  is_vanished c = is_alert c.severity && leb since c.ts

  pub all-listed :
      all (λ (n : NodeSummary). is_steady_node t since n.node) (listed t)
      ≡ all (λ (s : SnapshotRow). is_steady_node t since s.node) t.snapshots
  all-listed =
      all-summary (is_steady_node t since) t.snapshots
        (sort_by (λ (n : String). n) (nodes_of t.snapshots))
      ∙ all-sort_by (λ (n : String). n) (is_steady_node t since) (nodes_of t.snapshots)
      ∙ all-nodes_of (is_steady_node t since) t.snapshots

  unsteady :
      is_quiet t since ≡ false
      → ltb 0 (length (looping t)) ≡ false
      → ltb 0 (length (times_of (group_min (select (is_crash_since since) t.pod_transitions))))
        ≡ false
      → ltb 0 (length (select is_restart t.pod_transitions)) ≡ false
      → ltb 0 (length (select is_vanished t.changes)) ≡ false
      → all (λ (n : NodeSummary). is_steady_node t since n.node) (listed t) ≡ false
  unsteady h no_loop no_recent no_restart no_alert = ground (
    arith,
    length-sort_by (λ (k : String). k)
        (map key_of (select (λ (p : PodState). str_eq p.waiting_reason crash_loop) t.pods)),
    length-map key_of (select (λ (p : PodState). str_eq p.waiting_reason crash_loop) t.pods),
    count-select (λ (p : PodState). str_eq p.waiting_reason crash_loop) t.pods,
    count-group_min (is_crash_since since) t.pod_transitions,
    count-select is_restart t.pod_transitions,
    count-select is_vanished t.changes,
    all-listed,
  )

  -- If the cluster has not been quiet, the evaluation marks nothing, whichever statements fail.
  pub baseline_unquiet :
      is_quiet t since ≡ false → Triple (λ u. u ≡ t) (baseline cfg now) Same SameOnError
  unfolding baseline nodes crash_looping_pods crash_loops_since restarts_since alerts_since
  baseline_unquiet h =
      unless listed (λ ns. length ns == 0) _
        λ some_node.
          unless looping (λ ks. ltb 0 (length ks)) _
            λ no_loop.
              unless (λ u. times_of (group_min (select (is_crash_since since) u.pod_transitions)))
                (λ recent. ltb 0 (length recent)) _
                λ no_recent.
                  unless (λ u. length (select is_restart u.pod_transitions)) (λ n. ltb 0 n) _
                    λ no_restart.
                      unless (λ u. length (select is_vanished u.changes)) (λ n. ltb 0 n) _
                        λ no_alert.
                          mark_if_ready-Triple (listed t) (listed t)
                            (unsteady h no_loop no_recent no_restart no_alert)
