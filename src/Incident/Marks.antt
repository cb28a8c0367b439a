-- ===== src/Incident/Marks.antt =====
-- The evaluation of a quiet cluster whose store answers: every latest snapshot becomes a baseline.
use cluster_recorder.Prelude.{
  ℕ, ◌-◌, ◌≡◌, refl, ap, sym, ◌∙◌, length-map, String, Bool, true, false, ◌&&◌, List, [], ◌∷◌,
  arith, ltb, ◌==◌, str_eq, all, length, select, map, map_option, if◌then◌else◌, Bool-cases,
  Option-cases, inl, inr,
}
use cluster_recorder.Prelude.Order.{text_order}
use cluster_recorder.Prelude.Sorting.{sort_by}
use cluster_recorder.Prelude.Ordering.{length-sort_by}
use cluster_recorder.Config.{Config}
use cluster_recorder.Sample.{Time, source_api, source_agent}
use cluster_recorder.Store.Tables.{Tables, PodState, SnapshotRow, ms}
use cluster_recorder.Store.Db.{ok, healthy, pure, statement, ◌>>=◌}
use cluster_recorder.Store.Pods.{
  is_crash_since, crash_loop, crash_loops_since, restarts_since, crash_looping_pods, group_min,
  times_of, key_of,
}
use cluster_recorder.Store.Changes.{alerts_since, changes_on_field}
use cluster_recorder.Store.Snapshots.{latest_snapshot, latest_row, is_of, scan_snapshot}
use cluster_recorder.Store.Snapshots.Marked.{marked, mark_baseline-healthy}
use cluster_recorder.Store.Snapshots.Stepping.{Flagged, Flagged-marked, Flagged-marked_other}
use cluster_recorder.Store.Snapshots.Nodes.{NodeSummary, nodes, nodes_of}
use cluster_recorder.Incident.Counts.{
  count-select, count-group_min, all-sort_by, all-nodes_of, all-summary,
}
use cluster_recorder.Incident.Quiet.{
  is_quiet, is_steady_node, is_flap, listed, looping, is_restart, is_vanished, all-listed, all-not,
}
use cluster_recorder.Incident.{
  has_baseline_flag, baselines_kept, mark_if_new, mark_all, is_ready, mark_if_ready, baseline,
}

-- The latest snapshot of a node and source is a baseline, or there is none.
abbrev pub is_flagged : Tables → String → String → Bool
is_flagged t node source =
    has_baseline_flag (map_option scan_snapshot (latest_row (is_of node source) t))

module _ (node source : String) (t : Tables) where
  of_Flagged : Flagged node source t → is_flagged t node source ≡ true
  unfolding has_baseline_flag scan_snapshot
  of_Flagged h = elim (Option-cases (latest_row (is_of node source) t)) [
    | inl e ↦ ap (λ o. has_baseline_flag (map_option scan_snapshot o)) e
    | inr (l, e) ↦ ap (λ o. has_baseline_flag (map_option scan_snapshot o)) e ∙ h l e
  ]

  is_flagged-Flagged : is_flagged t node source ≡ true → Flagged node source t
  unfolding has_baseline_flag scan_snapshot
  is_flagged-Flagged h r e = sym (ap (λ o. has_baseline_flag (map_option scan_snapshot o)) e) ∙ h

-- What `mark_if_new` and `mark_all` leave when no statement fails.
unfoldable pub after_new : String → String → Tables → Tables
after_new node source t =
    if is_flagged t node source then t else marked node source baselines_kept t

unfoldable pub after_all : List NodeSummary → Tables → Tables
after_all [] t = t
after_all (n ∷ ns) t = after_all ns (after_new n.node source_agent (after_new n.node source_api t))

mark_if_new-healthy :
    (node source : String) (t : Tables)
    → mark_if_new node source (healthy t) ≡ (ok tt, healthy (after_new node source t))
unfolding mark_if_new latest_snapshot after_new statement ◌>>=◌
mark_if_new-healthy node source t = elim (Bool-cases (is_flagged t node source)) [
  | inl h ↦ rw h refl
  | inr h ↦ rw h (mark_baseline-healthy node source baselines_kept t)
]

mark_all-healthy :
    (ns : List NodeSummary) (t : Tables)
    → mark_all ns (healthy t) ≡ (ok tt, healthy (after_all ns t))
unfolding mark_all after_all ◌>>=◌
mark_all-healthy [] t = refl
mark_all-healthy (n ∷ ns) t =
    let t1 = after_new n.node source_api t in
    let t2 = after_new n.node source_agent t1 in
    rw (mark_if_new-healthy n.node source_api t)
      (rw (mark_if_new-healthy n.node source_agent t1) (mark_all-healthy ns t2))

after_new-flags :
    (node source : String) (t : Tables) → is_flagged (after_new node source t) node source ≡ true
unfolding after_new
after_new-flags node source t = elim (Bool-cases (is_flagged t node source)) [
  | inl h ↦ rw h (h)
  | inr h ↦ rw h (
      of_Flagged node source (marked node source baselines_kept t) (Flagged-marked node source 3 t))
]

after_new-keeps :
    (node source n s : String) (t : Tables)
    → is_flagged t n s ≡ true
    → is_flagged (after_new node source t) n s ≡ true
unfolding after_new
after_new-keeps node source n s t k = elim (Bool-cases (is_flagged t node source)) [
  | inl h ↦ rw h (k)
  | inr h ↦ rw h (
      of_Flagged n s (marked node source baselines_kept t)
        (Flagged-marked_other node source 3 t n s (is_flagged-Flagged n s t k)))
]

after_all-keeps :
    (ns : List NodeSummary) (n s : String) (t : Tables)
    → is_flagged t n s ≡ true
    → is_flagged (after_all ns t) n s ≡ true
unfolding after_all
after_all-keeps [] n s t k = k
after_all-keeps (m ∷ ns) n s t k =
    let t1 = after_new m.node source_api t in
    after_all-keeps ns n s (after_new m.node source_agent t1)
      (after_new-keeps m.node source_agent n s t1 (after_new-keeps m.node source_api n s t k))

abbrev pub both_flagged : Tables → String → Bool
both_flagged t n = is_flagged t n source_api && is_flagged t n source_agent

after_all-flags :
    (ns : List NodeSummary) (t : Tables)
    → all (λ (n : NodeSummary). both_flagged (after_all ns t) n.node) ns ≡ true
unfolding after_all
after_all-flags [] t = refl
after_all-flags (n ∷ ns) t =
    let t1 = after_new n.node source_api t in
    let t2 = after_new n.node source_agent t1 in
    ground (
      arith,
      after_all-flags ns t2,
      after_all-keeps ns n.node source_agent t2 (after_new-flags n.node source_agent t1),
      after_all-keeps ns n.node source_api t2 (
          after_new-keeps n.node source_agent n.node source_api t1
            (after_new-flags n.node source_api t)),
    )

module _ (cfg : Config) (now : Time) (t : Tables) where
  abbrev from : ℕ
  from = ms (now - cfg.baseline_stable)

  mark_if_ready-healthy :
      (all_nodes ns : List NodeSummary)
      → all (λ (n : NodeSummary). is_steady_node t from n.node) ns ≡ true
      → mark_if_ready cfg now all_nodes ns (healthy t) ≡ mark_all all_nodes (healthy t)
  unfolding mark_if_ready latest_snapshot changes_on_field statement ◌>>=◌
  mark_if_ready-healthy all_nodes [] h = refl
  mark_if_ready-healthy all_nodes (n ∷ ns) h =
      let ready : is_ready (map_option scan_snapshot (latest_row (is_of n.node source_api) t))
          ≡ true =
        ground (arith, h) in
      let calm : ltb 0 (length (select (is_flap cfg now t n.node) t.changes)) ≡ false = ground (
        arith,
        count-select (is_flap cfg now t n.node) t.changes,
        all-not (is_flap cfg now t n.node) t.changes,
        h,
      ) in
      let rest : all (λ (n : NodeSummary). is_steady_node t from n.node) ns ≡ true =
        ground (arith, h) in
      rw (ready) (rw (calm) (mark_if_ready-healthy all_nodes ns rest))

  -- What the evaluation leaves in the tables when no statement fails and the cluster is quiet.
  abbrev pub evaluated : Tables
  evaluated = after_all (listed cfg now t t) t

  none_left : (ns : List NodeSummary) → (length ns == 0) ≡ true → t ≡ after_all ns t
  unfolding after_all
  none_left [] e = refl
  none_left (n ∷ ns) e = ground (arith, e)

  baseline-healthy :
      is_quiet t from ≡ true → baseline cfg now (healthy t) ≡ (ok tt, healthy evaluated)
  unfolding baseline nodes crash_looping_pods crash_loops_since restarts_since alerts_since
      statement ◌>>=◌
  baseline-healthy h = elim (Bool-cases (length (listed cfg now t t) == 0)) [
    | inl empty ↦
        rw empty (ap (λ (u : Tables). pure tt (healthy u)) (none_left (listed cfg now t t) empty))
    | inr some_node ↦
        let no_loop : ltb 0 (length (looping cfg now t t)) ≡ false = ground (
          arith,
          h,
          length-sort_by (λ (k : String). k)
              (map key_of (select (λ (p : PodState). str_eq p.waiting_reason crash_loop) t.pods)),
          length-map key_of (select (λ (p : PodState). str_eq p.waiting_reason crash_loop) t.pods),
          count-select (λ (p : PodState). str_eq p.waiting_reason crash_loop) t.pods,
        ) in
        let no_recent : ltb 0
              (length (times_of (group_min (select (is_crash_since from) t.pod_transitions))))
            ≡ false =
          ground (arith, h, count-group_min (is_crash_since from) t.pod_transitions) in
        let no_restart : ltb 0 (length (select (is_restart cfg now t) t.pod_transitions)) ≡ false =
          ground (arith, h, count-select (is_restart cfg now t) t.pod_transitions) in
        let no_alert : ltb 0 (length (select (is_vanished cfg now t) t.changes)) ≡ false =
          ground (arith, h, count-select (is_vanished cfg now t) t.changes) in
        rw some_node (
          rw no_loop (
            rw no_recent (
              rw no_restart (
                rw no_alert (
                  mark_if_ready-healthy (listed cfg now t t) (listed cfg now t t)
                    (all-listed cfg now t ∙ ground (arith, h))
                  ∙ mark_all-healthy (listed cfg now t t) t)))))
  ]

  -- On a healthy database, after a quiet window, the evaluation succeeds, and then the latest
  -- snapshot of every node and both sources is a baseline, where there is one.
  pub baseline_marks :
      is_quiet t from ≡ true
      → (baseline cfg now (healthy t) ≡ (ok tt, healthy evaluated))
        × (all (λ (s : SnapshotRow). both_flagged evaluated s.node) t.snapshots ≡ true)
  baseline_marks h = (
    baseline-healthy h,
    sym (
          all-summary (both_flagged evaluated) t.snapshots
            (sort_by (λ (n : String). n) (nodes_of t.snapshots))
          ∙ all-sort_by (λ (n : String). n) (both_flagged evaluated) (nodes_of t.snapshots)
          ∙ all-nodes_of (both_flagged evaluated) t.snapshots)
        ∙ after_all-flags (listed cfg now t t) t,
  )
