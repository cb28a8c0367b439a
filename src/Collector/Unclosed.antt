-- ===== src/Collector/Unclosed.antt =====
-- The incidents of a running collector.
use cluster_recorder.Prelude.{
  ℕ, ◌-◌, ◌*◌, ◌≤◌, ◌≡◌, refl, ap, String, true, not, List, [], ◌∷◌, arith, length, length-map,
  select, map,
}
use cluster_recorder.Prelude.Order.{nat_order, descending}
use cluster_recorder.Prelude.Sorting.{sort_by}
use cluster_recorder.Prelude.Ordering.{length-sort_by}
use cluster_recorder.Config.{Config, hour}
use cluster_recorder.Dict.{Dict}
use cluster_recorder.Sample.{Time}
use cluster_recorder.Store.Tables.{Tables, IncidentRow}
use cluster_recorder.Store.Tables.Times.{ms_mono}
use cluster_recorder.Store.Db.{
  pure, query, ◌>>=◌, Keeps, Keeps-pure, Keeps-query, Keeps-statement, Keeps-bind,
}
use cluster_recorder.Store.Triples.{
  Triple, Triple-pure, Triple-if, Triple-bind, Triple-statement, Triple-Keeps, Keeps-Triple,
}
use cluster_recorder.Store.Incidents.{
  Incident, incidents as incidents_of, open_incident, insert_incident, set_incident_pods,
  close_incident, overlaps, scan_incident,
}
use cluster_recorder.Store.Pods.{crash_loops_since, pod, insert_transition}
use cluster_recorder.Store.Prune.{
  Pages, drop_snapshots, drop_events, prune_events, prune_transitions, prune_changes,
  prune_snapshots, prune_incidents,
}
use cluster_recorder.Store.Events.{insert_event}
use cluster_recorder.Store.Snapshots.{insert_snapshot, mark_latest, trim_baselines}
use cluster_recorder.Store.Changes.{insert_change}
use cluster_recorder.Incident.{
  earliest, should_open, keys_of, sorted, is_unsteady, close_if_steady, open_new, follow,
  open_or_follow, incidents, tick,
}
use cluster_recorder.Collector.Rows.{
  open_count, Sound, Sound-later, Sound-set_pods, Sound-close, Sound-select, Sound-append,
  count-overlaps,
}
use cluster_recorder.Collector.Writes.{Writes, Keeps-if, baseline-Keeps, run-Keeps}
use cluster_recorder.Collector.{Job, clock, run, Reachable, created, ran}

earliest-le : (opened : Time) (crashing : Dict Time) → earliest opened crashing ≤ opened
unfolding earliest
earliest-le opened [] = omega arith
earliest-le opened ((k, t) ∷ crashing) =
    ground (arith, earliest-le t crashing, earliest-le opened crashing)

Sound-Writes : (at : Time) → Writes (λ t. Sound at t.incidents)
unfolding insert_event insert_transition insert_snapshot insert_change mark_latest trim_baselines
    drop_snapshots drop_events prune_events prune_transitions prune_changes prune_snapshots
    prune_incidents
Sound-Writes at = record {
  event = λ e t h. h;
  transition = λ p t h. h;
  pod = λ p t h. h;
  pod_gone = λ key t h. h;
  snapshot = λ s t h. h;
  change = λ c t h. h;
  marked = λ node source t h. h;
  trimmed = λ node source keep t h. h;
  snapshots_dropped = λ t h. h;
  events_dropped = λ t h. h;
  events_pruned = λ cut t h. h;
  transitions_pruned = λ cut t h. h;
  changes_pruned = λ cut t h. h;
  snapshots_pruned = λ cut t h. h;
  incidents_pruned = λ cut t h. Sound-select at t.incidents _ h;
}

module _ (cfg : Config) (now : Time) where
  abbrev Safe : Tables → Type 0
  Safe t = Sound now t.incidents

  -- Of the rows the query has found none.
  abbrev NoneOpen : List Incident → Tables → Type 0
  NoneOpen incs t = Safe t × (incs ≡ [] → open_count t.incidents ≡ 0)

  abbrev found : Tables → List Incident
  found t = map scan_incident (
      sort_by ⦃o = descending nat_order⦄ (λ (r : IncidentRow). r.opened_ts)
        (select (overlaps (now - 24 * hour) now true) t.incidents))

  found-NoneOpen : (t : Tables) → Safe t → NoneOpen (found t) t
  found-NoneOpen t h =
      let rows = select (overlaps (now - 24 * hour) now true) t.incidents in
      let by = λ (r : IncidentRow). r.opened_ts in
      (
        h,
        λ e. omega (
          arith,
          count-overlaps (now - 24 * hour) now t.incidents h.dated,
          length-sort_by ⦃o = descending nat_order⦄ by rows,
          length-map scan_incident (sort_by ⦃o = descending nat_order⦄ by rows),
          ap (length {A = Incident}) e,
        ),
      )

  close_if_steady-Safe :
      (id : ℕ) (keys : List String) → Keeps Safe (close_if_steady cfg now id keys)
  unfolding close_if_steady pod close_incident
  close_if_steady-Safe id [] = Keeps-statement _ _ (λ t h. Sound-close now t.incidents id h)
  close_if_steady-Safe id (key ∷ keys) = Keeps-bind (pod key) _ (Keeps-query _) λ p.
      Keeps-if (is_unsteady now cfg.baseline_stable p) _ _ (Keeps-pure tt)
        (close_if_steady-Safe id keys)

  follow-Safe : (inc : Incident) (crashing : Dict Time) → Keeps Safe (follow cfg now inc crashing)
  unfolding follow set_incident_pods
  follow-Safe inc crashing = Keeps-if _ _ _ (close_if_steady-Safe _ _) (
      Keeps-bind (set_incident_pods inc.id _) _
        (Keeps-statement _ _ (λ t h. Sound-set_pods now t.incidents inc.id _ h))
        λ _. close_if_steady-Safe _ _)

  opened-Safe :
      (crashing : Dict Time) (pods : List String) (t : Tables)
      → NoneOpen [] t
      → Safe (insert_incident (earliest now crashing) pods t)
  unfolding insert_incident
  opened-Safe crashing pods t h =
      Sound-append now t.incidents _
        (ms_mono (earliest now crashing) now (earliest-le now crashing), λ c e. absurd (cc))
        (h.1 refl) h.0

  open_new-Safe :
      (crashing : Dict Time)
      → Triple (NoneOpen []) (open_new cfg now crashing) (λ _. Safe) (λ _. Safe)
  unfolding open_new open_incident
  open_new-Safe crashing =
      let pods = sorted (keys_of crashing) in
      Triple-if (not (should_open crashing cfg.incident_pod_thresh cfg.incident_ns_thresh))
        (pure tt) (open_incident (earliest now crashing) pods >>= λ _. pure tt)
        (λ few. Triple-pure tt (λ t h. h.0))
        (λ many.
          Triple-bind {R = λ _. Safe} (open_incident (earliest now crashing) pods) (λ _. pure tt)
            (Triple-statement (λ t. t.next_incident) (insert_incident (earliest now crashing) pods)
              (λ t h. opened-Safe crashing pods t h) (λ t h. h.0))
            (λ _. Triple-pure tt (λ t h. h)))

  open_or_follow-Safe :
      (incs : List Incident) (crashing : Dict Time)
      → Triple (NoneOpen incs) (open_or_follow cfg now incs crashing) (λ _. Safe) (λ _. Safe)
  unfolding open_or_follow
  open_or_follow-Safe [] crashing = open_new-Safe crashing
  open_or_follow-Safe (inc ∷ incs) crashing = record {
    at = λ db h. (Triple-Keeps _ (follow-Safe inc crashing)).at db h.0;
  }

  incidents-Safe : Keeps Safe (incidents cfg now)
  unfolding incidents crash_loops_since incidents_of
  incidents-Safe = Keeps-bind _ _ (Keeps-query _) λ crashing. Keeps-Triple _ (
      Triple-bind {R = NoneOpen} (query found) (λ incs. open_or_follow cfg now incs crashing)
        (Triple-statement found (λ t. t) found-NoneOpen (λ t h. h))
        (λ incs. open_or_follow-Safe incs crashing))

  tick-Safe : Keeps Safe (tick cfg now)
  unfolding tick
  tick-Safe = Keeps-bind _ _ incidents-Safe λ _. baseline-Keeps _ (Sound-Writes now) cfg now

module _ (cfg : Config) (p : Pages) where
  -- Every job keeps the incidents sound, seen from the evaluator's clock after it.
  run-Safe :
      (j : Job) (last : Time) → Keeps (λ t. Sound (clock cfg p last j) t.incidents) (run cfg p j)
  run-Safe j last =
      run-Keeps _ (Sound-Writes (clock cfg p last j)) cfg p j
        λ now e. rw (ap (clock cfg p last) e) (tick-Safe cfg now)

  -- In all tables that the collector can reach from an empty database, at most one incident is open,
  -- every incident was opened by the evaluator's last tick, and none was closed before it was opened:
  -- for jobs in any order, whichever of their statements fail, as long as the clock of the evaluator
  -- does not run backwards.
  pub Reachable-Sound : (last : Time) (t : Tables) → Reachable cfg p last t → Sound last t.incidents
  Reachable-Sound last t created = record { single = omega arith; dated = tt }
  Reachable-Sound last t (ran {last = before} {t = u} r j fs h) =
      (run-Safe j before).at (record { tables = u; faults = fs })
        (Sound-later before _ u.incidents h (Reachable-Sound before u r))
