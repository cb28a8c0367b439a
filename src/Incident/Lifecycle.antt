-- ===== src/Incident/Lifecycle.antt =====
-- When an incident is opened and when it is closed.
use cluster_recorder.Prelude.{
  ℕ, ◌-◌, ◌*◌, ◌≡◌, refl, String, Bool, true, false, not, List, [], ◌∷◌, Option, arith, any, select,
  map, map_option, if◌then◌else◌,
}
use cluster_recorder.Prelude.Order.{text_order, nat_order, descending}
use cluster_recorder.Prelude.Sorting.{sort_by, find_by}
use cluster_recorder.Dict.{Dict}
use cluster_recorder.Config.{Config, hour}
use cluster_recorder.Sample.{Time}
use cluster_recorder.Store.Tables.{Tables, IncidentRow, ms}
use cluster_recorder.Store.Db.{ok, healthy, pure, statement, query, ◌>>=◌}
use cluster_recorder.Store.Triples.{
  Triple, Triple-pure, Triple-if, Triple-bind, Triple-statement, Triple-query,
}
use cluster_recorder.Store.Pods.{
  is_crash_since, crash_loops_since, pod, pod_of_row, key_of, group_min, times_of,
}
use cluster_recorder.Store.Incidents.{
  Incident, incidents as incidents_of, open_incident, insert_incident, close_incident, close_row,
  overlaps, scan_incident,
}
use cluster_recorder.Incident.{
  should_open, earliest, keys_of, sorted, is_unsteady, close_if_steady, open_new, open_or_follow,
  incidents,
}

module _ (cfg : Config) (now : Time) where
  -- The pods that have crashed within the window, and the incidents that are open.
  abbrev pub crashing_in : Tables → Dict Time
  crashing_in t =
      times_of
        (group_min (select (is_crash_since (ms (now - cfg.incident_window))) t.pod_transitions))

  abbrev pub open_in : Tables → List Incident
  open_in t = map scan_incident (
      sort_by ⦃o = descending nat_order⦄ (λ (r : IncidentRow). r.opened_ts)
        (select (overlaps (now - 24 * hour) now true) t.incidents))

  -- A pod keeps its incident open.
  abbrev pub keeps_open : Tables → String → Bool
  keeps_open t key =
      is_unsteady now cfg.baseline_stable (map_option pod_of_row (find_by key_of key t.pods))

  abbrev pub opened : Tables → Tables
  opened t = insert_incident (earliest now (crashing_in t)) (sorted (keys_of (crashing_in t))) t

  abbrev pub closed : ℕ → Tables → Tables
  closed id t = record t { incidents = map (close_row id now) t.incidents }

  -- What the closing times of the incidents are.
  abbrev pub closings : Tables → List (Option ℕ)
  closings t = map (λ (r : IncidentRow). r.closed_ts) t.incidents

  -- Without an open incident, one is opened exactly if the grouping rule says so; if a statement
  -- fails, nothing has changed.
  pub incidents_open :
      (t : Tables)
      → open_in t ≡ []
      → Triple
          (λ u. u ≡ t)
          (incidents cfg now)
          (λ _ u. u ≡ (
            if should_open (crashing_in t) cfg.incident_pod_thresh cfg.incident_ns_thresh
            then opened t
            else t))
          (λ _ u. u ≡ t)
  unfolding incidents crash_loops_since incidents_of open_or_follow open_new open_incident
  incidents_open t no_incident =
      Triple-query t crashing_in (λ c. query open_in >>= λ incs. open_or_follow cfg now incs c) refl
        (Triple-query t open_in (λ incs. open_or_follow cfg now incs (crashing_in t)) refl
          (rw no_incident (
            Triple-if
              (not (should_open (crashing_in t) cfg.incident_pod_thresh cfg.incident_ns_thresh))
              (pure tt) _ (λ few. Triple-pure tt (λ u h. ground (arith, h)))
              (λ many.
                Triple-bind {R = λ _ u. u ≡ opened t}
                  (open_incident (earliest now (crashing_in t)) (sorted (keys_of (crashing_in t))))
                  (λ _. pure tt)
                  (Triple-statement (λ u. u.next_incident)
                    (insert_incident (earliest now (crashing_in t))
                      (sorted (keys_of (crashing_in t))))
                    (λ u h. rw h refl) (λ u h. h))
                  (λ _. Triple-pure tt (λ u h. ground (arith, h)))))))

  -- As long as one pod keeps it open, an incident is not closed, whichever statements fail.
  pub close_if_steady-Triple :
      (t : Tables) (id : ℕ) (keys : List String)
      → any (keeps_open t) keys ≡ true
      → Triple (λ u. u ≡ t) (close_if_steady cfg now id keys) (λ _ u. u ≡ t) (λ _ u. u ≡ t)
  unfolding close_if_steady pod
  close_if_steady-Triple t id [] h = absurd (cc)
  close_if_steady-Triple t id (key ∷ keys) h =
      Triple-query t (λ u. map_option pod_of_row (find_by key_of key u.pods))
        (λ p.
          if is_unsteady now cfg.baseline_stable p
          then pure tt
          else close_if_steady cfg now id keys)
        refl
        (Triple-if (keeps_open t key) (pure tt) (close_if_steady cfg now id keys)
          (λ _. Triple-pure tt (λ u e. e))
          (λ steady. close_if_steady-Triple t id keys (ground (arith, h, steady))))

  -- With no pod that keeps it open, it is closed now.
  pub close_if_steady-healthy :
      (t : Tables) (id : ℕ) (keys : List String)
      → any (keeps_open t) keys ≡ false
      → close_if_steady cfg now id keys (healthy t) ≡ (ok tt, healthy (closed id t))
  unfolding close_if_steady pod close_incident statement ◌>>=◌
  close_if_steady-healthy t id [] h = refl
  close_if_steady-healthy t id (key ∷ keys) h = ground (arith, close_if_steady-healthy t id keys)
