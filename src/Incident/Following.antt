-- ===== src/Incident/Following.antt =====
-- An open incident: the pods that join it, and its end.
use cluster_recorder.Prelude.{
  ℕ, ◌≡◌, refl, ap, String, true, List, [], ◌∷◌, arith, ◌==◌, any, length, map, if◌then◌else◌,
}
use cluster_recorder.Prelude.Order.{nat_order}
use cluster_recorder.Config.{Config}
use cluster_recorder.Sample.{Time}
use cluster_recorder.Store.Tables.{Tables, IncidentRow}
use cluster_recorder.Store.Db.{query, ◌>>=◌}
use cluster_recorder.Store.Triples.{
  Triple, Triple-imp, Triple-if, Triple-bind, Triple-statement, Triple-query,
}
use cluster_recorder.Store.Pods.{crash_loops_since}
use cluster_recorder.Store.Incidents.{
  Incident, incidents as incidents_of, set_incident_pods, set_pods_row,
}
use cluster_recorder.Incident.{
  close_if_steady, added_pods, pods_with, follow, open_or_follow, incidents,
}
use cluster_recorder.Incident.Lifecycle.{
  crashing_in, open_in, keeps_open, closings, close_if_steady-Triple,
}

closings-set_pods :
    (id : ℕ) (pods : List String) (rs : List IncidentRow)
    → map (λ (r : IncidentRow). r.closed_ts) (map (set_pods_row id pods) rs)
      ≡ map (λ (r : IncidentRow). r.closed_ts) rs
unfolding set_pods_row
closings-set_pods id pods [] = refl
closings-set_pods id pods (r ∷ rs) = ground (arith, closings-set_pods id pods rs)

module _ (cfg : Config) (now : Time) (t : Tables) (inc : Incident) where
  -- The incident's pods from now on.
  abbrev pub pods_now : List String
  pods_now = pods_with cfg now inc (crashing_in cfg now t)

  -- The tables with the pods that have joined the incident.
  abbrev with_pods : Tables
  with_pods = record t { incidents = map (set_pods_row inc.id pods_now) t.incidents }

  abbrev pub joined : Tables
  joined = if length (added_pods inc.pods (crashing_in cfg now t)) == 0 then t else with_pods

  abbrev Held : Tables → Type 0
  Held u = closings cfg now u ≡ closings cfg now t

  module _ (rest : List Incident) (open_incident : open_in cfg now t ≡ inc ∷ rest) where
    kept : Held with_pods
    kept = closings-set_pods inc.id pods_now t.incidents

    follow-Triple :
        any (keeps_open cfg now t) pods_now ≡ true
        → Triple
            (λ u. u ≡ t)
            (follow cfg now inc (crashing_in cfg now t))
            (λ _ u. Held u)
            (λ _ u. Held u)
    unfolding follow set_incident_pods
    follow-Triple h =
        Triple-if (length (added_pods inc.pods (crashing_in cfg now t)) == 0)
          (close_if_steady cfg now inc.id inc.pods) _
          (λ same.
            Triple-imp (λ _ u e. ap (closings cfg now) e) (λ _ u e. ap (closings cfg now) e)
              (close_if_steady-Triple cfg now t inc.id inc.pods (rw same at h)))
          (λ more.
            Triple-bind {R = λ _ u. u ≡ with_pods} (set_incident_pods inc.id pods_now)
              (λ _. close_if_steady cfg now inc.id pods_now)
              (Triple-statement (λ u. tt)
                (λ u. record u { incidents = map (set_pods_row inc.id pods_now) u.incidents })
                (λ u e. rw e refl) (λ u e. rw e refl))
              (λ _.
                Triple-imp (λ _ u e. rw e kept) (λ _ u e. rw e kept)
                  (close_if_steady-Triple cfg now with_pods inc.id pods_now h)))

    -- As long as a pod keeps the open incident open, no closing time changes, whichever statements fail.
    pub incidents_held :
        any (keeps_open cfg now t) pods_now ≡ true
        → Triple (λ u. u ≡ t) (incidents cfg now) (λ _ u. Held u) (λ _ u. Held u)
    unfolding incidents crash_loops_since incidents_of open_or_follow
    incidents_held h =
        Triple-query t (crashing_in cfg now)
          (λ c. query (open_in cfg now) >>= λ incs. open_or_follow cfg now incs c) refl
          (Triple-query t (open_in cfg now)
            (λ incs. open_or_follow cfg now incs (crashing_in cfg now t)) refl
            (rw open_incident (follow-Triple h)))
