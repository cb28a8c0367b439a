-- ===== src/Incident/Ticks.antt =====
-- A whole tick: the incidents, and then the baselines.
use cluster_recorder.Prelude.{
  ℕ, ◌-◌, ◌≡◌, refl, sym, ap, ◌∙◌, String, Bool, true, false, List, [], ◌∷◌, all, if◌then◌else◌,
}
use mathlib.Core.Path.{subst}
use cluster_recorder.Config.{Config}
use cluster_recorder.Dict.{Dict}
use cluster_recorder.Sample.{Time}
use cluster_recorder.Store.Tables.{Tables, SnapshotRow, IncidentRow, ms}
use cluster_recorder.Store.Db.{
  ok, healthy, Action, pure, statement, ◌>>=◌, Keeps, Keeps-pure, Keeps-statement, Keeps-bind,
}
use cluster_recorder.Store.Triples.{Triple, Triple-imp, Triple-bind, Triple-Keeps}
use cluster_recorder.Store.Snapshots.{latest_row}
use cluster_recorder.Store.Incidents.{
  Incident, incidents as incidents_of, open_incident, insert_incident, set_incident_pods,
  close_incident,
}
use cluster_recorder.Store.Pods.{crash_loops_since, pod}
use cluster_recorder.Incident.{
  is_unsteady, close_if_steady, open_new, follow, open_or_follow, incidents, baseline, tick,
}
use cluster_recorder.Incident.Quiet.{is_quiet, baseline_unquiet}
use cluster_recorder.Incident.Marks.{both_flagged, evaluated, baseline_marks}

-- An action that keeps `P`, whichever statements fail, and succeeds when none does.
record Fine {A : Type 0} (P : Tables → Type 0) (m : Action A) : Type 0 where
  keeps : Keeps P m
  succeeds : (t : Tables) → P t → (a : A) × (u : Tables) × (m (healthy t) ≡ (ok a, healthy u)) × P u

module _ {P : Tables → Type 0} where
  Fine-pure : {A : Type 0} (a : A) → Fine P (pure a)
  Fine-pure a = record { keeps = Keeps-pure a; succeeds = λ t h. (a, t, refl, h) }

  Fine-statement :
      {A : Type 0} (a : Tables → A) (f : Tables → Tables)
      → ((t : Tables) → P t → P (f t))
      → Fine P (statement a f)
  unfolding statement
  Fine-statement a f k = record {
    keeps = Keeps-statement a f k;
    succeeds = λ t h. (a t, f t, refl, k t h);
  }

  Fine-if :
      {A : Type 0} (b : Bool) (m n : Action A) → Fine P m → Fine P n → Fine P (if b then m else n)
  Fine-if true m n fm fn = fm
  Fine-if false m n fm fn = fn

  Fine-bind :
      {A B : Type 0} (m : Action A) (f : A → Action B)
      → Fine P m
      → ((a : A) → Fine P (f a))
      → Fine P (m >>= f)
  unfolding ◌>>=◌
  Fine-bind m f fm ff = record {
    keeps = Keeps-bind m f fm.keeps (λ a. (ff a).keeps);
    succeeds = λ t h.
        let (a, u, e, k) = fm.succeeds t h in
        let (b, v, e', k') = (ff a).succeeds u k in (b, v, rw e e', k');
  }

module _ (cfg : Config) (now : Time) (t : Tables) where
  -- Nothing but the incidents has changed.
  abbrev pub Aside : Tables → Type 0
  Aside u = u ≡ record t { incidents = u.incidents; next_incident = u.next_incident }

  with_incidents :
      (u : Tables) (rows : List IncidentRow) (n : ℕ)
      → Aside u
      → Aside (record u { incidents = rows; next_incident = n })
  with_incidents u rows n h =
      ap (λ (v : Tables). record v { incidents = rows; next_incident = n }) h

  close_if_steady-Fine :
      (id : ℕ) (keys : List String) → Fine Aside (close_if_steady cfg now id keys)
  unfolding close_if_steady pod close_incident
  close_if_steady-Fine id [] = Fine-statement _ _ (λ u h. with_incidents u _ _ h)
  close_if_steady-Fine id (key ∷ keys) = Fine-bind (pod key) _ (Fine-statement _ _ (λ u h. h)) λ p.
      Fine-if (is_unsteady now cfg.baseline_stable p) _ _ (Fine-pure tt)
        (close_if_steady-Fine id keys)

  open_or_follow-Fine :
      (incs : List Incident) (crashing : Dict Time)
      → Fine Aside (open_or_follow cfg now incs crashing)
  unfolding open_or_follow open_new open_incident insert_incident follow set_incident_pods
  open_or_follow-Fine [] crashing =
      Fine-if _ _ _ (Fine-pure tt)
        (Fine-bind _ _ (Fine-statement _ _ (λ u h. with_incidents u _ _ h)) λ id. Fine-pure tt)
  open_or_follow-Fine (inc ∷ incs) crashing = Fine-if _ _ _ (close_if_steady-Fine _ _) (
      Fine-bind (set_incident_pods inc.id _) _ (Fine-statement _ _ (λ u h. with_incidents u _ _ h))
        λ _. close_if_steady-Fine _ _)

  incidents-Fine : Fine Aside (incidents cfg now)
  unfolding incidents crash_loops_since incidents_of
  incidents-Fine = Fine-bind _ _ (Fine-statement _ _ (λ u h. h)) λ crashing.
      Fine-bind _ _ (Fine-statement _ _ (λ u h. h)) λ incs. open_or_follow-Fine incs crashing

  same_quiet : (u : Tables) (since : ℕ) → Aside u → is_quiet u since ≡ is_quiet t since
  unfolding latest_row
  same_quiet u since h = ap (λ v. is_quiet v since) h

  -- Unless the cluster has been quiet for the stable window, a tick changes nothing but incidents,
  -- whichever statements fail, and so it marks no baseline.
  pub tick_unquiet :
      is_quiet t (ms (now - cfg.baseline_stable)) ≡ false
      → Triple (λ u. u ≡ t) (tick cfg now) (λ _ u. Aside u) (λ _ u. Aside u)
  unfolding tick
  tick_unquiet h =
      Triple-bind {R = λ _ u. Aside u} (incidents cfg now) (λ _. baseline cfg now)
        (record { at = λ db e. (Triple-Keeps _ incidents-Fine.keeps).at db (rw e refl) })
        λ _. record {
          at = λ db k.
              (Triple-imp (λ _ v e. subst Aside (sym e) k) (λ _ v e. subst Aside (sym e) k)
                  (baseline_unquiet cfg now db.tables (same_quiet db.tables _ k ∙ h))).at
                db refl;
        }

  -- On a healthy database, after a quiet window, a tick succeeds, and then the latest snapshot of every
  -- node and both sources is a baseline, where there is one.
  pub tick_marks :
      is_quiet t (ms (now - cfg.baseline_stable)) ≡ true
      → (u : Tables) × (tick cfg now (healthy t) ≡ (ok tt, healthy u))
        × (all (λ (s : SnapshotRow). both_flagged u s.node) t.snapshots ≡ true)
  unfolding tick ◌>>=◌
  tick_marks h =
      let (a, u, e, k) = incidents-Fine.succeeds t refl in
      let (run, flagged) = baseline_marks cfg now u (same_quiet u _ k ∙ h) in
      (
        evaluated cfg now u,
        rw e run,
        subst
            (λ (rs : List SnapshotRow).
              all (λ (s : SnapshotRow). both_flagged (evaluated cfg now u) s.node) rs ≡ true)
            (ap (λ (v : Tables). v.snapshots) k) flagged,
      )
