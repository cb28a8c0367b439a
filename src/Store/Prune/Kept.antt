-- ===== src/Store/Prune/Kept.antt =====
-- `Prune`: what it deletes and what it must not.
use cluster_recorder.Prelude.{
  ℕ, ◌-◌, ◌≡◌, refl, ap, Bool, true, ◌||◌, List, Option, none, some, arith, leb, ltb, not, ◌&&◌,
  select, select-select, select_same,
}
use cluster_recorder.Sample.{Time}
use cluster_recorder.Store.Tables.{
  Tables, Event, PodTransition, ChangeRow, SnapshotRow, IncidentRow, ms,
}
use cluster_recorder.Store.Db.{Db, Action, StoreError, exec, ◌>>◌}
use cluster_recorder.Store.Triples.{Outcome, Triple, Triple-bind, Triple-statement}
use cluster_recorder.Store.Prune.{
  Retention, prune_events, prune_transitions, prune_changes, prune_snapshots, prune_incidents,
  closed_before, prune,
}

-- An incident that is open, or was closed in the window.
abbrev closed_since : ℕ → Option ℕ → Bool
closed_since cut none = true
closed_since cut (some c) = leb cut c

module _ (now : Time) (r : Retention) where
  abbrev is_protected_event : Event → Bool
  is_protected_event e = leb (ms (now - r.events)) e.last

  abbrev is_protected_transition : PodTransition → Bool
  is_protected_transition p = leb (ms (now - r.events)) p.time

  abbrev is_protected_change : ChangeRow → Bool
  is_protected_change c = leb (ms (now - r.changes)) c.ts

  abbrev is_protected_snapshot : SnapshotRow → Bool
  is_protected_snapshot s = leb (ms (now - r.snapshots)) s.ts || s.baseline

  abbrev is_protected_incident : IncidentRow → Bool
  is_protected_incident i = closed_since (ms (now - r.changes)) i.closed_ts

  -- The part of the tables that retention protects: every record within its window, every baseline
  -- and every open incident.
  abbrev pub protected : Tables → Tables
  protected t = record t {
    events = select is_protected_event t.events;
    pod_transitions = select is_protected_transition t.pod_transitions;
    changes = select is_protected_change t.changes;
    snapshots = select is_protected_snapshot t.snapshots;
    incidents = select is_protected_incident t.incidents;
  }

  event_test : (e : Event) → not (ltb e.last (ms (now - r.events))) ≡ is_protected_event e
  event_test e = ground arith

  transition_test :
      (p : PodTransition) → not (ltb p.time (ms (now - r.events))) ≡ is_protected_transition p
  transition_test p = ground arith

  change_test : (c : ChangeRow) → not (ltb c.ts (ms (now - r.changes))) ≡ is_protected_change c
  change_test c = ground arith

  snapshot_test :
      (s : SnapshotRow)
      → not (ltb s.ts (ms (now - r.snapshots)) && not s.baseline) ≡ is_protected_snapshot s
  snapshot_test s = ground arith

  closed_test : (cut : ℕ) (c : Option ℕ) → not (closed_before cut c) ≡ closed_since cut c
  unfolding closed_before
  closed_test cut none = refl
  closed_test cut (some c) = ground arith

  -- What the statements leave, one after the other.
  abbrev after_events : Tables → Tables
  after_events t = record t { events = select is_protected_event t.events }

  abbrev after_transitions : Tables → Tables
  after_transitions t = record (after_events t) {
    pod_transitions = select is_protected_transition t.pod_transitions;
  }

  abbrev after_changes : Tables → Tables
  after_changes t = record (after_transitions t) { changes = select is_protected_change t.changes }

  abbrev after_snapshots : Tables → Tables
  after_snapshots t = record (after_changes t) {
    snapshots = select is_protected_snapshot t.snapshots;
  }

  events-again :
      (es : List Event)
      → select is_protected_event (select is_protected_event es) ≡ select is_protected_event es
  events-again es = select-select is_protected_event is_protected_event es (λ e h. h)

  transitions-again :
      (ps : List PodTransition)
      → select is_protected_transition (select is_protected_transition ps)
        ≡ select is_protected_transition ps
  transitions-again ps = select-select is_protected_transition is_protected_transition ps (λ e h. h)

  changes-again :
      (cs : List ChangeRow)
      → select is_protected_change (select is_protected_change cs) ≡ select is_protected_change cs
  changes-again cs = select-select is_protected_change is_protected_change cs (λ e h. h)

  snapshots-again :
      (ss : List SnapshotRow)
      → select is_protected_snapshot (select is_protected_snapshot ss)
        ≡ select is_protected_snapshot ss
  snapshots-again ss = select-select is_protected_snapshot is_protected_snapshot ss (λ e h. h)

  incidents-again :
      (is : List IncidentRow)
      → select is_protected_incident (select is_protected_incident is)
        ≡ select is_protected_incident is
  incidents-again is = select-select is_protected_incident is_protected_incident is (λ e h. h)

  module _ (t : Tables) where
    prune_events-now : prune_events (ms (now - r.events)) t ≡ after_events t
    unfolding prune_events
    prune_events-now =
        ap (λ es. record t { events = es })
          (select_same is_protected_event (λ (e : Event). not (ltb e.last (ms (now - r.events))))
            t.events event_test)

    prune_transitions-now :
        prune_transitions (ms (now - r.events)) (after_events t) ≡ after_transitions t
    unfolding prune_transitions
    prune_transitions-now =
        ap (λ ps. record (after_events t) { pod_transitions = ps })
          (select_same is_protected_transition
            (λ (e : PodTransition). not (ltb e.time (ms (now - r.events)))) t.pod_transitions
            transition_test)

    prune_changes-now : prune_changes (ms (now - r.changes)) (after_transitions t) ≡ after_changes t
    unfolding prune_changes
    prune_changes-now =
        ap (λ cs. record (after_transitions t) { changes = cs })
          (select_same is_protected_change
            (λ (c : ChangeRow). not (ltb c.ts (ms (now - r.changes)))) t.changes change_test)

    prune_snapshots-now :
        prune_snapshots (ms (now - r.snapshots)) (after_changes t) ≡ after_snapshots t
    unfolding prune_snapshots
    prune_snapshots-now =
        ap (λ ss. record (after_changes t) { snapshots = ss })
          (select_same is_protected_snapshot
            (λ (s : SnapshotRow). not (ltb s.ts (ms (now - r.snapshots)) && not s.baseline))
            t.snapshots snapshot_test)

    prune_incidents-now : prune_incidents (ms (now - r.changes)) (after_snapshots t) ≡ protected t
    unfolding prune_incidents
    prune_incidents-now =
        ap (λ is. record (after_snapshots t) { incidents = is })
          (select_same is_protected_incident
            (λ (i : IncidentRow). not (closed_before (ms (now - r.changes)) i.closed_ts))
            t.incidents (λ i. closed_test (ms (now - r.changes)) i.closed_ts))

  -- A statement that takes the tables from `a` to `b`.
  module _ (t : Tables) where
    abbrev StillProtected : StoreError → Tables → Type 0
    StillProtected e u = protected u ≡ protected t

    step :
        (f : Tables → Tables) (a b : Tables) (rest : Action (Unit {0}))
        → f a ≡ b
        → protected a ≡ protected t
        → Triple (λ u. u ≡ b) rest (λ _ u. u ≡ protected t) StillProtected
        → Triple (λ u. u ≡ a) (exec f >> rest) (λ _ u. u ≡ protected t) StillProtected
    step f a b rest fab same then_rest =
        Triple-bind {R = λ _ u. u ≡ b} (exec f) (λ _. rest)
          (Triple-statement (λ u. tt) f (λ u e. rw e fab) (λ u e. rw e same)) (λ _. then_rest)

    prune-Triple : Triple (λ u. u ≡ t) (prune now r) (λ _ u. u ≡ protected t) StillProtected
    unfolding prune
    prune-Triple =
        let es = events-again t.events in
        let ps = transitions-again t.pod_transitions in
        let cs = changes-again t.changes in
        let ss = snapshots-again t.snapshots in
        let is = incidents-again t.incidents in
        step (prune_events (ms (now - r.events))) t (after_events t) _ (prune_events-now t) refl (
          step (prune_transitions (ms (now - r.events))) (after_events t) (after_transitions t) _
            (prune_transitions-now t) (rw es refl)
            (step (prune_changes (ms (now - r.changes))) (after_transitions t) (after_changes t) _
              (prune_changes-now t) (rw (es, ps) refl)
              (step (prune_snapshots (ms (now - r.snapshots))) (after_changes t) (after_snapshots t)
                _ (prune_snapshots-now t) (rw (es, ps, cs) refl)
                (step (prune_incidents (ms (now - r.changes))) (after_snapshots t) (protected t) _
                  (prune_incidents-now t) (rw (es, ps, cs, ss) refl)
                  (step (λ u. u) (protected t) (protected t) _ refl (rw (es, ps, cs, ss, is) refl)
                    (Triple-statement (λ u. tt) (λ u. u) (λ u e. e)
                      (λ u e. rw (e, es, ps, cs, ss, is) refl)))))))

  -- Whichever statements fail, `Prune` deletes nothing that is protected; and when it succeeds,
  -- what is protected is all that is left.
  pub prune_keeps :
      (db : Db)
      → Outcome
          (λ _ u. u ≡ protected db.tables)
          (λ _ u. protected u ≡ protected db.tables)
          (prune now r db).0
          (prune now r db).1.tables
  prune_keeps db = (prune-Triple db.tables).at db refl
