-- ===== src/Api/Requests/Answers.antt =====
-- What a request can do to the store, and that it is answered.
use cluster_recorder.Prelude.{
  ◌≡◌, refl, String, Bool, true, false, Option, none, some, List, [], ◌∷◌, ◌++◌, if◌then◌else◌, ◌⊎◌,
  inl, inr, Bool-cases,
}
use cluster_recorder.Sample.{Time, Snapshot, Invalid, validate_snapshot, source_api, source_agent}
use cluster_recorder.Store.Tables.{Tables}
use cluster_recorder.Store.Db.{Db, Result, ok, err, failed, Action, pure, Keeps}
use cluster_recorder.Store.Halts.{
  Halts, Halts-pure, Halts-statement, Halts-bind, Runs, Runs-pure, Runs-query, Runs-bind, Stopped,
  Stopped-append, has_failure,
}
use cluster_recorder.Store.Events.{EventQuery, events as events_of}
use cluster_recorder.Store.Pods.{pod_transitions}
use cluster_recorder.Store.Changes.{changes, put_changes}
use cluster_recorder.Store.Timeline.{timeline as timeline_of}
use cluster_recorder.Store.Incidents.{Incident, incidents as incidents_of}
use cluster_recorder.Store.Snapshots.{
  put_snapshot, latest_snapshot, baseline, snapshots as snapshots_of,
}
use cluster_recorder.Store.Snapshots.Nodes.{nodes as nodes_of}
use cluster_recorder.Dict.{Dict}
use cluster_recorder.Diff.{Change}
use cluster_recorder.Api.{
  Response, failure, answer, checked, posted, agent_snapshot, SourceDiff, store_posted,
  incident_list, attempt, with_current, diff_sources, diff, attach_changes, incidents,
}
use cluster_recorder.Api.Requests.{
  Server, Request, get_healthz, get_readyz, get_openapi, get_events, get_nodes, get_timeline,
  get_snapshots, get_diff, get_incidents, post_agent_snapshot, get_agent_hints, Query, time_range,
  within, events, nodes, timeline, snapshots, incidents_in, agent_hints, readyz, handle,
}

-- The requests that only read.
abbrev pub is_get : Request → Bool
is_get (post_agent_snapshot body) = false
is_get _ = true

-- An action that keeps `P` of the tables, whichever statements fail, and that answers with 500 when one
-- of the statements that it has run failed.
pub record Served (P : Tables → Type 0) (m : Action Response) : Type 0 where
  pub at :
      (db : Db)
      → P db.tables
      → P (m db).1.tables × Stopped (m db).0 db.faults (ok (failure 500)) (m db).1.faults

module _ (P : Tables → Type 0) where
  Served-pure : (r : Response) → Served P (pure r)
  Served-pure r = record { at = λ db h. (h, ([], refl, λ e. absurd (cc))) }

  Served-if :
      (b : Bool) (m n : Action Response) → Served P m → Served P n → Served P (if b then m else n)
  Served-if true m n sm sn = sm
  Served-if false m n sm sn = sn

  answer-Served :
      {A : Type 0} (fs : List Bool) (r : Result A) (k : A → Action Response) (db : Db)
      → ((a : A) → Served P (k a))
      → P db.tables
      → Stopped r fs (err failed) db.faults
      → P (answer r k db).1.tables
        × Stopped (answer r k db).0 fs (ok (failure 500)) (answer r k db).1.faults
  unfolding answer
  answer-Served fs (ok a) k db sk h s =
      let (kept, stopped) = (sk a).at db h in
      (
        kept,
        Stopped-append fs db.faults _ (ok a) (err failed) _ (ok (failure 500)) (λ e. absurd (cc)) s
            stopped,
      )
  answer-Served fs (err e) k db sk h (ran, eq, s) = (h, (ran, eq, λ some_failed. refl))

  -- An error of the store is answered too.
  Served-attempt :
      {A : Type 0} (m : Action A) (k : A → Action Response)
      → Runs P m
      → ((a : A) → Served P (k a))
      → Served P (attempt m k)
  unfolding attempt
  Served-attempt m k rm sk = record {
    at = λ db h.
        let (r, db') = m db in
        answer-Served db.faults r k db' sk (rm.keeps.at db h) (rm.halts.at db);
  }

  Served-within :
      (range : Option (Time × Time)) (k : Time → Time → Action Response)
      → ((from to : Time) → Served P (k from to))
      → Served P (within range k)
  unfolding within
  Served-within none k sk = Served-pure (failure 400)
  Served-within (some (from, to)) k sk = sk from to

  -- A handler that makes one query and answers.
  Served-answer :
      {A : Type 0} (m : Action A) (f : A → Response)
      → Runs P m
      → Served P (attempt m (λ a. pure (f a)))
  Served-answer m f km = Served-attempt m (λ a. pure (f a)) km (λ a. Served-pure (f a))

  Runs-events : (q : EventQuery) → Runs P (events_of q)
  unfolding events_of
  Runs-events q = Runs-query _

  Runs-changes : (node : String) (from to : Time) → Runs P (changes node from to)
  unfolding changes
  Runs-changes node from to = Runs-query _

  Runs-transitions : (node : String) (from to : Time) → Runs P (pod_transitions node from to)
  unfolding pod_transitions
  Runs-transitions node from to = Runs-query _

  Runs-timeline : (node : String) (from to : Time) → Runs P (timeline_of node from to)
  unfolding timeline_of
  Runs-timeline node from to = Runs-bind (changes node from to) _ (Runs-changes node from to) λ cs.
      Runs-bind (events_of _) _ (Runs-events _) λ es.
        Runs-bind (pod_transitions node from to) _ (Runs-transitions node from to) λ ts. Runs-pure _

  Served-attach : (done incs : List Incident) → Served P (attach_changes done incs)
  unfolding attach_changes
  Served-attach done [] = Served-pure (incident_list done)
  Served-attach done (inc ∷ incs) =
      Served-attempt (changes "" _ _) _ (Runs-changes "" _ _) λ cs. Served-attach _ incs

  Served-incidents : (from to : Time) (d o : Bool) → Served P (incidents from to d o)
  unfolding incidents incidents_of
  Served-incidents from to d o = Served-attempt _ _ (Runs-query _) (Served-attach [])

  Served-with_current :
      (node src : String) (cur : Option Snapshot) (out : Dict SourceDiff)
      (k : Dict SourceDiff → Action Response)
      → ((out : Dict SourceDiff) → Served P (k out))
      → Served P (with_current node src cur out k)
  unfolding with_current baseline
  Served-with_current node src none out k kk = kk out
  Served-with_current node src (some cur) out k kk =
      Served-attempt (baseline node src) _ (Runs-query _) λ base. kk _

  Served-diff_sources :
      (node : String) (srcs : List String) (out : Dict SourceDiff)
      → Served P (diff_sources node srcs out)
  unfolding diff_sources latest_snapshot
  Served-diff_sources node [] out = Served-pure _
  Served-diff_sources node (src ∷ srcs) out =
      Served-attempt (latest_snapshot node src) _ (Runs-query _)
        λ cur. Served-with_current node src cur out _ (Served-diff_sources node srcs)

  -- A GET keeps whatever holds of the tables.
  handle-Served :
      (s : Server) (now : Time) (r : Request) → is_get r ≡ true → Served P (handle s now r)
  unfolding handle events nodes timeline snapshots incidents_in agent_hints readyz diff nodes_of
      snapshots_of
  handle-Served s now get_healthz h = Served-pure _
  handle-Served s now get_readyz h = Served-if _ _ _ (Served-pure _) (Served-pure _)
  handle-Served s now get_openapi h = Served-pure _
  handle-Served s now (get_events q) h =
      Served-within (time_range q now) _ λ from to. Served-answer (events_of _) _ (Runs-events _)
  handle-Served s now get_nodes h = Served-answer nodes_of _ (Runs-query _)
  handle-Served s now (get_timeline node q) h =
      Served-within (time_range q now) _
        λ from to. Served-answer (timeline_of node from to) _ (Runs-timeline node from to)
  handle-Served s now (get_snapshots node q) h =
      Served-within (time_range q now) _
        λ from to. Served-answer (snapshots_of node from to) _ (Runs-query _)
  handle-Served s now (get_diff node against) h =
      Served-if _ _ _ (Served-pure _) (Served-diff_sources node (source_api ∷ source_agent ∷ []) [])
  handle-Served s now (get_incidents q) h =
      Served-within (time_range q now) _ λ from to. Served-incidents from to _ _
  handle-Served s now (post_agent_snapshot body) h = absurd (cc)
  handle-Served s now (get_agent_hints node) h = Served-if _ _ _ (Served-pure _) (Served-pure _)

-- A GET leaves the tables as they are, whichever statements fail.
pub handle_read_only :
    (s : Server) (now : Time) (r : Request) (db : Db)
    → is_get r ≡ true
    → (handle s now r db).1.tables ≡ db.tables
handle_read_only s now r db h = ((handle-Served (λ t. t ≡ db.tables) s now r h).at db refl).0

put_snapshot-Halts : (s : Snapshot) → Halts (put_snapshot s)
unfolding put_snapshot
put_snapshot-Halts s = Halts-bind _ _ (Halts-statement _ _) λ id. Halts-pure _

put_changes-Halts : (cs : List Change) → Halts (put_changes cs)
unfolding put_changes
put_changes-Halts [] = Halts-pure tt
put_changes-Halts (c ∷ cs) = Halts-bind _ _ (Halts-statement _ _) λ _. put_changes-Halts cs

runs : {A : Type 0} {P : Tables → Type 0} {m : Action A} → Keeps P m → Halts m → Runs P m
runs k h = record { keeps = k; halts = h }

-- Every request keeps what the statements of a posted sample keep.
module _ (P : Tables → Type 0) (stores : (s : Snapshot) → Keeps P (put_snapshot s))
    (records : (cs : List Change) → Keeps P (put_changes cs)) where
  checked-Served : (o : Option Invalid) (snap : Snapshot) → Served P (checked o snap)
  unfolding checked store_posted latest_snapshot
  checked-Served none snap =
      Served-attempt P (latest_snapshot snap.node source_agent) _ (Runs-query _) λ prev.
        Served-attempt P (put_snapshot snap) _ (runs (stores snap) (put_snapshot-Halts snap))
          λ stored.
            Served-attempt P (put_changes _) _ (runs (records _) (put_changes-Halts _))
              λ _. Served-pure P _
  checked-Served (some e) snap = Served-pure P (failure 400)

  post-Served : (now : Time) (body : Option Snapshot) → Served P (agent_snapshot now body)
  unfolding agent_snapshot
  post-Served now none = Served-pure P (failure 400)
  post-Served now (some s) = checked-Served (validate_snapshot (posted now s)) (posted now s)

  pub served : (s : Server) (now : Time) (r : Request) → Served P (handle s now r)
  unfolding handle
  served s now (post_agent_snapshot body) = post-Served now body
  served s now get_healthz = handle-Served P s now get_healthz refl
  served s now get_readyz = handle-Served P s now get_readyz refl
  served s now get_openapi = handle-Served P s now get_openapi refl
  served s now (get_events q) = handle-Served P s now (get_events q) refl
  served s now get_nodes = handle-Served P s now get_nodes refl
  served s now (get_timeline node q) = handle-Served P s now (get_timeline node q) refl
  served s now (get_snapshots node q) = handle-Served P s now (get_snapshots node q) refl
  served s now (get_diff node against) = handle-Served P s now (get_diff node against) refl
  served s now (get_incidents q) = handle-Served P s now (get_incidents q) refl
  served s now (get_agent_hints node) = handle-Served P s now (get_agent_hints node) refl

abbrev Anything : Tables → Type 0
Anything t = Unit {0}

Keeps-Anything : {A : Type 0} (m : Action A) → Keeps Anything m
Keeps-Anything m = record { at = λ db h. tt }

-- A request during which a statement fails, whichever it is, is answered with 500: of the outcomes that
-- the statements were to have, those of the statements that have run are gone, and if one of these was a
-- failure, the answer is 500.
pub handle_failure :
    (s : Server) (now : Time) (r : Request) (db : Db)
    → (ran : List Bool) × (db.faults ≡ ran ++ (handle s now r db).1.faults)
      × ((has_failure ran ≡ false) ⊎ ((handle s now r db).0 ≡ ok (failure 500)))
handle_failure s now r db =
    let (ran, split, stopped) =
      ((served Anything (λ s. Keeps-Anything _) (λ cs. Keeps-Anything _) s now r).at db tt).1 in
    (
      ran,
      split,
      elim (Bool-cases (has_failure ran)) [
        | inl some_failure ↦ inr (stopped some_failure)
        | inr no_failure ↦ inl no_failure
      ],
    )

-- A range that cannot be read, or that ends before it begins, is answered with 400 by all handlers that
-- take one, and no statement is run.
pub handle_bad_range :
    (s : Server) (now : Time) (q : Query) (node : String) (db : Db)
    → time_range q now ≡ none
    → (handle s now (get_events q) db ≡ (ok (failure 400), db))
      × (handle s now (get_timeline node q) db ≡ (ok (failure 400), db))
      × (handle s now (get_snapshots node q) db ≡ (ok (failure 400), db))
      × (handle s now (get_incidents q) db ≡ (ok (failure 400), db))
unfolding handle events timeline snapshots incidents_in
handle_bad_range s now q node db h = (rw h refl, rw h refl, rw h refl, rw h refl)
