-- ===== src/Api/Posting.antt =====
-- What a posted sample can do to the store.
use cluster_recorder.Prelude.{
  ◌≡◌, ◌≢◌, refl, ◌∙◌, false, Option, none, some, List, [], ◌∷◌, ◌++◌, arith, select, length,
  map_option, Option-cases, inl, inr,
}
use cluster_recorder.Sample.{Time, Snapshot, Invalid, validate_snapshot, source_agent}
use cluster_recorder.Diff.{Change}
use cluster_recorder.Store.Tables.{Tables, SnapshotRow}
use cluster_recorder.Store.Db.{
  Db, Result, ok, err, Action, pure, statement, Keeps, Keeps-pure, Keeps-statement, Keeps-bind,
  Keeps-query,
}
use cluster_recorder.Store.Snapshots.{
  insert_snapshot, row_of, put_snapshot, latest_snapshot, latest_row, is_of, scan_snapshot,
}
use cluster_recorder.Store.Changes.{insert_change, put_changes}
use cluster_recorder.Store.Prune.Dropping.{baselines}
use cluster_recorder.Api.{
  Response, failure, accepted, answer, attempt, posted, agent_changes, store_posted, checked,
  agent_snapshot,
}

-- A sample that is not well formed is refused, and nothing is read or written.
pub agent_snapshot_refused :
    (now : Time) (s : Snapshot) (db : Db)
    → validate_snapshot (posted now s) ≢ none
    → agent_snapshot now (some s) db ≡ (ok (failure 400), db)
unfolding agent_snapshot
agent_snapshot_refused now s db bad = elim (Option-cases (validate_snapshot (posted now s))) [
  | inl fine ↦ absurd (bad fine)
  | inr (e, wrong) ↦ rw wrong refl
]

module _ (P : Tables → Type 0) where
  answer-Keeps :
      {A : Type 0}
      → (r : Result A) (k : A → Action Response) (db : Db) → ((a : A) → Keeps P (k a))
      → P db.tables
      → P (answer r k db).1.tables
  unfolding answer
  answer-Keeps (ok a) k db kk h = (kk a).at db h
  answer-Keeps (err e) k db kk h = h

  Keeps-attempt :
      {A : Type 0}
      → (m : Action A) (k : A → Action Response) → Keeps P m
      → ((a : A) → Keeps P (k a))
      → Keeps P (attempt m k)
  unfolding attempt
  Keeps-attempt m k km kk = record {
    at = λ db h. let (r, db') = m db in answer-Keeps r k db' kk (km.at db h);
  }

select-append_false :
    (rs : List SnapshotRow) (r : SnapshotRow)
    → r.baseline ≡ false
    → select (λ (r : SnapshotRow). r.baseline) (rs ++ r ∷ [])
      ≡ select (λ (r : SnapshotRow). r.baseline) rs
select-append_false [] r h = ground arith
select-append_false (s ∷ rs) r h = ground (arith, select-append_false rs r h)

module _ (bs : List SnapshotRow) where
  abbrev SameBaselines : Tables → Type 0
  SameBaselines t = baselines t ≡ bs

  put_snapshot-Keeps : (s : Snapshot) → s.baseline ≡ false → Keeps SameBaselines (put_snapshot s)
  unfolding put_snapshot insert_snapshot row_of
  put_snapshot-Keeps s h =
      Keeps-bind (statement (λ t. t.next_snapshot) (insert_snapshot s))
        (λ id. pure (record s { id = id }))
        (Keeps-statement (λ t. t.next_snapshot) (insert_snapshot s)
          (λ t e. select-append_false t.snapshots (row_of t.next_snapshot s) h ∙ e))
        (λ id. Keeps-pure (record s { id = id }))

  put_changes-Keeps : (cs : List Change) → Keeps SameBaselines (put_changes cs)
  unfolding put_changes insert_change
  put_changes-Keeps [] = Keeps-pure tt
  put_changes-Keeps (c ∷ cs) =
      Keeps-bind (statement (λ t. tt) (insert_change c)) (λ _. put_changes cs)
        (Keeps-statement (λ t. tt) (insert_change c) (λ t e. e)) (λ _. put_changes-Keeps cs)

  store_posted-Keeps : (s : Snapshot) → s.baseline ≡ false → Keeps SameBaselines (store_posted s)
  unfolding store_posted latest_snapshot
  store_posted-Keeps s h =
      Keeps-attempt SameBaselines (latest_snapshot s.node source_agent) _
        (Keeps-query (λ t. map_option scan_snapshot (latest_row (is_of s.node source_agent) t)))
        λ prev. Keeps-attempt SameBaselines (put_snapshot s) _ (put_snapshot-Keeps s h) λ stored.
          Keeps-attempt SameBaselines (put_changes (agent_changes prev stored)) _
            (put_changes-Keeps (agent_changes prev stored))
            λ _. Keeps-pure (accepted stored.id (length (agent_changes prev stored)))

  checked-Keeps :
      (o : Option Invalid) (s : Snapshot) → s.baseline ≡ false → Keeps SameBaselines (checked o s)
  unfolding checked
  checked-Keeps none s h = store_posted-Keeps s h
  checked-Keeps (some e) s h = Keeps-pure (failure 400)

  -- Whatever is posted and whichever statements fail, the healthy baselines stay as they are: a client
  -- can neither add one nor remove one.
  pub agent_snapshot_baselines :
      (now : Time) (body : Option Snapshot) → Keeps SameBaselines (agent_snapshot now body)
  unfolding agent_snapshot posted
  agent_snapshot_baselines now none = Keeps-pure (failure 400)
  agent_snapshot_baselines now (some s) =
      checked-Keeps (validate_snapshot (posted now s)) (posted now s) refl
