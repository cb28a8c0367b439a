-- ===== src/Informers/Collector/Resync.antt =====
-- `RecordNode` under the informer's resyncs, which report a node again although it has not changed.
use cluster_recorder.Prelude.{
  ◌≡◌, refl, sym, ◌∙◌, String, Bool, true, false, Option, none, some, List, [], ◌∷◌, map_option,
  Bool-cases, inl, inr, str_eq, if◌then◌else◌,
}
use cluster_recorder.Prelude.Order.{text_order}
use cluster_recorder.Dict.{Dict, get, put, IsMap}
use cluster_recorder.Dict.Laws.{put-All, put-IsMap}
use cluster_recorder.Diff.{Change, snapshots}
use cluster_recorder.Sample.{Time, Field, Snapshot, fields_equal, source_api, present, absent}
use cluster_recorder.Sample.Encoding.{Value, IsExact, marshal, texts-IsExact}
use cluster_recorder.Sample.Stored.{encode_fields, decode_fields}
use cluster_recorder.Sample.Maps.{
  SameEntry, AllExact, fields_equal_iff, fields_equal-stored, decode_fields-IsMap,
}
use cluster_recorder.Store.Tables.{Tables, SnapshotRow}
use cluster_recorder.Store.Db.{ok, healthy, statement, ◌>>=◌}
use cluster_recorder.Store.Snapshots.{
  is_of, latest_row, latest_snapshot, scan_snapshot, insert_snapshot, put_snapshot, row_of,
}
use cluster_recorder.Store.Snapshots.Latest.{IsNumbered, IsNext, latest_row-insert_snapshot}
use cluster_recorder.Store.Changes.{insert_change, put_changes}
use cluster_recorder.Informers.{Node, Pairs}
use cluster_recorder.Informers.Nodes.{
  condition_field, put_conditions, put_text, conditions_of, condition_keys, node_fields,
  node_snapshot,
}
use cluster_recorder.Informers.Collector.{is_unchanged, record_node}

put_conditions-IsMap :
    (conds : Dict String) (keys : Pairs) (f : Dict Field)
    → IsMap f
    → IsMap (put_conditions conds keys f)
unfolding put_conditions
put_conditions-IsMap conds [] f d = d
put_conditions-IsMap conds ((key, type) ∷ keys) f d =
    put_conditions-IsMap conds keys (put f key _) (put-IsMap f key _ d)

put_text-IsMap : (f : Dict Field) (key v : String) → IsMap f → IsMap (put_text f key v)
unfolding put_text
put_text-IsMap f key v d = put-IsMap f key _ d

node_fields-IsMap : (n : Node) → IsMap (node_fields n)
unfolding node_fields
node_fields-IsMap n =
    let d0 = put_conditions-IsMap (conditions_of [] n.conditions) condition_keys [] tt in
    let d1 = put-IsMap _ "node.unschedulable" _ d0 in
    put-IsMap _ "node.taints" _ (
      put_text-IsMap _ "node.internal_ip" _ (
        put_text-IsMap _ "node.pod_cidrs" _ (
          put_text-IsMap _ "node.kubelet_version" _ (
            put_text-IsMap _ "node.container_runtime" _ (
              put_text-IsMap _ "node.os_image" _ (
                put_text-IsMap _ "node.kernel_version" _
                  (put_text-IsMap _ "node.boot_id" _ d1)))))))

abbrev Exact : Field → Type 0
Exact f = IsExact (marshal f.value)

condition-Exact : (o : Option String) → Exact (condition_field o)
unfolding condition_field marshal
condition-Exact none = tt
condition-Exact (some v) = tt

put_conditions-Exact :
    (conds : Dict String) (keys : Pairs) (f : Dict Field)
    → AllExact f
    → AllExact (put_conditions conds keys f)
unfolding put_conditions
put_conditions-Exact conds [] f h = h
put_conditions-Exact conds ((key, type) ∷ keys) f h =
    put_conditions-Exact conds keys (put f key _)
      (put-All Exact f key _ (condition-Exact (get conds type)) h)

put_text-Exact : (f : Dict Field) (key v : String) → AllExact f → AllExact (put_text f key v)
unfolding put_text marshal
put_text-Exact f key v h = put-All Exact f key _ (text (str_eq v "")) h
  where
    text : (b : Bool) → Exact (if b then absent else present (Value.text v))
    text true = tt
    text false = tt

-- The fields of a node have no numbers.
node_fields-Exact : (n : Node) → AllExact (node_fields n)
unfolding node_fields marshal
node_fields-Exact n =
    let h0 = put_conditions-Exact (conditions_of [] n.conditions) condition_keys [] tt in
    let h1 = put-All Exact _ "node.unschedulable" (present (Value.boolean n.unschedulable)) tt h0 in
    put-All Exact _ "node.taints" _ (texts-IsExact _) (
      put_text-Exact _ "node.internal_ip" _ (
        put_text-Exact _ "node.pod_cidrs" _ (
          put_text-Exact _ "node.kubelet_version" _ (
            put_text-Exact _ "node.container_runtime" _ (
              put_text-Exact _ "node.os_image" _ (
                put_text-Exact _ "node.kernel_version" _
                  (put_text-Exact _ "node.boot_id" _ h1)))))))

SameEntry-symm : (x y : Option Field) → SameEntry x y → SameEntry y x
SameEntry-symm none none s = tt
SameEntry-symm (some f) (some g) s = (sym s.0, λ p. sym (s.1 (s.0 ∙ p)))
SameEntry-symm none (some g) s = absurd s
SameEntry-symm (some f) none s = absurd s

-- What is stored of a map without numbers above 2^53 is equal to it.
stored_equal :
    (m : Dict Field)
    → IsMap m
    → AllExact m
    → fields_equal (decode_fields (encode_fields m)) m ≡ true
stored_equal m d h =
    let dec = decode_fields-IsMap m d in
    (fields_equal_iff (decode_fields (encode_fields m)) m dec d).1 (λ k.
      SameEntry-symm (get m k) (get (decode_fields (encode_fields m)) k) (
        (fields_equal_iff m (decode_fields (encode_fields m)) d dec).0 (fields_equal-stored m d h)
          k))

-- The tables with the changes added.
abbrev with_changes : List Change → Tables → Tables
with_changes [] t = t
with_changes (c ∷ cs) t = with_changes cs (insert_change c t)

put_changes-healthy :
    (cs : List Change) (t : Tables)
    → put_changes cs (healthy t) ≡ (ok tt, healthy (with_changes cs t))
unfolding put_changes statement ◌>>=◌
put_changes-healthy [] t = refl
put_changes-healthy (c ∷ cs) t = put_changes-healthy cs (insert_change c t)

latest_row-with_changes :
    (p : SnapshotRow → Bool) (cs : List Change) (t : Tables)
    → latest_row p (with_changes cs t) ≡ latest_row p t
unfolding insert_change latest_row
latest_row-with_changes p [] t = refl
latest_row-with_changes p (c ∷ cs) t = latest_row-with_changes p cs (insert_change c t)

module _ (n : Node) where
  abbrev previous : Tables → Option Snapshot
  previous t = map_option scan_snapshot (latest_row (is_of n.name source_api) t)

  -- The changes that the node's new snapshot makes.
  abbrev reported : Time → Tables → List Change
  reported now t =
      snapshots (previous t) (some (record (node_snapshot n now) { id = t.next_snapshot }))

  unchanged_later :
      (now later : Time) (prev : Option Snapshot)
      → is_unchanged prev (node_snapshot n now) ≡ is_unchanged prev (node_snapshot n later)
  unfolding is_unchanged node_snapshot
  unchanged_later now later none = refl
  unchanged_later now later (some prev) = refl

  quiet :
      (now : Time) (t : Tables)
      → is_unchanged (previous t) (node_snapshot n now) ≡ true
      → record_node n now (healthy t) ≡ (ok tt, healthy t)
  unfolding record_node latest_snapshot statement ◌>>=◌
  quiet now t h = rw h refl

  changed :
      (now : Time) (t : Tables)
      → is_unchanged (previous t) (node_snapshot n now) ≡ false
      → record_node n now (healthy t)
        ≡ (ok tt, healthy (with_changes (reported now t) (insert_snapshot (node_snapshot n now) t)))
  unfolding record_node latest_snapshot put_snapshot statement ◌>>=◌
  changed now t h = rw h (put_changes-healthy _ _)

  unchanged_after :
      (now later : Time) (t : Tables) (cs : List Change)
      → IsNumbered t
      → IsNext (node_snapshot n now) t
      → is_unchanged
          (previous (with_changes cs (insert_snapshot (node_snapshot n now) t)))
          (node_snapshot n later)
        ≡ true
  unfolding is_unchanged node_snapshot scan_snapshot row_of
  unchanged_after now later t cs numbered next =
      rw
        (
          latest_row-with_changes (is_of n.name source_api) cs
              (insert_snapshot (node_snapshot n now) t),
          latest_row-insert_snapshot (node_snapshot n now) t numbered next,
        )
        (stored_equal (node_fields n) (node_fields-IsMap n) (node_fields-Exact n))

  -- On a healthy database, whose snapshots have different ids below the counter, and none of which is of
  -- the API for this node and dated after the report: when the node is reported again as it was, the
  -- second report writes nothing, no snapshot and no change.
  pub record_node_resync :
      (now later : Time) (t : Tables)
      → IsNumbered t
      → IsNext (node_snapshot n now) t
      → let (r, db) = record_node n now (healthy t) in
        (r ≡ ok tt) × (record_node n later db ≡ (ok tt, db))
  record_node_resync now later t numbered next =
      elim (Bool-cases (is_unchanged (previous t) (node_snapshot n now))) [
        | inl same ↦
            rw (quiet now t same)
              (refl, quiet later t (sym (unchanged_later now later (previous t)) ∙ same))
        | inr differs ↦
            rw (changed now t differs)
              (refl, quiet later _ (unchanged_after now later t (reported now t) numbered next))
      ]
