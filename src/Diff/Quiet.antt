-- ===== src/Diff/Quiet.antt =====
-- When `Snapshots` reports nothing.
use cluster_recorder.Prelude.{◌≡◌, refl, ap, ◌∙◌, true, String, Option, none, some, [], arith}
use cluster_recorder.Prelude.Order.{text_order}
use cluster_recorder.Prelude.Sorting.{find_by, Ascends-ext}
use cluster_recorder.Dict.{get, IsMap}
use cluster_recorder.Sample.{Field, Snapshot, equal, fields_equal}
use cluster_recorder.Sample.Equal.{equal_iff}
use cluster_recorder.Sample.Maps.{SameEntry, fields_equal_iff}
use cluster_recorder.Diff.{classify, change_of, sampled, change_at, snapshots}
use cluster_recorder.Diff.Records.{by_field, find_by-snapshots, snapshots-Ascends}

-- Two fields that are equal make no change.
classify-equal : (f g : Field) → equal f g ≡ true → classify f g ≡ none
unfolding classify equal
classify-equal f g h = ground arith

change_of_same :
    (cur : Snapshot) (k : String) (x y : Option Field)
    → SameEntry x y
    → change_of cur k (sampled x) (sampled y) (classify (sampled x) (sampled y)) ≡ none
unfolding change_of sampled classify
change_of_same cur k none none s = refl
change_of_same cur k none (some g) s = absurd s
change_of_same cur k (some f) none s = absurd s
change_of_same cur k (some f) (some g) s =
    ap (change_of cur k f g) (classify-equal f g ((equal_iff f g).1 s))

change_at_same :
    (prev cur : Snapshot) (k : String)
    → SameEntry (get prev.fields k) (get cur.fields k)
    → change_at prev cur k ≡ none
unfolding change_at
change_at_same prev cur k s = change_of_same cur k (get prev.fields k) (get cur.fields k) s

-- Snapshots whose field maps are equal, as the collector tests before it writes, give no changes.
pub snapshots_quiet :
    (prev cur : Snapshot)
    → IsMap prev.fields
    → IsMap cur.fields
    → fields_equal prev.fields cur.fields ≡ true
    → snapshots (some prev) (some cur) ≡ []
unfolding find_by
snapshots_quiet prev cur dp dc h =
    Ascends-ext by_field (snapshots (some prev) (some cur)) []
      (snapshots-Ascends (some prev) (some cur)) tt
      λ k.
        find_by-snapshots prev cur k
        ∙ change_at_same prev cur k ((fields_equal_iff prev.fields cur.fields dp dc).0 h k)
        ∙ find_nothing k
  where
    find_nothing : (k : String) → none ≡ find_by by_field k []
    find_nothing k = refl
