-- ===== src/Tests/Samples.antt =====
-- The theorems on fields, snapshots and their differences, applied.
use cluster_recorder.Prelude.{
  ◌≡◌, refl, arith, ◌↔◌, String, true, none, some, Bool-cases, inl, inr, str_eq, eq_iff, sym, false,
}
use mathlib.Core.Path.{subst}
use cluster_recorder.Prelude.Order.{text_order}
use cluster_recorder.Prelude.Sorting.{find_by}
use cluster_recorder.Dict.{get}
use cluster_recorder.Sample.{fields_equal, validate_snapshot}
use cluster_recorder.Sample.Encoding.{
  marshal, nearest_double, rounded, scale, half_even, shortest, shortest_from,
}
use cluster_recorder.Sample.Stored.{encode_fields, decode_fields}
use cluster_recorder.Sample.Maps.{SameMap, fields_equal_iff, fields_equal-stored}
use cluster_recorder.Sample.Valid.{IsWellFormedSnapshot, validate_snapshot_iff}
use cluster_recorder.Diff.{Change, alert, snapshots}
use cluster_recorder.Diff.Records.{by_field, snapshots_order_free}
use cluster_recorder.Diff.Moves.{IsAbout, Moves, snapshots_iff}
use cluster_recorder.Tests.{before, after, again}

validate_snapshot_iff_example : (validate_snapshot before ≡ none) ↔ IsWellFormedSnapshot before
validate_snapshot_iff_example = validate_snapshot_iff before

fields_equal_iff_example :
    (fields_equal before.fields again.fields ≡ true) ↔ SameMap before.fields again.fields
fields_equal_iff_example =
    fields_equal_iff before.fields again.fields ((refl, tt), (tt, tt)) ((refl, tt), (tt, tt))

fields_equal-stored_example :
    fields_equal before.fields (decode_fields (encode_fields before.fields)) ≡ true
unfolding marshal
fields_equal-stored_example =
    fields_equal-stored before.fields ((refl, tt), (tt, tt)) (tt, (omega arith, tt))

-- 2^53 + 1 is read as 2^53, and 2^53 + 3 as 2^53 + 4; the digits of 2^60 are written with zeros.
large_numbers :
    (nearest_double 9007199254740993 ≡ 9007199254740992)
    × (nearest_double 9007199254740995 ≡ 9007199254740996)
    × (shortest 1152921504606846976 ≡ 1152921504606847000)
unfolding nearest_double rounded scale half_even shortest shortest_from
large_numbers = (refl, refl, refl)

snapshots_iff_example :
    ((c : Change) × (find_by by_field "pod_bridge" (snapshots (some before) (some after)) ≡ some c)
      × (c.severity ≡ alert)
      × IsAbout before after "pod_bridge" c)
    ↔ Moves alert (get before.fields "pod_bridge") (get after.fields "pod_bridge")
snapshots_iff_example = snapshots_iff before after "pod_bridge" alert

same_lookup : (k : String) → get before.fields k ≡ get again.fields k
unfolding get
same_lookup k = elim (Bool-cases (str_eq "pod_bridge" k)) [
  | inl first ↦ elim (Bool-cases (str_eq "pod_bridge.mtu" k)) [
    | inl second ↦
        let bad : false ≡ true =
          subst (λ i. str_eq "pod_bridge.mtu" i ≡ true) (sym ((eq_iff "pod_bridge" k).0 first))
            second in
        absurd (cc bad)
    | inr not_second ↦ rw (first, not_second) refl
  ]
  | inr not_first ↦ rw not_first refl
]

snapshots_order_free_example :
    snapshots (some before) (some after)
    ≡ snapshots (some again) (some (record after { fields = after.fields }))
snapshots_order_free_example =
    snapshots_order_free before again after after.fields same_lookup (λ k. refl)
