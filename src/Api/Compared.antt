-- ===== src/Api/Compared.antt =====
-- What the diff endpoint says of a source, against `FieldsEqual` of the two snapshots.
use cluster_recorder.Prelude.{
  ◌≡◌, ◌↔◌, refl, ap, sym, ◌∙◌, String, true, false, ◌||◌, Option, none, some, List, [], ◌∷◌, arith,
  eq_iff, str_eq, any, is_some, All, if◌then◌else◌, Bool-cases, inl, inr,
}
use cluster_recorder.Prelude.Order.{text_order}
use cluster_recorder.Prelude.Sorting.{find_by, find_by-sort_by, find_by-All, All-sort_by}
use cluster_recorder.Dict.{Dict, get, has, IsMap}
use cluster_recorder.Sample.{Field, Snapshot, fields_equal}
use cluster_recorder.Sample.Equal.{equal_iff}
use cluster_recorder.Sample.Maps.{SameEntry, SameMap, fields_equal_iff}
use cluster_recorder.Diff.{add_keys}
use cluster_recorder.Diff.Records.{has-add_keys}
use cluster_recorder.Api.{
  FieldDiff, is_changed, fields_of, field_diff, diff_keys, sort_fields, source_diff,
}
use cluster_recorder.Api.Diffs.{is_changed_field, unchanged}

abbrev pub by_field : FieldDiff → String
by_field f = f.field

find_by-diff_keys :
    (f : String → FieldDiff)
    → ((j : String) → (f j).field ≡ j)
    → (keys : Dict (Unit {0})) (k : String)
    → find_by by_field k (diff_keys f keys) ≡ (if has keys k then some (f k) else none)
unfolding find_by diff_keys get
find_by-diff_keys f named [] k = refl
find_by-diff_keys f named ((j, u) ∷ keys) k = elim (Bool-cases (str_eq j k)) [
  | inl same ↦ ground (arith, named j, ap f ((eq_iff j k).0 same))
  | inr other ↦ rw (named j, other) (find_by-diff_keys f named keys k)
]

All-diff_keys :
    (P : FieldDiff → Type 0) (f : String → FieldDiff) (keys : Dict (Unit {0}))
    → ((k : String) → has keys k ≡ true → P (f k))
    → All P (diff_keys f keys)
unfolding diff_keys get
All-diff_keys P f [] h = tt
All-diff_keys P f ((j, u) ∷ keys) h =
    (h j (ground (arith, eq_iff j j)), All-diff_keys P f keys (λ k there. h k (ground arith)))

SameEntry-of_unchanged : (o p : Option Field) → is_changed o p ≡ false → SameEntry o p
unfolding is_changed
SameEntry-of_unchanged none p h = absurd (cc)
SameEntry-of_unchanged (some f) none h = absurd (cc)
SameEntry-of_unchanged (some f) (some g) h = (equal_iff f g).0 (ground arith)

SameEntry-missing : (o p : Option Field) → (is_some o || is_some p) ≡ false → SameEntry o p
SameEntry-missing none none h = tt
SameEntry-missing none (some g) h = absurd (cc)
SameEntry-missing (some f) p h = absurd (cc)

unchanged-of_SameEntry :
    (o p : Option Field) → (is_some o || is_some p) ≡ true → SameEntry o p → is_changed o p ≡ false
unfolding is_changed
unchanged-of_SameEntry none none there s = absurd (cc)
unchanged-of_SameEntry none (some g) there s = elim s [ ]
unchanged-of_SameEntry (some f) none there s = elim s [ ]
unchanged-of_SameEntry (some f) (some g) there s = ground (arith, (equal_iff f g).1 s)

any-unchanged :
    (fs : List FieldDiff)
    → any is_changed_field fs ≡ false
    → All (λ (f : FieldDiff). f.changed ≡ false) fs
any-unchanged [] h = tt
any-unchanged (f ∷ fs) h = (ground arith, any-unchanged fs (ground arith))

module _ (base : Option Snapshot) (cur : Snapshot) where
  abbrev fields_keys : Dict (Unit {0})
  fields_keys = add_keys (fields_of base) (add_keys cur.fields [])

  has-fields_keys :
      (k : String)
      → has fields_keys k ≡ (is_some (get (fields_of base) k) || is_some (get cur.fields k))
  unfolding get
  has-fields_keys k = ground (
    arith,
    has-add_keys (fields_of base) (add_keys cur.fields []) k,
    has-add_keys cur.fields [] k,
  )

  -- Under each key of either snapshot stands one comparison of its two fields, and no other.
  find_by-source_diff :
      (k : String)
      → find_by by_field k (source_diff cur base).fields ≡ (
          if is_some (get (fields_of base) k) || is_some (get cur.fields k)
          then some (field_diff base cur k)
          else none)
  unfolding source_diff sort_fields
  find_by-source_diff k =
      find_by-sort_by by_field k (diff_keys (field_diff base cur) fields_keys)
      ∙ find_by-diff_keys (field_diff base cur) named fields_keys k
      ∙ rw (has-fields_keys k) refl
    where
      named : (j : String) → (field_diff base cur j).field ≡ j
      named j = refl

module _ (b cur : Snapshot) where
  unchanged_field :
      SameMap b.fields cur.fields
      → (k : String) → has (fields_keys (some b) cur) k ≡ true
      → (field_diff (some b) cur k).changed ≡ false
  unfolding field_diff fields_of
  unchanged_field same k there =
      unchanged-of_SameEntry (get b.fields k) (get cur.fields k)
        (sym (has-fields_keys (some b) cur k) ∙ there) (same k)

  same_field :
      any is_changed_field (source_diff cur (some b)).fields ≡ false → SameMap b.fields cur.fields
  unfolding field_diff fields_of
  same_field h k = elim (Bool-cases (is_some (get b.fields k) || is_some (get cur.fields k))) [
    | inl there ↦
        let found : find_by by_field k (source_diff cur (some b)).fields
            ≡ some (field_diff (some b) cur k) =
          find_by-source_diff (some b) cur k ∙ rw there refl in
        SameEntry-of_unchanged (get b.fields k) (get cur.fields k) (
          find_by-All by_field (λ f. f.changed ≡ false) k (source_diff cur (some b)).fields
            (any-unchanged (source_diff cur (some b)).fields h) found)
    | inr missing ↦ SameEntry-missing (get b.fields k) (get cur.fields k) missing
  ]

  -- Against a baseline no field of a source differs exactly if `FieldsEqual` takes the baseline and the
  -- current snapshot for equal.
  pub source_diff_iff :
      IsMap b.fields
      → IsMap cur.fields
      → (any is_changed_field (source_diff cur (some b)).fields ≡ false)
        ↔ (fields_equal b.fields cur.fields ≡ true)
  unfolding source_diff sort_fields fields_of
  source_diff_iff mb mc = (
    λ h. (fields_equal_iff b.fields cur.fields mb mc).1 (same_field h),
    λ e. unchanged _ (
        All-sort_by by_field (λ (f : FieldDiff). f.changed ≡ false) _
          (All-diff_keys (λ (f : FieldDiff). f.changed ≡ false) (field_diff (some b) cur) _
            (unchanged_field ((fields_equal_iff b.fields cur.fields mb mc).0 e)))),
  )
