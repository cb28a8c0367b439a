-- ===== src/Diff/Records.antt =====
-- `Snapshots`: which changes it reports, and in which order.
use cluster_recorder.Prelude.{
  ◌≡◌, refl, sym, ◌∙◌, false, String, Option, none, some, [], ◌∷◌, arith, eq_iff, str_eq,
  if◌then◌else◌, ◌||◌, All, Option-cases, inl, inr,
}
use cluster_recorder.Prelude.Order.{text_order}
use cluster_recorder.Prelude.Sorting.{
  find_by, Ascends, Distinct, find_by-sort_by, sort_by-Ascends, Ascends-ext,
}
use cluster_recorder.Dict.{Dict, get, put, has, IsMap}
use cluster_recorder.Dict.Laws.{get-put, put-IsMap}
use cluster_recorder.Sample.{Field, Snapshot}
use cluster_recorder.Diff.{Change, classify, change_at, add_keys, collect, snapshots}

abbrev pub by_field : Change → String
by_field c = c.field

-- The change of a key is about that key.
field-change_at :
    (prev cur : Snapshot) (k : String) (c : Change) → change_at prev cur k ≡ some c → c.field ≡ k
unfolding change_at
field-change_at prev cur k c h = ground arith

module _ (f : String → Option Change)
    (named : (k : String) (c : Change) → f k ≡ some c → c.field ≡ k) where
  find_by-collect :
      (k : String) (keys : Dict (Unit {0}))
      → find_by by_field k (collect f keys) ≡ (if has keys k then f k else none)
  unfolding find_by collect get
  find_by-collect k [] = refl
  find_by-collect k ((j, u) ∷ keys) = elim (Option-cases (f j)) [
    | inl e ↦ ground (arith, find_by-collect k keys, eq_iff j k)
    | inr (c, e) ↦ ground (arith, find_by-collect k keys, eq_iff j k, named j c e, eq_iff c.field k)
  ]

  All-collect :
      (j : String) (keys : Dict (Unit {0}))
      → All (λ (e : String × Unit {0}). str_eq j e.0 ≡ false) keys
      → All (λ (c : Change). str_eq j c.field ≡ false) (collect f keys)
  unfolding collect
  All-collect j [] h = tt
  All-collect j ((k, u) ∷ keys) h = elim (Option-cases (f k)) [
    | inl e ↦ rw (e, All) (All-collect j keys h.1)
    | inr (c, e) ↦ rw (e, All) (rw (named k c e) h.0, All-collect j keys h.1)
  ]

  collect-Distinct : (keys : Dict (Unit {0})) → IsMap keys → Distinct by_field (collect f keys)
  unfolding collect
  collect-Distinct [] d = tt
  collect-Distinct ((k, u) ∷ keys) d = elim (Option-cases (f k)) [
    | inl e ↦ rw (e, Distinct) (collect-Distinct keys d.1)
    | inr (c, e) ↦
        rw (e, Distinct) (rw (named k c e) (All-collect k keys d.0), collect-Distinct keys d.1)
  ]

pub has-add_keys :
    (m : Dict Field) (keys : Dict (Unit {0})) (k : String)
    → has (add_keys m keys) k ≡ (has m k || has keys k)
unfolding add_keys get
has-add_keys [] keys k = refl
has-add_keys ((j, f) ∷ m) keys k =
    ground (arith, has-add_keys m (put keys j tt) k, get-put keys j k tt)

add_keys-IsMap : (m : Dict Field) (keys : Dict (Unit {0})) → IsMap keys → IsMap (add_keys m keys)
unfolding add_keys
add_keys-IsMap [] keys d = d
add_keys-IsMap ((j, f) ∷ m) keys d = add_keys-IsMap m (put keys j tt) (put-IsMap keys j tt d)

-- No change is reported for a key that neither snapshot has.
change_at_unsampled :
    (prev cur : Snapshot) (k : String)
    → get prev.fields k ≡ none
    → get cur.fields k ≡ none
    → change_at prev cur k ≡ none
unfolding change_at classify
change_at_unsampled prev cur k p c = rw (p, c)

-- Whatever the key, the record found under it is the one that the transition of its two fields
-- asks for, and there is none if it asks for none.
pub find_by-snapshots :
    (prev cur : Snapshot) (k : String)
    → find_by by_field k (snapshots (some prev) (some cur)) ≡ change_at prev cur k
unfolding snapshots get
find_by-snapshots prev cur k =
    let before = add_keys prev.fields [] in
    let keys = add_keys cur.fields before in
    find_by-sort_by by_field k (collect (change_at prev cur) keys)
    ∙ find_by-collect (change_at prev cur) (field-change_at prev cur) k keys
    ∙ ground (
      arith,
      has-add_keys cur.fields before k,
      has-add_keys prev.fields [] k,
      change_at_unsampled prev cur k,
    )

-- The records stand in strictly ascending order of their field, so there is one for a field at most.
pub snapshots-Ascends : (prev cur : Option Snapshot) → Ascends by_field (snapshots prev cur)
unfolding snapshots
snapshots-Ascends none cur = tt
snapshots-Ascends (some prev) none = tt
snapshots-Ascends (some prev) (some cur) =
    sort_by-Ascends by_field
      (collect (change_at prev cur) (add_keys cur.fields (add_keys prev.fields [])))
      (collect-Distinct (change_at prev cur) (field-change_at prev cur)
        (add_keys cur.fields (add_keys prev.fields []))
        (add_keys-IsMap cur.fields (add_keys prev.fields []) (add_keys-IsMap prev.fields [] tt)))

change_at_ext :
    (p p' c : Snapshot) (fields : Dict Field) (k : String)
    → get p.fields k ≡ get p'.fields k
    → get c.fields k ≡ get fields k
    → change_at p c k ≡ change_at p' (record c { fields = fields }) k
unfolding change_at
change_at_ext p p' c fields k e e' = rw (e, e')

-- The records do not depend on the order in which Go visits the two maps, nor on anything else of
-- the earlier snapshot: two runs whose maps hold the same fields report the same.
pub snapshots_order_free :
    (prev prev' cur : Snapshot) (fields : Dict Field)
    → ((k : String) → get prev.fields k ≡ get prev'.fields k)
    → ((k : String) → get cur.fields k ≡ get fields k)
    → snapshots (some prev) (some cur)
      ≡ snapshots (some prev') (some (record cur { fields = fields }))
snapshots_order_free prev prev' cur fields same same' =
    Ascends-ext by_field (snapshots (some prev) (some cur))
      (snapshots (some prev') (some (record cur { fields = fields })))
      (snapshots-Ascends (some prev) (some cur))
      (snapshots-Ascends (some prev') (some (record cur { fields = fields })))
      λ k.
        find_by-snapshots prev cur k
        ∙ change_at_ext prev prev' cur fields k (same k) (same' k)
        ∙ sym (find_by-snapshots prev' (record cur { fields = fields }) k)
