-- ===== src/Api/Diffs.antt =====
-- What the diff endpoint can answer.
use mathlib.Core.Path.{subst}
use cluster_recorder.Prelude.{
  ℕ, ◌≡◌, refl, String, Bool, true, false, Option, none, some, List, [], ◌∷◌, ◌++◌, arith, str_eq,
  any, length, ◌==◌, All, if◌then◌else◌,
}
use cluster_recorder.Prelude.Order.{text_order}
use cluster_recorder.Prelude.Sorting.{All-sort_by}
use cluster_recorder.Dict.{Dict}
use cluster_recorder.Sample.{Snapshot, source_api, source_agent}
use cluster_recorder.Diff.{add_keys}
use cluster_recorder.Store.Db.{Db, Result, ok, err, Action, pure}
use cluster_recorder.Api.{
  FieldDiff, SourceDiff, Response, failure, sources, answer, attempt, field_diff, diff_keys,
  fields_of, sort_fields, source_diff, with_current, diff_sources, diff,
}

abbrev pub is_changed_field : FieldDiff → Bool
is_changed_field f = f.changed

-- A source with a note has no field that differs.
abbrev pub IsNoted : SourceDiff → Type 0
IsNoted s = str_eq s.note "" ≡ false → any is_changed_field s.fields ≡ false

pub unchanged :
    (fs : List FieldDiff)
    → All (λ (f : FieldDiff). f.changed ≡ false) fs
    → any is_changed_field fs ≡ false
unchanged [] h = refl
unchanged (f ∷ fs) h = ground (arith, h.0, unchanged fs h.1)

keys_unchanged :
    (cur : Snapshot) (keys : Dict (Unit {0}))
    → All (λ (f : FieldDiff). f.changed ≡ false) (diff_keys (field_diff none cur) keys)
unfolding diff_keys field_diff
keys_unchanged cur [] = tt
keys_unchanged cur ((k, u) ∷ keys) = (refl, keys_unchanged cur keys)

source_diff-IsNoted : (cur : Snapshot) (base : Option Snapshot) → IsNoted (source_diff cur base)
unfolding source_diff sort_fields
source_diff-IsNoted cur none h = unchanged _ (
    All-sort_by (λ (f : FieldDiff). f.field) (λ (f : FieldDiff). f.changed ≡ false) _
      (keys_unchanged cur (add_keys (fields_of none) (add_keys cur.fields []))))
source_diff-IsNoted cur (some b) h = absurd (cc)

-- An entry for each of the two sources that has a snapshot, in order, and each as above.
pub data Answered : Dict SourceDiff → Type 0 where
  api_only : (s : SourceDiff) → IsNoted s → Answered ((source_api, s) ∷ [])
  agent_only : (t : SourceDiff) → IsNoted t → Answered ((source_agent, t) ∷ [])
  both :
      (s t : SourceDiff)
      → IsNoted s
      → IsNoted t
      → Answered ((source_api, s) ∷ (source_agent, t) ∷ [])

-- Where the action answers with sources, they are as above.
record Gives (m : Action Response) : Type 0 where
  at : (db : Db) (d : Dict SourceDiff) → (m db).0 ≡ ok (sources d) → Answered d

answer-Gives :
    {A : Type 0} (r : Result A) (k : A → Action Response) (db : Db) (d : Dict SourceDiff)
    → ((a : A) → Gives (k a))
    → (answer r k db).0 ≡ ok (sources d)
    → Answered d
unfolding answer
answer-Gives (ok a) k db d g e = (g a).at db d e
answer-Gives (err x) k db d g e = absurd (cc)

attempt-Gives :
    {A : Type 0} (m : Action A) (k : A → Action Response)
    → ((a : A) → Gives (k a))
    → Gives (attempt m k)
unfolding attempt
attempt-Gives m k g = record { at = λ db d e. let (r, db') = m db in answer-Gives r k db' d g e }

failure-Gives : (code : ℕ) → Gives (pure (failure code))
failure-Gives code = record { at = λ db d e. absurd (cc) }

sources-Gives : (out : Dict SourceDiff) → Answered out → Gives (pure (sources out))
sources-Gives out a = record { at = λ db d e. let same : out ≡ d = cc in subst Answered same a }

abbrev ending : Dict SourceDiff → Action Response
ending out = pure (if length out == 0 then failure 404 else sources out)

ending-Gives : (out : Dict SourceDiff) → Answered out → Gives (ending out)
ending-Gives out (api_only s n) = sources-Gives _ (api_only s n)
ending-Gives out (agent_only t n) = sources-Gives _ (agent_only t n)
ending-Gives out (both s t n m) = sources-Gives _ (both s t n m)

-- The second source, after the entry of the first, if it has one.
module _ (node : String) (out : Dict SourceDiff) (without : Gives (ending out))
    (more : (t : SourceDiff) → IsNoted t → Answered (out ++ (source_agent, t) ∷ [])) where
  agent_found :
      (cur : Option Snapshot)
      → Gives (with_current node source_agent cur out (diff_sources node []))
  unfolding with_current diff_sources
  agent_found none = without
  agent_found (some cur) =
      attempt-Gives _ _
        λ base. ending-Gives _ (more (source_diff cur base) (source_diff-IsNoted cur base))

  agent_part : Gives (diff_sources node (source_agent ∷ []) out)
  unfolding diff_sources
  agent_part = attempt-Gives _ _ agent_found

api_found :
    (node : String) (cur : Option Snapshot)
    → Gives (with_current node source_api cur [] (diff_sources node (source_agent ∷ [])))
unfolding with_current
api_found node none = agent_part node [] (failure-Gives 404) agent_only
api_found node (some cur) = attempt-Gives _ _ λ base.
    let s = source_diff cur base in
    let n = source_diff-IsNoted cur base in
    agent_part node ((source_api, s) ∷ []) (sources-Gives _ (api_only s n)) (λ t m. both s t n m)

parts : (node : String) → Gives (diff_sources node (source_api ∷ source_agent ∷ []) [])
unfolding diff_sources
parts node = attempt-Gives _ _ (api_found node)

refused_or :
    (b : Bool) (m : Action Response) → Gives m → Gives (if b then pure (failure 400) else m)
refused_or true m g = failure-Gives 400
refused_or false m g = g

-- What the endpoint answers with is an entry for each source that has a snapshot.
pub diff-Answered :
    (against node : String) (db : Db) (d : Dict SourceDiff)
    → (diff against node db).0 ≡ ok (sources d)
    → Answered d
unfolding diff
diff-Answered against node db d e = (refused_or _ _ (parts node)).at db d e
