-- ===== src/Cni/Complete.antt =====
-- `Sample` reports every generic key, and no other.
use Prim.Native.String.{◌++◌ as ◌<>◌}
use mathlib.Core.Path.{subst}
use cluster_recorder.Prelude.{
  ℕ, ◌≡◌, refl, String, Bool, true, false, none, some, Option, Option-cases, inl, inr, sym, List,
  [], ◌∷◌, any, str_eq, eq_iff, arith, if◌then◌else◌,
}
use cluster_recorder.Dict.{Dict, get, put}
use cluster_recorder.Dict.Laws.{get-put}
use cluster_recorder.Sample.{Field, unknown, not_applicable}
use cluster_recorder.Netlink.{View}
use cluster_recorder.Cni.{keys}
use cluster_recorder.Cni.Drivers.{Driver, name_of, topology, pinned, declared, driver_sample}
use cluster_recorder.Cni.Report.{unread, field_at, fill, view, failing, sample}

get-fill :
    (name : String) (na : Dict String) (got : Dict Field) (ks : List String) (fields : Dict Field)
    (k : String)
    → get (fill name na got ks fields) k
      ≡ (if any (str_eq k) ks then some (field_at name na got k) else get fields k)
unfolding fill
get-fill name na got [] fields k = refl
get-fill name na got (j ∷ ks) fields k = ground (
  arith,
  get-fill name na got ks (put fields j (field_at name na got j)) k,
  get-put fields j k (field_at name na got j),
  eq_iff j k,
  eq_iff k j,
)

get-unread :
    (e : String) (ks : List String) (fields : Dict Field) (k : String)
    → get (unread e ks fields) k
      ≡ (if any (str_eq k) ks then some (unknown ("netlink: " <> e)) else get fields k)
unfolding unread
get-unread e [] fields k = refl
get-unread e (j ∷ ks) fields k = ground (
  arith,
  get-unread e ks (put fields j (unknown ("netlink: " <> e))) k,
  get-put fields j k (unknown ("netlink: " <> e)),
  eq_iff j k,
  eq_iff k j,
)

-- What is reported under a key, by whether it is generic, why it does not apply, if it does not, and what
-- the driver read, if it did.
abbrev pub Reported : String → String → Bool → Option String → Option Field → Option Field → Type 0
Reported name k false no_use own f = f ≡ none
Reported name k true (some why) own f = f ≡ some (not_applicable why)
Reported name k true none (some g) f = f ≡ some g
Reported name k true none none f =
    f ≡ some (unknown ("driver " <> (name <> (" did not report " <> k))))

reported_lem :
    (name k : String) (generic : Bool) (na : Dict String) (read : Dict Field)
    → Reported name k generic
        (get na k)
        (get read k)
        (if generic then some (field_at name na read k) else none)
unfolding field_at
reported_lem name k false na read = refl
reported_lem name k true na read = elim (Option-cases (get na k)) [
  | inr (why, e) ↦ rw e refl
  | inl applies ↦ elim (Option-cases (get read k)) [
    | inr (g, own) ↦ rw (applies, own) refl
    | inl unread ↦ rw (applies, unread) refl
  ]
]

module _ (lies_in : String → String → Bool) (d : Driver) (confidence : ℕ) (reason : String)
    (pod_cidrs : List String) where
  -- After a read that succeeded, each generic key has one field: not applicable if the topology says so,
  -- the driver's own if it reported one, and unknown otherwise. No other key has a field.
  pub get-sample :
      (v : View) (k : String)
      → get (sample lies_in d confidence reason (view v) pod_cidrs).1.fields k ≡ (
          if any (str_eq k) keys
          then some (
              field_at
                (name_of d)
                (declared (pinned d v)).not_applicable
                (driver_sample lies_in (pinned d v) v pod_cidrs)
                k)
          else none)
  unfolding sample topology get
  get-sample v k =
      get-fill (name_of d) (declared (pinned d v)).not_applicable
        (driver_sample lies_in (pinned d v) v pod_cidrs) keys [] k

  -- After a read that succeeded: a key that is none of the generic ones has no field; a generic key that
  -- does not apply in the topology has a field that says so, whatever the driver read; another has the
  -- field that the driver read, if it read one, and is unknown otherwise.
  pub sample_complete :
      (v : View) (k : String)
      → Reported
          (name_of d)
          k
          (any (str_eq k) keys)
          (get (declared (pinned d v)).not_applicable k)
          (get (driver_sample lies_in (pinned d v) v pod_cidrs) k)
          (get (sample lies_in d confidence reason (view v) pod_cidrs).1.fields k)
  sample_complete v k =
      subst
        (Reported (name_of d) k (any (str_eq k) keys) (get (declared (pinned d v)).not_applicable k)
          (get (driver_sample lies_in (pinned d v) v pod_cidrs) k))
        (sym (get-sample v k))
        (reported_lem (name_of d) k (any (str_eq k) keys) (declared (pinned d v)).not_applicable
          (driver_sample lies_in (pinned d v) v pod_cidrs))

  -- After a read that failed, each generic key is unknown, and the driver is as before.
  pub sample_unread :
      (e k : String)
      → ((sample lies_in d confidence reason (failing e) pod_cidrs).0 ≡ d)
        × (get (sample lies_in d confidence reason (failing e) pod_cidrs).1.fields k
            ≡ (if any (str_eq k) keys then some (unknown ("netlink: " <> e)) else none))
  unfolding sample get
  sample_unread e k = (refl, get-unread e keys [] k)
