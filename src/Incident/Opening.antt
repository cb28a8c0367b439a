-- ===== src/Incident/Opening.antt =====
-- internal/incident/incident.go: which incident is opened, and when.
use mathlib.Core.Path.{subst}
use mathlib.Core.List.{Permᴰ}
use cluster_recorder.Prelude.{
  ◌+◌, ◌≡◌, ◌≤◌, ◌⊎◌, refl, sym, ap, ◌∙◌, String, Bool, true, false, none, ltb, ◌==◌, ◌||◌, List,
  [], ◌∷◌, ◌++◌, arith, any, length, map, str_eq, eq_iff, Bool-cases, inl, inr, All, if◌then◌else◌,
}
use cluster_recorder.Prelude.Order.{text_order, ==_iff}
use cluster_recorder.Prelude.Sorting.{Distinct}
use cluster_recorder.Prelude.Permuting.{sort_by-Permᴰ}
use cluster_recorder.Dict.{Dict, get, has, IsMap}
use cluster_recorder.Dict.Laws.{length-le_of_Within}
use cluster_recorder.Config.{Config}
use cluster_recorder.Sample.{Time}
use cluster_recorder.Store.Tables.{Tables, IncidentRow, ms}
use cluster_recorder.Store.Triples.{Triple, Triple-imp}
use cluster_recorder.Store.Incidents.{insert_incident}
use cluster_recorder.Incident.{
  namespace_of, namespaces, should_open, earliest, keys_of, sorted, incidents,
}
use cluster_recorder.Incident.Grouping.{namespaces_lem, should_open_iff}
use cluster_recorder.Incident.Lifecycle.{crashing_in, open_in, opened, incidents_open}

abbrev keyed : List String → Dict (Unit {0})
keyed ns = map (λ n. (n, tt)) ns

keyed-length : (ns : List String) → length (keyed ns) ≡ length ns
keyed-length [] = refl
keyed-length (n ∷ ns) = cc (keyed-length ns)

keyed-fresh :
    (n : String) (ns : List String)
    → All (λ m. str_eq n m ≡ false) ns
    → All (λ (e : String × Unit {0}). str_eq n e.0 ≡ false) (keyed ns)
keyed-fresh n [] h = tt
keyed-fresh n (m ∷ ns) h = (h.0, keyed-fresh n ns h.1)

keyed-IsMap : (ns : List String) → Distinct (λ (n : String). n) ns → IsMap (keyed ns)
keyed-IsMap [] d = tt
keyed-IsMap (n ∷ ns) d = (keyed-fresh n ns d.0, keyed-IsMap ns d.1)

keyed-has : (ns : List String) (k : String) → has (keyed ns) k ≡ any (str_eq k) ns
unfolding get
keyed-has [] k = refl
keyed-has (n ∷ ns) k = ground (arith, keyed-has ns k, eq_iff n k, eq_iff k n)

-- Two lists without repetitions that have the same elements are as long as each other.
same_length :
    (xs ys : List String)
    → Distinct (λ (n : String). n) xs
    → Distinct (λ (n : String). n) ys
    → ((n : String) → any (str_eq n) xs ≡ any (str_eq n) ys)
    → length xs ≡ length ys
same_length xs ys dx dy same =
    let xy =
      length-le_of_Within (keyed xs) (keyed ys) (keyed-IsMap xs dx)
        (λ k h. keyed-has ys k ∙ sym (same k) ∙ sym (keyed-has xs k) ∙ h) in
    let yx =
      length-le_of_Within (keyed ys) (keyed xs) (keyed-IsMap ys dy)
        (λ k h. keyed-has xs k ∙ same k ∙ sym (keyed-has ys k) ∙ h) in
    omega (arith, xy, yx, keyed-length xs, keyed-length ys)

-- The first of the times, or the given one before all of them.
abbrev pub IsFirst : Time → Time → Dict Time → Type 0
IsFirst first opened crashing =
    (first ≤ opened)
    × All (λ (e : String × Time). first ≤ e.1) crashing
    × ((first ≡ opened) ⊎ (any (λ (e : String × Time). first == e.1) crashing ≡ true))

earliest_lem :
    (start : Time) (crashing : Dict Time) → IsFirst (earliest start crashing) start crashing
unfolding earliest
earliest_lem start [] = (omega arith, tt, inl refl)
earliest_lem start ((k, t) ∷ crashing) = elim (Bool-cases (ltb t start)) [
  | inl before ↦
      let step : earliest start ((k, t) ∷ crashing) ≡ earliest t crashing = rw before refl in
      let (below, all_below, found) = earliest_lem t crashing in
      subst (λ first. IsFirst first start ((k, t) ∷ crashing)) (sym step)
        (ground (arith, below, before), (below, all_below), inr (found_at t crashing _ found))
  | inr after ↦
      let step : earliest start ((k, t) ∷ crashing) ≡ earliest start crashing = rw after refl in
      let (below, all_below, found) = earliest_lem start crashing in
      subst (λ first. IsFirst first start ((k, t) ∷ crashing)) (sym step)
        (
          below,
          (ground (arith, below, after), all_below),
          elim found [ inl e ↦ inl e | inr there ↦ inr (ground (arith, there)) ],
        )
]
  where
    found_at :
        (t : Time) (crashing : Dict Time) (first : Time)
        → (first ≡ t) ⊎ (any (λ (e : String × Time). first == e.1) crashing ≡ true)
        → (first == t || any (λ (e : String × Time). first == e.1) crashing) ≡ true
    found_at t crashing first (inl e) = ground (arith, ==_iff first t, e)
    found_at t crashing first (inr there) = ground (arith, there)

keys_lem : (crashing : Dict Time) → keys_of crashing ≡ map (λ (e : String × Time). e.0) crashing
unfolding keys_of
keys_lem [] = refl
keys_lem ((k, t) ∷ crashing) = ap (λ ks. k ∷ ks) (keys_lem crashing)

module _ (cfg : Config) (now : Time) (t : Tables) (ns : List String) where
  -- As many pods, and as many namespaces, as the thresholds say.
  abbrev pub IsWide : Type 0
  IsWide =
      (cfg.incident_pod_thresh ≤ length (crashing_in cfg now t))
      × (cfg.incident_ns_thresh ≤ length ns)

  -- There is one more incident, with all crashing pods, open, from the earliest crash on.
  abbrev pub HasOpened : Tables → Type 0
  HasOpened u =
      (r : IncidentRow) × (first : Time) × IsFirst first now (crashing_in cfg now t)
      × (r.opened_ts ≡ ms first)
      × (r.closed_ts ≡ none)
      × Permᴰ r.pods (map (λ (e : String × Time). e.0) (crashing_in cfg now t))
      × (u ≡ record t { incidents = t.incidents ++ r ∷ []; next_incident = t.next_incident + 1 })

  opened-HasOpened : HasOpened (opened cfg now t)
  unfolding insert_incident
  opened-HasOpened =
      let crashing = crashing_in cfg now t in
      (
        record {
          id = t.next_incident;
          opened_ts = ms (earliest now crashing);
          closed_ts = none;
          pods = sorted (keys_of crashing);
        },
        earliest now crashing,
        earliest_lem now crashing,
        refl,
        refl,
        subst (λ ks. Permᴰ (sorted (keys_of crashing)) ks) (keys_lem crashing)
            (sort_by-Permᴰ (λ (k : String). k) (keys_of crashing)),
        refl,
      )

  opened_or_same :
      (u : Tables) (b : Bool)
      → b ≡ should_open (crashing_in cfg now t) cfg.incident_pod_thresh cfg.incident_ns_thresh
      → length (namespaces (crashing_in cfg now t)) ≡ length ns
      → u ≡ (if b then opened cfg now t else t)
      → (IsWide × HasOpened u) ⊎ ((¬ IsWide) × (u ≡ t))
  opened_or_same u true b n e =
      let wide =
        should_open_iff (crashing_in cfg now t) cfg.incident_pod_thresh cfg.incident_ns_thresh in
      inl (
        ((wide.0 (sym b)).0, omega (arith, (wide.0 (sym b)).1, n)),
        subst HasOpened (sym e) opened-HasOpened,
      )
  opened_or_same u false b n e =
      let wide =
        should_open_iff (crashing_in cfg now t) cfg.incident_pod_thresh cfg.incident_ns_thresh in
      inr (λ w. ground (arith, wide.1 (w.0, omega (arith, w.1, n)), b), e)

  -- On a database without an unclosed incident of the last day, let `ns` be a list of the namespaces of
  -- the crashing pods, each once. If there are at least as many crashing pods and at least as many
  -- namespaces as the thresholds say, the evaluation stores one more incident: open, with exactly the
  -- crashing pods, and dated at the earliest of their crashes, or now if all are later. Otherwise it
  -- changes nothing, and so if a statement fails.
  pub incidents_open_iff :
      open_in cfg now t ≡ []
      → Distinct (λ (n : String). n) ns
      → ((n : String)
          → any (str_eq n) ns
            ≡ any (λ (e : String × Time). str_eq n (namespace_of e.0)) (crashing_in cfg now t))
      → Triple
          (λ u. u ≡ t)
          (incidents cfg now)
          (λ _ u. (IsWide × HasOpened u) ⊎ ((¬ IsWide) × (u ≡ t)))
          (λ _ u. u ≡ t)
  incidents_open_iff none_open d members =
      let (distinct, same_members) = namespaces_lem (crashing_in cfg now t) in
      let count =
        same_length (namespaces (crashing_in cfg now t)) ns distinct d
          (λ n. same_members n ∙ sym (members n)) in
      Triple-imp (λ _ u e. opened_or_same u _ refl count e) (λ _ u e. e)
        (incidents_open cfg now t none_open)
