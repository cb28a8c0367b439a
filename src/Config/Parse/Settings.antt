-- ===== src/Config/Parse/Settings.antt =====
-- What the environment asks for, variable by variable, and what `parse` makes of it.
use cluster_recorder.Prelude.{
  ℕ, ◌≡◌, refl, ◌∙◌, ap, sym, ◌↔◌, String, Bool, true, false, Option, none, some, List, [], ◌∷◌,
  ◌++◌, str_eq, if◌then◌else◌,
}
use mathlib.Core.List.{append-nil}
use cluster_recorder.Config.{
  Config, ConfigError, not_integer, not_duration, not_minutes, defaults, validate, IsValid,
  validate-IsValid_iff,
}
use cluster_recorder.Config.Parse.{
  Env, Reading, str, store, num, dur, minutes, integer_in, duration_in, minutes_in, overlay,
  outcome, parse, config,
}

-- The variable's text, or the default where it is not set.
abbrev text_or : Env → String → String → String
text_or get key default = if str_eq (get key) "" then default else get key

value_or : Option ℕ → ℕ → ℕ
value_or none default = default
value_or (some n) default = n

error_of : Option ℕ → ConfigError → List ConfigError
error_of none e = e ∷ []
error_of (some n) e = []

-- The variable's value by a reader, or the default where it is not set or cannot be read.
abbrev number_or : (String → Option ℕ) → Env → String → ℕ → ℕ
unfolding value_or
number_or read get key default =
    if str_eq (get key) "" then default else value_or (read (get key)) default

-- One error, if the variable is set and cannot be read.
abbrev bad : (String → Option ℕ) → (String → String → ConfigError) → Env → String → List ConfigError
unfolding error_of
bad read e get key = if str_eq (get key) "" then [] else error_of (read (get key)) (e key (get key))

-- The configuration that the environment asks for.
unfoldable pub settings : Env → Config
unfolding value_or
settings get = record {
  listen_addr = text_or get "LISTEN_ADDR" ":8080";
  storage_backend = text_or get "STORAGE_BACKEND" "sqlite";
  storage_dsn = text_or get "STORAGE_DSN" "/data/recorder.db";
  storage_max_mb = number_or integer_in get "STORAGE_MAX_MB" defaults.storage_max_mb;
  retention_events = number_or duration_in get "RETENTION_EVENTS" defaults.retention_events;
  retention_changes = number_or duration_in get "RETENTION_CHANGES" defaults.retention_changes;
  retention_snapshots =
      number_or duration_in get "RETENTION_SNAPSHOTS" defaults.retention_snapshots;
  incident_pod_thresh =
      number_or integer_in get "INCIDENT_POD_THRESHOLD" defaults.incident_pod_thresh;
  incident_ns_thresh = number_or integer_in get "INCIDENT_NS_THRESHOLD" defaults.incident_ns_thresh;
  incident_window = number_or minutes_in get "INCIDENT_WINDOW_MIN" defaults.incident_window;
  baseline_stable = number_or minutes_in get "BASELINE_STABLE_MIN" defaults.baseline_stable;
  log_level = text_or get "LOG_LEVEL" "info";
}

-- An error for every variable that is set and cannot be read.
unfoldable pub unreadable : Env → List ConfigError
unfolding error_of
unreadable get =
    (((((((bad integer_in not_integer get "STORAGE_MAX_MB"
                  ++ bad duration_in not_duration get "RETENTION_EVENTS")
                ++ bad duration_in not_duration get "RETENTION_CHANGES")
              ++ bad duration_in not_duration get "RETENTION_SNAPSHOTS")
            ++ bad integer_in not_integer get "INCIDENT_POD_THRESHOLD")
          ++ bad integer_in not_integer get "INCIDENT_NS_THRESHOLD")
        ++ bad minutes_in not_minutes get "INCIDENT_WINDOW_MIN")
      ++ bad minutes_in not_minutes get "BASELINE_STABLE_MIN")

abbrev reading : Config → List ConfigError → Reading
reading c es = record { config = c; errors = es }

str_at :
    (b : Bool) (v d : String) (put : String → Config → Config) (r : Reading) (c : Config)
    (es : List ConfigError)
    → r ≡ reading c es
    → put d c ≡ c
    → (if b then r else record r { config = put v r.config })
      ≡ reading (put (if b then d else v) c) es
str_at true v d put r c es e same = e ∙ ap (λ c'. reading c' es) (sym same)
str_at false v d put r c es e same = ap (λ (r : Reading). record r { config = put v r.config }) e

store_at :
    (b : Bool) (o : Option ℕ) (e : ConfigError) (put : ℕ → Config → Config) (d : ℕ) (r : Reading)
    (c : Config) (es : List ConfigError)
    → r ≡ reading c es
    → put d c ≡ c
    → (if b then r else store o e put r)
      ≡ reading (put (if b then d else value_or o d) c) (es ++ (if b then [] else error_of o e))
unfolding store value_or error_of
store_at true o e put d r c es at same =
    at
    ∙ ap (λ c'. reading c' es) (sym same)
    ∙ ap (λ es'. reading (put d c) es') (sym (append-nil es))
store_at false none e put d r c es at same =
    ap (λ (r : Reading). record r { errors = r.errors ++ e ∷ [] }) at
    ∙ ap (λ c'. reading c' (es ++ e ∷ [])) (sym same)
store_at false (some n) e put d r c es at same =
    ap (λ (r : Reading). record r { config = put n r.config }) at
    ∙ ap (λ es'. reading (put n c) es') (sym (append-nil es))

-- One step of the overlay, after steps that have come to `c` and `es`.
module _ (get : Env) (key : String) {r : Reading} {c : Config} {es : List ConfigError}
    (at : r ≡ reading c es) where
  str_lem :
      (put : String → Config → Config) (d : String)
      → put d c ≡ c
      → str get key put r ≡ reading (put (text_or get key d) c) es
  unfolding str
  str_lem put d same = str_at (str_eq (get key) "") (get key) d put r c es at same

  num_lem :
      (put : ℕ → Config → Config) (d : ℕ)
      → put d c ≡ c
      → num get key put r
        ≡ reading
            (put (number_or integer_in get key d) c)
            (es ++ bad integer_in not_integer get key)
  unfolding num number_or bad
  num_lem put d same =
      store_at (str_eq (get key) "") (integer_in (get key)) (not_integer key (get key)) put d r c es
        at same

  dur_lem :
      (put : ℕ → Config → Config) (d : ℕ)
      → put d c ≡ c
      → dur get key put r
        ≡ reading
            (put (number_or duration_in get key d) c)
            (es ++ bad duration_in not_duration get key)
  unfolding dur number_or bad
  dur_lem put d same =
      store_at (str_eq (get key) "") (duration_in (get key)) (not_duration key (get key)) put d r c
        es at same

  minutes_lem :
      (put : ℕ → Config → Config) (d : ℕ)
      → put d c ≡ c
      → minutes get key put r
        ≡ reading
            (put (number_or minutes_in get key d) c)
            (es ++ bad minutes_in not_minutes get key)
  unfolding minutes number_or bad
  minutes_lem put d same =
      store_at (str_eq (get key) "") (minutes_in (get key)) (not_minutes key (get key)) put d r c es
        at same

overlay_lem : (get : Env) → overlay get ≡ reading (settings get) (unreadable get)
unfolding overlay settings unreadable defaults
overlay_lem get =
    let s1 =
      str_lem get "LISTEN_ADDR" (λ i. reading defaults []) (λ v c. record c { listen_addr = v })
        ":8080" refl in
    let s2 =
      str_lem get "STORAGE_BACKEND" s1 (λ v c. record c { storage_backend = v }) "sqlite" refl in
    let s3 =
      str_lem get "STORAGE_DSN" s2 (λ v c. record c { storage_dsn = v }) "/data/recorder.db" refl in
    let s4 =
      num_lem get "STORAGE_MAX_MB" s3 (λ v c. record c { storage_max_mb = v })
        defaults.storage_max_mb refl in
    let s5 =
      dur_lem get "RETENTION_EVENTS" s4 (λ v c. record c { retention_events = v })
        defaults.retention_events refl in
    let s6 =
      dur_lem get "RETENTION_CHANGES" s5 (λ v c. record c { retention_changes = v })
        defaults.retention_changes refl in
    let s7 =
      dur_lem get "RETENTION_SNAPSHOTS" s6 (λ v c. record c { retention_snapshots = v })
        defaults.retention_snapshots refl in
    let s8 =
      num_lem get "INCIDENT_POD_THRESHOLD" s7 (λ v c. record c { incident_pod_thresh = v })
        defaults.incident_pod_thresh refl in
    let s9 =
      num_lem get "INCIDENT_NS_THRESHOLD" s8 (λ v c. record c { incident_ns_thresh = v })
        defaults.incident_ns_thresh refl in
    let s10 =
      minutes_lem get "INCIDENT_WINDOW_MIN" s9 (λ v c. record c { incident_window = v })
        defaults.incident_window refl in
    let s11 =
      minutes_lem get "BASELINE_STABLE_MIN" s10 (λ v c. record c { baseline_stable = v })
        defaults.baseline_stable refl in
    str_lem get "LOG_LEVEL" s11 (λ v c. record c { log_level = v }) "info" refl

pub parse_lem :
    (get : Env) → parse get ≡ outcome (unreadable get ++ validate (settings get)) (settings get)
unfolding parse
parse_lem get =
    ap (λ (r : Reading). outcome (r.errors ++ validate r.config) r.config) (overlay_lem get)

append-eq-nil : (xs ys : List ConfigError) → (xs ++ ys) ≡ [] → (xs ≡ []) × (ys ≡ [])
append-eq-nil [] ys e = (refl, e)
append-eq-nil (x ∷ xs) ys e = absurd (cc)

outcome-config :
    (es : List ConfigError) (c d : Config) → outcome es c ≡ config d → (es ≡ []) × (d ≡ c)
unfolding outcome
outcome-config [] c d e = (refl, cc)
outcome-config (e ∷ es) c d h = absurd (cc)

-- `parse` gives a configuration exactly if every variable that is set can be read and the
-- configuration that the environment asks for is valid, and then it gives that one.
pub parse_iff :
    (get : Env) (c : Config)
    → (parse get ≡ config c) ↔ ((unreadable get ≡ []) × IsValid (settings get) × (c ≡ settings get))
parse_iff get c = (
  λ e.
      let (nothing, same) =
        outcome-config (unreadable get ++ validate (settings get)) (settings get) c
          (sym (parse_lem get) ∙ e) in
      let (readable, passed) = append-eq-nil (unreadable get) (validate (settings get)) nothing in
      (readable, (validate-IsValid_iff (settings get)).0 passed, same),
  λ h.
      parse_lem get
      ∙ unfold outcome in rw (h.0, (validate-IsValid_iff (settings get)).1 h.1, h.2) refl,
)
