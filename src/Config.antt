-- ===== src/Config.antt =====
-- internal/config/config.go: the settings, their defaults and their validation. A number or duration
-- that is not positive is 0 here: the validation treats all of these alike.
pub mod Parse
use cluster_recorder.Prelude.{
  ℕ, ◌*◌, ◌≤◌, ◌<◌, ◌≡◌, ◌≢◌, ◌⊎◌, ◌↔◌, String, Bool, true, false, ◌||◌, not, List, [], ◌∷◌, ◌++◌,
  leb, ltb, str_eq, eq_iff, if◌then◌else◌, arith,
}
use cluster_recorder.Dict.{Dict}

pub record Config : Type 0 where
  pub listen_addr : String
  pub storage_backend : String
  pub storage_dsn : String
  pub storage_max_mb : ℕ
  pub retention_events : ℕ
  pub retention_changes : ℕ
  pub retention_snapshots : ℕ
  pub incident_pod_thresh : ℕ
  pub incident_ns_thresh : ℕ
  pub incident_window : ℕ
  pub baseline_stable : ℕ
  pub log_level : String

abbrev pub second : ℕ
second = 1_000_000_000

abbrev pub minute : ℕ
minute = 60 * second

abbrev pub hour : ℕ
hour = 60 * minute

-- Defaults
unfoldable pub defaults : Config
defaults = record {
  listen_addr = ":8080";
  storage_backend = "sqlite";
  storage_dsn = "/data/recorder.db";
  storage_max_mb = 4096;
  retention_events = 720 * hour;
  retention_changes = 720 * hour;
  retention_snapshots = 168 * hour;
  incident_pod_thresh = 3;
  incident_ns_thresh = 2;
  incident_window = 10 * minute;
  baseline_stable = 15 * minute;
  log_level = "info";
}

-- The errors of `parse` and `validate`, by their message; a duration's message also shows its value, and
-- a negative size is shown as 0 here.
pub data ConfigError : Type 0 where
  postgres_not_implemented : ConfigError
  bad_backend : String → ConfigError
  empty_dsn : ConfigError
  max_mb_too_small : ℕ → ConfigError
  not_positive : String → ConfigError
  bad_thresholds : ConfigError
  bad_log_level : String → ConfigError
  -- a variable with its text
  not_integer : String → String → ConfigError
  not_duration : String → String → ConfigError
  not_minutes : String → String → ConfigError

backend_errors : String → List ConfigError
backend_errors b =
    if str_eq b "sqlite"
    then []
    else if str_eq b "postgres"
    then postgres_not_implemented ∷ []
    else bad_backend b ∷ []

-- One error, if the test is true.
error_if : Bool → ConfigError → List ConfigError
error_if true e = e ∷ []
error_if false e = []

-- The durations that must be positive. Go ranges over them in any order.
unfoldable pub durations : Config → Dict ℕ
durations c =
    ("RETENTION_EVENTS", c.retention_events)
    ∷ ("RETENTION_CHANGES", c.retention_changes)
    ∷ ("RETENTION_SNAPSHOTS", c.retention_snapshots)
    ∷ ("INCIDENT_WINDOW_MIN", c.incident_window)
    ∷ ("BASELINE_STABLE_MIN", c.baseline_stable)
    ∷ []

duration_errors : Dict ℕ → List ConfigError
unfolding error_if
duration_errors [] = []
duration_errors ((k, d) ∷ ds) = error_if (leb d 0) (not_positive k) ++ duration_errors ds

abbrev is_log_level : String → Bool
is_log_level l = str_eq l "debug" || str_eq l "info" || str_eq l "warn" || str_eq l "error"

-- Config.validate
unfoldable pub validate : Config → List ConfigError
unfolding backend_errors error_if duration_errors durations
validate c =
    backend_errors c.storage_backend
    ++ (error_if (str_eq c.storage_dsn "") empty_dsn
        ++ (error_if (ltb c.storage_max_mb 16) (max_mb_too_small c.storage_max_mb)
            ++ (duration_errors (durations c)
                ++ (error_if (ltb c.incident_pod_thresh 1 || ltb c.incident_ns_thresh 1)
                      bad_thresholds
                    ++ error_if (not (is_log_level c.log_level)) (bad_log_level c.log_level)))))

-- What a configuration has to be.
pub record IsValid (c : Config) : Type 0 where
  pub backend : c.storage_backend ≡ "sqlite"
  pub dsn : c.storage_dsn ≢ ""
  pub max_mb : 16 ≤ c.storage_max_mb
  pub events : 0 < c.retention_events
  pub changes : 0 < c.retention_changes
  pub snapshots : 0 < c.retention_snapshots
  pub window : 0 < c.incident_window
  pub stable : 0 < c.baseline_stable
  pub pods : 0 < c.incident_pod_thresh
  pub namespaces : 0 < c.incident_ns_thresh
  pub level :
      (c.log_level ≡ "debug")
      ⊎ (c.log_level ≡ "info")
      ⊎ (c.log_level ≡ "warn")
      ⊎ (c.log_level ≡ "error")

-- A configuration passes exactly if it is valid.
pub validate-IsValid_iff : (c : Config) → (validate c ≡ []) ↔ IsValid c
unfolding validate error_if backend_errors
validate-IsValid_iff c = (
  λ h. record {
    backend = ground (arith, eq_iff c.storage_backend "sqlite");
    dsn = λ e. ground (arith, eq_iff c.storage_dsn "");
    max_mb = ground arith;
    events = ground arith;
    changes = ground arith;
    snapshots = ground arith;
    window = ground arith;
    stable = ground arith;
    pods = ground arith;
    namespaces = ground arith;
    level = ground (
      arith,
      eq_iff c.log_level "debug",
      eq_iff c.log_level "info",
      eq_iff c.log_level "warn",
      eq_iff c.log_level "error",
    );
  },
  λ v. ground (
    arith,
    eq_iff c.storage_backend "sqlite",
    eq_iff c.storage_dsn "",
    eq_iff c.log_level "debug",
    eq_iff c.log_level "info",
    eq_iff c.log_level "warn",
    eq_iff c.log_level "error",
  ),
)
