-- ===== src/Config/Parse.antt =====
-- internal/config/config.go: `parse`, the overlay of the environment on the defaults. A negative number
-- is 0 in a Config, as the validation treats both alike.
pub mod Settings
use cluster_recorder.Prelude.{
  ℕ, ◌+◌, ◌-◌, ◌*◌, ◌%◌, ◌≡◌, refl, String, Bool, Option, none, some, List, [], ◌∷◌, ◌++◌, ltb,
  str_eq, if◌then◌else◌, map_option,
}
use Prim.Native.Nat.{◌^◌}
use cluster_recorder.Prelude.Numerals.{ℤ, pos_part, neg_part, codes, parse_int, accepted}
use cluster_recorder.Prelude.Durations.{parse_duration}
use cluster_recorder.Config.{
  Config, ConfigError, not_integer, not_duration, not_minutes, defaults, minute, validate,
}

-- os.Getenv
abbrev pub Env : Type 0
Env = String → String

-- The two variables of `parse`.
pub record Reading : Type 0 where
  pub config : Config
  pub errors : List ConfigError

unfoldable pub str : Env → String → (String → Config → Config) → Reading → Reading
str get key put r = if str_eq (get key) "" then r else record r { config = put (get key) r.config }

-- What was read is stored, a negative number as 0, which is as invalid, or the error is appended.
unfoldable pub store : Option ℕ → ConfigError → (ℕ → Config → Config) → Reading → Reading
store none e put r = record r { errors = r.errors ++ e ∷ [] }
store (some n) e put r = record r { config = put n r.config }

unfoldable pub integer_in : String → Option ℕ
integer_in v = map_option pos_part (accepted (parse_int (codes v)))

unfoldable pub num : Env → String → (ℕ → Config → Config) → Reading → Reading
unfolding store integer_in
num get key put r =
    if str_eq (get key) ""
    then r
    else store (integer_in (get key)) (not_integer key (get key)) put r

unfoldable pub duration_in : String → Option ℕ
duration_in v = map_option pos_part (parse_duration (codes v))

unfoldable pub dur : Env → String → (ℕ → Config → Config) → Reading → Reading
unfolding store duration_in
dur get key put r =
    if str_eq (get key) ""
    then r
    else store (duration_in (get key)) (not_duration key (get key)) put r

-- `time.Duration(n) * time.Minute`, in 64 bits with a sign.
unfoldable pub times_minute : ℤ → ℕ
times_minute n =
    let bits = (pos_part n * minute + 2 ^ 64 - neg_part n * minute % 2 ^ 64) % 2 ^ 64 in
    if ltb bits (2 ^ 63) then bits else 0

unfoldable pub minutes_in : String → Option ℕ
unfolding times_minute
minutes_in v = map_option times_minute (accepted (parse_int (codes v)))

unfoldable pub minutes : Env → String → (ℕ → Config → Config) → Reading → Reading
unfolding store minutes_in
minutes get key put r =
    if str_eq (get key) ""
    then r
    else store (minutes_in (get key)) (not_minutes key (get key)) put r

-- The overlay, variable after variable.
unfoldable pub overlay : Env → Reading
unfolding str num dur minutes
overlay get =
    let r0 : Reading = record { config = defaults; errors = [] } in
    let r1 = str get "LISTEN_ADDR" (λ v c. record c { listen_addr = v }) r0 in
    let r2 = str get "STORAGE_BACKEND" (λ v c. record c { storage_backend = v }) r1 in
    let r3 = str get "STORAGE_DSN" (λ v c. record c { storage_dsn = v }) r2 in
    let r4 = num get "STORAGE_MAX_MB" (λ v c. record c { storage_max_mb = v }) r3 in
    let r5 = dur get "RETENTION_EVENTS" (λ v c. record c { retention_events = v }) r4 in
    let r6 = dur get "RETENTION_CHANGES" (λ v c. record c { retention_changes = v }) r5 in
    let r7 = dur get "RETENTION_SNAPSHOTS" (λ v c. record c { retention_snapshots = v }) r6 in
    let r8 = num get "INCIDENT_POD_THRESHOLD" (λ v c. record c { incident_pod_thresh = v }) r7 in
    let r9 = num get "INCIDENT_NS_THRESHOLD" (λ v c. record c { incident_ns_thresh = v }) r8 in
    let r10 = minutes get "INCIDENT_WINDOW_MIN" (λ v c. record c { incident_window = v }) r9 in
    let r11 = minutes get "BASELINE_STABLE_MIN" (λ v c. record c { baseline_stable = v }) r10 in
    str get "LOG_LEVEL" (λ v c. record c { log_level = v }) r11

pub data Outcome : Type 0 where
  config : Config → Outcome
  invalid : List ConfigError → Outcome

unfoldable pub outcome : List ConfigError → Config → Outcome
outcome [] c = config c
outcome (e ∷ es) c = invalid (e ∷ es)

-- parse
unfoldable pub parse : Env → Outcome
unfolding overlay outcome
parse get = let r = overlay get in outcome (r.errors ++ validate r.config) r.config
