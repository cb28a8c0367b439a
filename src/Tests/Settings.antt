-- ===== src/Tests/Settings.antt =====
-- The theorems on the configuration and on /proc, applied.
use cluster_recorder.Prelude.{
  ◌+◌, ◌*◌, ◌/◌, ◌≡◌, ◌↔◌, refl, String, some, List, [], ◌∷◌, ◌++◌, arith, str_eq, if◌then◌else◌,
  show,
}
use cluster_recorder.Prelude.Numerals.{codes, parse_int}
use cluster_recorder.Prelude.Fields.{Codes, is_space, same_codes, trim_space, fields, after_last}
use cluster_recorder.Prelude.Fields.Words.{spaced}
use cluster_recorder.Config.{IsValid, defaults, minute, hour}
use cluster_recorder.Config.Parse.{Env, config, parse, minutes_in}
use cluster_recorder.Config.Parse.Settings.{settings, unreadable, parse_iff}
use cluster_recorder.Host.{got}
use cluster_recorder.Host.Proc.{Entry, process_start, is_process, start_of}
use cluster_recorder.Host.Proc.Started.{process_start_lem}

abbrev env : Env
env k =
    if str_eq k "INCIDENT_WINDOW_MIN"
    then "5"
    else if str_eq k "RETENTION_EVENTS"
    then "48h"
    else ""

five_minutes : (settings env).incident_window ≡ 5 * minute
unfolding settings minutes_in parse_int
five_minutes = refl

parse_iff_example :
    (parse env
      ≡ config (record defaults { retention_events = 48 * hour; incident_window = 5 * minute }))
    ↔ ((unreadable env ≡ [])
        × IsValid (settings env)
        × (record defaults { retention_events = 48 * hour; incident_window = 5 * minute }
            ≡ settings env))
parse_iff_example =
    parse_iff env (record defaults { retention_events = 48 * hour; incident_window = 5 * minute })

-- A number of minutes whose nanoseconds do not fit 64 bits is taken as another: half a minute here.
minutes_overflow : minutes_in "307445735" ≡ some 26_290_448_384
unfolding minutes_in parse_int
minutes_overflow = refl

-- /proc of a node where the kubelet runs under a name with a parenthesis and spaces in its stat file.
abbrev stat_words : List Codes
stat_words =
    codes "S"
    ∷ codes "1"
    ∷ codes "42"
    ∷ codes "42"
    ∷ codes "0"
    ∷ codes "-1"
    ∷ codes "4194560"
    ∷ codes "9"
    ∷ codes "0"
    ∷ codes "1"
    ∷ codes "0"
    ∷ codes "5"
    ∷ codes "6"
    ∷ codes "0"
    ∷ codes "0"
    ∷ codes "20"
    ∷ codes "0"
    ∷ codes "1"
    ∷ codes "0"
    ∷ codes (show 4200)
    ∷ codes "123"
    ∷ []

process : String → String → Entry
process pid comm = record {
  name = codes pid;
  comm = got (codes comm);
  stat = got (codes "42 (kube let) x)" ++ b')' ∷ spaced stat_words);
}

abbrev kubelet : Entry
kubelet = process "42" "kubelet\n"

process_start_lem_example :
    process_start (got (process "1" "systemd\n" ∷ kubelet ∷ [])) (codes "kubelet") 1000
    ≡ got (some (1000 + 4200 / 100))
unfolding is_process parse_int is_space show process same_codes trim_space
process_start_lem_example =
    process_start_lem (codes "kubelet") 1000 4200 (process "1" "systemd\n" ∷ kubelet ∷ []) kubelet
      (codes "42 (kube let) x)") stat_words refl (λ h. absurd (cc h), (λ _. refl, tt)) refl
      (ground arith) (ground arith) refl (omega arith)

-- The directory lists 10 before 9, so that the process with the higher PID is taken.
higher_pid :
    process_start
      (got (
        record (process "10" "kubelet\n") { stat = got (codes "10 (kubelet)" ++ spaced stat_words) }
        ∷ record (process "9" "kubelet\n") { stat = got [] }
        ∷ []))
      (codes "kubelet")
      1000
    ≡ got (some 1042)
unfolding process_start is_process parse_int is_space show process same_codes trim_space start_of
    fields after_last spaced
higher_pid = refl
