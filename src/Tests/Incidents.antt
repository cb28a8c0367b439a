-- ===== src/Tests/Incidents.antt =====
-- The theorems on incidents, applied.
use cluster_recorder.Prelude.{◌≡◌, ◌⊎◌, refl, arith, String, str_eq, true, [], ◌∷◌, none, any}
use cluster_recorder.Prelude.Order.{text_order, nat_order}
use cluster_recorder.Prelude.Sorting.{sort_by, find_by}
use cluster_recorder.Config.{defaults}
use cluster_recorder.Dict.{Dict, get, put}
use cluster_recorder.Sample.{Time}
use cluster_recorder.Store.Tables.{Tables, IncidentRow, empty, ms, from_ms}
use cluster_recorder.Store.Triples.{Triple}
use cluster_recorder.Store.Pods.{is_crash_since, group_min, times_of, pod_key}
use cluster_recorder.Store.Incidents.{Incident, overlaps, scan_incident}
use cluster_recorder.Incident.{
  tick, incidents, namespaces, namespace_of, should_open, is_unsteady, added_pods,
}
use cluster_recorder.Incident.Ticks.{Aside, tick_unquiet}
use cluster_recorder.Incident.Opening.{IsWide, HasOpened, incidents_open_iff}
use cluster_recorder.Incident.Lifecycle.{crashing_in, open_in, closed, closings, keeps_open}
use cluster_recorder.Incident.Following.{pods_now, incidents_held}
use cluster_recorder.Tests.{noisy, crash, pod_row, now}

tick_unquiet_example :
    Triple
      (λ u. u ≡ noisy)
      (tick defaults now)
      (λ (_ : Unit {0}) u. Aside defaults now noisy u)
      (λ _ u. Aside defaults now noisy u)
unfolding ms defaults
tick_unquiet_example = tick_unquiet defaults now noisy refl

-- Two pods of one namespace and one of another have entered a crash loop in the last minutes.
abbrev failing : Tables
failing = record empty {
  pod_transitions =
      crash "shop" "web" 172_500_000
      ∷ crash "shop" "cart" 172_600_000
      ∷ crash "pay" "api" 172_700_000
      ∷ [];
}

failing_crashing :
    crashing_in defaults now failing
    ≡ ("pay/api", 172_700_000_000_000)
      ∷ ("shop/cart", 172_600_000_000_000)
      ∷ ("shop/web", 172_500_000_000_000)
      ∷ []
unfolding pod_key ms times_of group_min is_crash_since defaults from_ms put get
failing_crashing = refl

-- The two namespaces of the three pods.
failing_namespaces :
    (n : String)
    → any (str_eq n) ("pay" ∷ "shop" ∷ [])
      ≡ any (λ (e : String × Time). str_eq n (namespace_of e.0)) (crashing_in defaults now failing)
unfolding namespace_of
failing_namespaces n = rw failing_crashing (ground arith)

incidents_open_iff_example :
    Triple
      (λ u. u ≡ failing)
      (incidents defaults now)
      (λ (_ : Unit {0}) u.
        (IsWide defaults now failing ("pay" ∷ "shop" ∷ [])
          × HasOpened defaults now failing ("pay" ∷ "shop" ∷ []) u)
        ⊎ ((¬ IsWide defaults now failing ("pay" ∷ "shop" ∷ [])) × (u ≡ failing)))
      (λ _ u. u ≡ failing)
unfolding sort_by
incidents_open_iff_example =
    incidents_open_iff defaults now failing ("pay" ∷ "shop" ∷ []) refl ((refl, tt), (tt, tt))
      failing_namespaces

abbrev incident_row : IncidentRow
incident_row = record { id = 1; opened_ts = 172_500_000; closed_ts = none; pods = "shop/web" ∷ [] }

-- The incident's pod still waits in its crash loop.
abbrev unhealthy : Tables
unhealthy = record empty {
  pods = pod_row "shop" "web" "CrashLoopBackOff" 172_500_000 ∷ [];
  incidents = incident_row ∷ [];
}

-- It has been running for a day.
abbrev recovered : Tables
recovered = record empty {
  pods = pod_row "shop" "web" "" 86_400_000 ∷ [];
  incidents = incident_row ∷ [];
}

abbrev shop_incident : Incident
shop_incident = record {
  id = 1;
  opened = 172_500_000_000_000;
  closed = none;
  pods = "shop/web" ∷ [];
  changes = [];
}

unhealthy-open : open_in defaults now unhealthy ≡ shop_incident ∷ []
unfolding overlaps sort_by scan_incident ms from_ms
unhealthy-open = refl

unhealthy_pods :
    any (keeps_open defaults now unhealthy) (pods_now defaults now unhealthy shop_incident) ≡ true
unfolding is_unsteady find_by pod_key added_pods times_of group_min defaults from_ms
unhealthy_pods = refl

incidents_held_example :
    Triple
      (λ u. u ≡ unhealthy)
      (incidents defaults now)
      (λ (_ : Unit {0}) u. closings defaults now u ≡ closings defaults now unhealthy)
      (λ _ u. closings defaults now u ≡ closings defaults now unhealthy)
incidents_held_example =
    incidents_held defaults now unhealthy shop_incident [] unhealthy-open unhealthy_pods

abbrev crashing : Dict Time
crashing = ("shop/web", 1) ∷ ("shop/cart", 2) ∷ ("pay/api", 3) ∷ []

-- Three pods in two namespaces open an incident by default.
should_open_default : should_open crashing 3 2 ≡ true
unfolding should_open namespaces namespace_of
should_open_default = refl
