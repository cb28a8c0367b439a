-- ===== src/Informers/Pods/Changes.antt =====
-- What `PodTransitions` and `PodStateOf` say of a pod.
use cluster_recorder.Prelude.{
  ℕ, ◌+◌, ◌≡◌, refl, String, Bool, true, false, ◌||◌, List, [], ◌∷◌, map, any, arith, str_eq, ap,
  sym, ◌∙◌, ◌++◌, All-of_append, eq_iff,
}
use mathlib.Core.Path.{subst}
use mathlib.Core.List.{Permᴰ, append-nil}
use mathlib.Core.List.Permᴰ.{nil, cons, swap, trans}
use cluster_recorder.Prelude.Order.{text_order, ltb_irrefl}
use cluster_recorder.Prelude.Sorting.{sort_by}
use cluster_recorder.Dict.{Dict, put, IsMap}
use cluster_recorder.Sample.{Time}
use cluster_recorder.Store.Tables.{PodState}
use cluster_recorder.Informers.{Pod, ContainerStatus}
use cluster_recorder.Informers.Pods.{
  container_statuses, waiting_reason, status_at, phase_change, restart_change, waiting_change,
  container_changes, add_statuses, pod_state_in, pod_transitions, add_container, add_containers,
  blank_state,
}

restart_same :
    (p : Pod) (now : Time) (name : String) (c : ContainerStatus)
    → restart_change p now name c c ≡ []
unfolding restart_change
restart_same p now name c = ground (arith, ltb_irrefl c.restart_count)

waiting_same :
    (p : Pod) (now : Time) (name : String) (c : ContainerStatus)
    → waiting_change p now name c c ≡ []
unfolding waiting_change
waiting_same p now name c = ground (arith, eq_iff (waiting_reason c) (waiting_reason c))

containers_same :
    (p : Pod) (now : Time) (m : Dict ContainerStatus) (names : List String)
    → container_changes p now m m names ≡ []
unfolding container_changes
containers_same p now m [] = refl
containers_same p now m (name ∷ names) =
    rw (restart_same p now name (status_at m name), waiting_same p now name (status_at m name))
      (containers_same p now m names)

-- A resync, which reports a pod as it was, gives no transition.
pub pod_transitions_resync : (p : Pod) (now : Time) → pod_transitions p p now ≡ []
unfolding pod_transitions phase_change
pod_transitions_resync p now = ground (
  arith,
  eq_iff p.phase p.phase,
  containers_same p now (container_statuses p) (
      sort_by (λ (s : String). s)
        (map (λ (e : String × ContainerStatus). e.0) (container_statuses p))),
)

abbrev pub is_crashing : ContainerStatus → Bool
is_crashing cs = str_eq (waiting_reason cs) "CrashLoopBackOff"

abbrev pub total_restarts : Dict ContainerStatus → ℕ
total_restarts [] = 0
total_restarts ((k, cs) ∷ m) = cs.restart_count + total_restarts m

-- "CrashLoopBackOff" is not "".
crash_reason : (r : String) → str_eq r "CrashLoopBackOff" ≡ true → str_eq r "" ≡ false
crash_reason r h = let e = (eq_iff r "CrashLoopBackOff").0 h in rw e refl

add_container_crash :
    (cs : ContainerStatus) (s : PodState)
    → str_eq (add_container cs s).waiting_reason "CrashLoopBackOff"
      ≡ (is_crashing cs || str_eq s.waiting_reason "CrashLoopBackOff")
unfolding add_container
add_container_crash cs s =
    ground (arith, crash_reason (waiting_reason cs), crash_reason s.waiting_reason)

add_containers_crash :
    (m : Dict ContainerStatus) (s : PodState)
    → str_eq (add_containers m s).waiting_reason "CrashLoopBackOff" ≡ (
        any (λ (e : String × ContainerStatus). is_crashing e.1) m
        || str_eq s.waiting_reason "CrashLoopBackOff")
unfolding add_containers
add_containers_crash [] s = refl
add_containers_crash ((k, cs) ∷ m) s =
    ground (arith, add_containers_crash m (add_container cs s), add_container_crash cs s)

add_containers_restarts :
    (m : Dict ContainerStatus) (s : PodState)
    → (add_containers m s).restarts ≡ s.restarts + total_restarts m
unfolding add_containers add_container
add_containers_restarts [] s = omega arith
add_containers_restarts ((k, cs) ∷ m) s =
    ground (arith, add_containers_restarts m (add_container cs s))

-- The statuses of containers, each under its name.
abbrev pub named : List ContainerStatus → Dict ContainerStatus
named = map (λ (cs : ContainerStatus). (cs.name, cs))

put_fresh :
    (m rest : Dict ContainerStatus) (k : String) (cs : ContainerStatus)
    → IsMap (m ++ (k, cs) ∷ rest)
    → put m k cs ≡ m ++ (k, cs) ∷ []
unfolding put
put_fresh [] rest k cs d = refl
put_fresh ((j, c) ∷ m) rest k cs d =
    let other : str_eq j k ≡ false =
      (All-of_append (λ (e : String × ContainerStatus). str_eq j e.0 ≡ false) m ((k, cs) ∷ rest)
        d.0).1.0 in
    rw other (ap (λ t. (j, c) ∷ t) (put_fresh m rest k cs d.1))

append_one :
    (m : Dict ContainerStatus) (e : String × ContainerStatus) (rest : Dict ContainerStatus)
    → (m ++ e ∷ []) ++ rest ≡ m ++ e ∷ rest
append_one [] e rest = refl
append_one (x ∷ m) e rest = ap (λ t. x ∷ t) (append_one m e rest)

add_statuses_lem :
    (m : Dict ContainerStatus) (css : List ContainerStatus) (rest : Dict ContainerStatus)
    → IsMap (m ++ (named css ++ rest))
    → add_statuses m css ≡ m ++ named css
unfolding add_statuses
add_statuses_lem m [] rest d = sym (append-nil m)
add_statuses_lem m (cs ∷ css) rest d =
    let fresh = put_fresh m (named css ++ rest) cs.name cs d in
    rw fresh (
      add_statuses_lem (m ++ (cs.name, cs) ∷ []) css rest
        (subst IsMap (sym (append_one m (cs.name, cs) (named css ++ rest))) d)
      ∙ append_one m (cs.name, cs) (named css))

all_statuses :
    (p : Pod)
    → IsMap (named p.init_container_statuses ++ named p.container_statuses)
    → container_statuses p ≡ named p.init_container_statuses ++ named p.container_statuses
unfolding container_statuses
all_statuses p d =
    let first = add_statuses_lem [] p.init_container_statuses (named p.container_statuses) d in
    rw first (
      add_statuses_lem (named p.init_container_statuses) p.container_statuses [] (
        subst (λ t. IsMap (named p.init_container_statuses ++ t))
          (sym (append-nil (named p.container_statuses))) d))

abbrev crashes : Dict ContainerStatus → Bool
crashes = any (λ (e : String × ContainerStatus). is_crashing e.1)

reordered :
    (a b : Dict ContainerStatus)
    → Permᴰ a b
    → (crashes a ≡ crashes b) × (total_restarts a ≡ total_restarts b)
reordered _ _ nil = (refl, refl)
reordered _ _ (cons {a = x} {b = y} {l₁ = a} {l₂ = b} e p) =
    let (crash, total) = reordered a b p in
    (
      ap (λ (s : String × ContainerStatus). is_crashing s.1 || crashes a) e
          ∙ ap (λ r. is_crashing y.1 || r) crash,
      omega (arith, ap (λ (s : String × ContainerStatus). s.1.restart_count) e, total),
    )
reordered _ _ (swap {a = x} {b = y} {a' = x'} {b' = y'} {l = l} e f) = (
  ground (
    arith,
    ap (λ (s : String × ContainerStatus). is_crashing s.1) e,
    ap (λ (s : String × ContainerStatus). is_crashing s.1) f,
  ),
  omega (
    arith,
    ap (λ (s : String × ContainerStatus). s.1.restart_count) e,
    ap (λ (s : String × ContainerStatus). s.1.restart_count) f,
  ),
)
reordered _ _ (trans {l₁ = a} {l₂ = b} {l₃ = c} p q) =
    let (crash, total) = reordered a b p in
    let (crash', total') = reordered b c q in (crash ∙ crash', total ∙ total')

-- When no two containers of a pod, init containers included, share a name, the pod is recorded as waiting
-- in a crash loop exactly if one of them is, and with the restarts of all of them, in whichever order
-- the map of their statuses is visited.
pub pod_state_of_lem :
    (p : Pod) (visited : Dict ContainerStatus)
    → IsMap (named p.init_container_statuses ++ named p.container_statuses)
    → Permᴰ visited (container_statuses p)
    → let statuses = named p.init_container_statuses ++ named p.container_statuses in
      (str_eq (pod_state_in visited p).waiting_reason "CrashLoopBackOff"
        ≡ any (λ (e : String × ContainerStatus). is_crashing e.1) statuses)
      × ((pod_state_in visited p).restarts ≡ total_restarts statuses)
unfolding pod_state_in
pod_state_of_lem p visited d order =
    let (crash, total) = reordered visited (container_statuses p) order in
    let all_of_them = all_statuses p d in
    (
      ground (arith, add_containers_crash visited (blank_state p)) ∙ crash ∙ ap crashes all_of_them,
      omega (arith, add_containers_restarts visited (blank_state p))
          ∙ total
          ∙ ap total_restarts all_of_them,
    )
