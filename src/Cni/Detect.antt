-- ===== src/Cni/Detect.antt =====
-- internal/cni/detect.go and the detection helpers of driver.go.
use Prim.Native.Nat.{ℕ}
use Prim.Native.Char.{code}
use Prim.Native.String.{◌++◌ as ◌<>◌}
use cluster_recorder.Prelude.{
  ◌+◌, ◌≤◌, ◌≡◌, refl, String, Bool, false, not, ◌&&◌, ◌||◌, Option, none, some, List, [], ◌∷◌,
  ◌++◌, map, any, ltb, str_eq, ◌==◌, if◌then◌else◌, arith, All,
}
use cluster_recorder.Prelude.Order.{text_order}
use cluster_recorder.Prelude.Sorting.{find_by}
use cluster_recorder.Cni.Drivers.{Driver, flannel, calico, cilium, generic, name_of}

pub record CniConfig : Type 0 where
  pub file : String
  pub plugin_types : List String

pub record DetectContext : Type 0 where
  pub cni_configs : List CniConfig
  pub daemon_sets : List String
  pub interfaces : List String

-- hasAny
unfoldable pub has_any : List String → List String → Bool
has_any list wanted = any (λ (l : String). any (str_eq l) wanted) list

-- pluginTypes
unfoldable pub plugin_types : List CniConfig → List String
plugin_types [] = []
plugin_types (c ∷ cs) = c.plugin_types ++ plugin_types cs

has_slash : String → Bool
has_slash String.[] = false
has_slash (String.◌∷◌ c s) = code c == 47 || has_slash s

-- What follows the last slash, or all if there is none.
unfoldable pub after_slash : String → String
unfolding has_slash
after_slash String.[] = ""
after_slash (String.◌∷◌ c s) =
    let rest = after_slash s in
    if has_slash s then rest else if code c == 47 then s else String.◌∷◌ c s

-- dsNames
unfoldable pub ds_names : List String → List String
unfolding after_slash
ds_names dss = map after_slash dss

-- score
unfoldable pub score : Bool → Bool → Bool → String → ℕ × String
score cfg ds iface name =
    let n = (if cfg then 70 else 0) + ((if ds then 40 else 0) + (if iface then 20 else 0)) in
    let why =
      (if cfg then name <> " in CNI config; " else "")
      <> ((if ds then name <> " DaemonSet present; " else "")
          <> (if iface then name <> " interfaces present; " else "")) in
    (if ltb 100 n then 100 else n, if str_eq why "" then "no " <> (name <> " signals") else why)

-- The `Detect` of each driver.
unfoldable pub detect_flannel : DetectContext → ℕ × String
unfolding has_any plugin_types ds_names score
detect_flannel ctx =
    score (has_any (plugin_types ctx.cni_configs) ("flannel" ∷ []))
      (has_any (ds_names ctx.daemon_sets) ("kube-flannel-ds" ∷ "kube-flannel" ∷ []))
      (has_any ctx.interfaces ("flannel.1" ∷ []) || has_any ctx.interfaces ("cni0" ∷ [])) "flannel"

unfoldable pub detect_calico : DetectContext → ℕ × String
unfolding has_any plugin_types ds_names score
detect_calico ctx =
    score (has_any (plugin_types ctx.cni_configs) ("calico" ∷ []))
      (has_any (ds_names ctx.daemon_sets) ("calico-node" ∷ []))
      (has_any ctx.interfaces ("vxlan.calico" ∷ "tunl0" ∷ [])
        && not (has_any ctx.interfaces ("cni0" ∷ [])))
      "calico"

unfoldable pub detect_cilium : DetectContext → ℕ × String
unfolding has_any plugin_types ds_names score
detect_cilium ctx =
    score (has_any (plugin_types ctx.cni_configs) ("cilium-cni" ∷ []))
      (has_any (ds_names ctx.daemon_sets) ("cilium" ∷ []))
      (has_any ctx.interfaces ("cilium_host" ∷ [])) "cilium"

-- Detect
unfoldable pub detect : Driver → DetectContext → ℕ × String
unfolding detect_flannel detect_calico detect_cilium
detect (flannel mode) ctx = detect_flannel ctx
detect (calico mode) ctx = detect_calico ctx
detect (cilium mode) ctx = detect_cilium ctx
detect generic ctx = (1, "fallback: no recognised CNI")

-- Registry
abbrev pub registry : List Driver
registry = flannel "" ∷ calico "" ∷ cilium "" ∷ generic ∷ []

pub record Choice : Type 0 where
  pub driver : Driver
  pub confidence : ℕ
  pub reason : String

abbrev candidate : DetectContext → Driver → Choice
candidate ctx d = let (c, why) = detect d ctx in record { driver = d; confidence = c; reason = why }

-- The loop over the drivers: the first, and then each that is more confident.
unfoldable pub best_of : DetectContext → Choice → List Driver → Choice
best_of ctx best [] = best
best_of ctx best (d ∷ ds) =
    best_of ctx (if ltb best.confidence (candidate ctx d).confidence then candidate ctx d else best)
      ds

forced : String → List Driver → Option Choice
forced force ds = elim (find_by name_of force ds) [
  | none ↦ none
  | some d ↦
      some (record { driver = d; confidence = 100; reason = "forced by CNI_DRIVER=" <> force })
]

-- The outcome of the detection.
unfoldable pub detected : DetectContext → Choice
unfolding best_of
detected ctx = best_of ctx (candidate ctx (flannel "")) (calico "" ∷ cilium "" ∷ generic ∷ [])

-- Choose; `none` is the error "no such driver".
unfoldable pub choose : String → DetectContext → Option Choice
unfolding detected forced
choose force ctx =
    if not (str_eq force "") && not (str_eq force "auto")
    then forced force registry
    else some (detected ctx)

best_of_most :
    (ctx : DetectContext) (best : Choice) (ds : List Driver)
    → (best.confidence ≤ (best_of ctx best ds).confidence)
      × All (λ d. (detect d ctx).0 ≤ (best_of ctx best ds).confidence) ds
unfolding best_of
best_of_most ctx best [] = (omega arith, tt)
best_of_most ctx best (d ∷ ds) =
    let next = if ltb best.confidence (candidate ctx d).confidence then candidate ctx d else best in
    let (more, rest) = best_of_most ctx next ds in
    (ground (arith, more), (ground (arith, more), rest))

-- Detection takes a driver that is as confident as any, and never fails.
pub choose_most :
    (ctx : DetectContext)
    → (c : Choice) × (choose "auto" ctx ≡ some c)
      × All (λ d. (detect d ctx).0 ≤ c.confidence) registry
unfolding choose
choose_most ctx =
    let (first, rest) =
      best_of_most ctx (candidate ctx (flannel "")) (calico "" ∷ cilium "" ∷ generic ∷ []) in
    (
      best_of ctx (candidate ctx (flannel "")) (calico "" ∷ cilium "" ∷ generic ∷ []),
      refl,
      (first, rest),
    )

-- Whatever the signals, a confidence is at most 100.
pub score_le_100 : (cfg ds iface : Bool) (name : String) → (score cfg ds iface name).0 ≤ 100
unfolding score
score_le_100 cfg ds iface name = ground arith
