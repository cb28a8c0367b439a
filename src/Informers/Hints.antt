-- ===== src/Informers/Hints.antt =====
-- internal/informers/hints.go: what the collector tells an agent. What the listers give is an argument:
-- none where they report an error.
use Prim.Native.String.{len}
use text.Mathlib.Text.{starts_with, get?}
use cluster_recorder.Prelude.{
  ◌≡◌, refl, String, ◌<>◌, not, ◌&&◌, Option, none, some, List, [], ◌∷◌, ◌++◌, length, ◌==◌, str_eq,
  map, if◌then◌else◌,
}
use cluster_recorder.Prelude.Order.{text_order}
use cluster_recorder.Prelude.Sorting.{sort_by}
use cluster_recorder.Informers.{Node}

-- The parts of a container that `clusterCIDR` reads.
pub record Container : Type 0 where
  pub command : List String
  pub args : List String

pub record Hints : Type 0 where
  pub daemon_sets : List String
  pub pod_cidrs : List String

-- What the listers have: the DaemonSets as namespace and name, the node if it is known, and the
-- containers of each controller-manager pod.
pub record Listers : Type 0 where
  pub daemon_sets : Option (List (String × String))
  pub node : String → Option Node
  pub controller_managers : Option (List (List Container))

cut_prefix : String → String → Option String
cut_prefix s prefix = if starts_with s prefix then get? s (len prefix) (len s) else none

or_else : Option String → Option String → Option String
or_else none b = b
or_else (some a) b = some a

-- The three loops of `clusterCIDR`, the innermost first.
cidr_in_args : List String → Option String
unfolding cut_prefix or_else
cidr_in_args [] = none
cidr_in_args (a ∷ as') = or_else (cut_prefix a "--cluster-cidr=") (cidr_in_args as')

cidr_in_pod : List Container → Option String
unfolding cidr_in_args
cidr_in_pod [] = none
cidr_in_pod (c ∷ cs) = or_else (cidr_in_args (c.command ++ c.args)) (cidr_in_pod cs)

cidr_in_pods : List (List Container) → Option String
unfolding cidr_in_pod
cidr_in_pods [] = none
cidr_in_pods (p ∷ ps) = or_else (cidr_in_pod p) (cidr_in_pods ps)

text_or_empty : Option String → String
text_or_empty none = ""
text_or_empty (some s) = s

-- clusterCIDR
unfoldable pub cluster_cidr : Option (List (List Container)) → String
unfolding cidr_in_pods text_or_empty
cluster_cidr none = ""
cluster_cidr (some pods) = text_or_empty (cidr_in_pods pods)

unfoldable pub node_cidrs : Option Node → List String
node_cidrs none = []
node_cidrs (some n) =
    if length n.pod_cidrs == 0 && not (str_eq n.pod_cidr "") then n.pod_cidr ∷ [] else n.pod_cidrs

cidrs_with : List String → String → List String
cidrs_with cidrs cluster = if str_eq cluster "" then cidrs else cidrs ++ cluster ∷ []

abbrev qualified : String × String → String
qualified (namespace, name) = namespace <> ("/" <> name)

hints_of : Option (List (String × String)) → List String → Option Hints
hints_of none cidrs = none
hints_of (some dss) cidrs =
    some
      (record { daemon_sets = sort_by (λ (s : String). s) (map qualified dss); pod_cidrs = cidrs })

-- Hints; none is the lister's error.
unfoldable pub hints : Listers → String → Option Hints
unfolding cluster_cidr node_cidrs cidrs_with hints_of
hints l node =
    hints_of l.daemon_sets
      (cidrs_with (node_cidrs (l.node node)) (cluster_cidr l.controller_managers))

flag_is_cut : cut_prefix "--cluster-cidr=10.244.0.0/16" "--cluster-cidr=" ≡ some "10.244.0.0/16"
unfolding cut_prefix
flag_is_cut = refl
