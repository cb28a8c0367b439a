-- ===== src/Cni/Sticky.antt =====
-- A driver's mode is pinned: an overlay that vanishes is an outage, not another mode.
use cluster_recorder.Prelude.{
  ℕ, ◌≡◌, refl, ap, ◌∙◌, String, Bool, true, false, not, ◌&&◌, Option, none, some, List, [], str_eq,
  arith, if◌then◌else◌, is_some, Bool-cases, inl, inr,
}
use cluster_recorder.Dict.{Dict, get, put}
use cluster_recorder.Dict.Laws.{get-put}
use cluster_recorder.Sample.{Field, absent}
use cluster_recorder.Netlink.{View, Link, link_of, ipv4, default_dev}
use cluster_recorder.Cni.{
  keys, key_overlay, key_overlay_local, key_overlay_vni, key_pod_bridge, key_interfaces,
  key_primary_nic_state, key_primary_nic_carrier, key_pod_cidr_routes, key_neighbour_table,
  pod_cidr_routes, link_fields, no_link, common, primary_nic, nic_fields,
}
use cluster_recorder.Cni.Drivers.{
  Driver, flannel, calico, cilium, generic, name_of, pinned, declared, flannel_mode, calico_mode,
  cilium_mode, driver_sample, flannel_sample, flannel_topology,
}
use cluster_recorder.Cni.Report.{field_at, view, sample}
use cluster_recorder.Cni.Complete.{get-sample}

flannel_set : (m : String) (v : View) → str_eq (flannel_mode m v) "" ≡ false
unfolding flannel_mode
flannel_set m v = elim (Bool-cases (str_eq m "")) [
  | inl first ↦ rw first (named (is_some (link_of v "flannel.1")))
  | inr later ↦ rw later later
]
  where
    named : (b : Bool) → str_eq (if b then "vxlan" else "host-gw") "" ≡ false
    named true = refl
    named false = refl

flannel_kept : (m : String) (w : View) → str_eq m "" ≡ false → flannel_mode m w ≡ m
unfolding flannel_mode
flannel_kept m w h = ground arith

calico_set : (m : String) (v : View) → str_eq (calico_mode m v) "" ≡ false
unfolding calico_mode
calico_set m v = elim (Bool-cases (str_eq m "")) [
  | inl first ↦ rw first (
      named (is_some (link_of v "vxlan.calico"))
        (is_some (link_of v "tunl0") && not (str_eq (ipv4 v "tunl0") "")))
  | inr later ↦ rw later later
]
  where
    named :
        (a b : Bool) → str_eq (if a then "vxlan" else if b then "ipip" else "routing") "" ≡ false
    named true b = refl
    named false true = refl
    named false false = refl

calico_kept : (m : String) (w : View) → str_eq m "" ≡ false → calico_mode m w ≡ m
unfolding calico_mode
calico_kept m w h = ground arith

cilium_set : (m : String) (v : View) → str_eq (cilium_mode m v) "" ≡ false
unfolding cilium_mode
cilium_set m v = elim (Bool-cases (str_eq m "")) [
  | inl first ↦
      rw first (named (is_some (link_of v "cilium_vxlan")) (is_some (link_of v "cilium_geneve")))
  | inr later ↦ rw later later
]
  where
    named :
        (a b : Bool) → str_eq (if a then "vxlan" else if b then "geneve" else "native") "" ≡ false
    named true b = refl
    named false true = refl
    named false false = refl

cilium_kept : (m : String) (w : View) → str_eq m "" ≡ false → cilium_mode m w ≡ m
unfolding cilium_mode
cilium_kept m w h = ground arith

-- Once a driver has looked at a node, no later view changes its mode, and so none changes which fields
-- it declares not applicable.
pub pinned-pinned : (d : Driver) (v w : View) → pinned (pinned d v) w ≡ pinned d v
unfolding pinned
pinned-pinned (flannel m) v w = ap flannel (flannel_kept (flannel_mode m v) w (flannel_set m v))
pinned-pinned (calico m) v w = ap calico (calico_kept (calico_mode m v) w (calico_set m v))
pinned-pinned (cilium m) v w = ap cilium (cilium_kept (cilium_mode m v) w (cilium_set m v))
pinned-pinned generic v w = refl

get-nic_fields :
    (dev : String) (l : Option Link) (out : Dict Field)
    → get (nic_fields dev l out) key_overlay ≡ get out key_overlay
unfolding nic_fields
get-nic_fields dev none out =
    get-put _ key_primary_nic_carrier key_overlay _
    ∙ get-put out key_primary_nic_state key_overlay _
get-nic_fields dev (some l) out = elim (Bool-cases (str_eq dev "")) [
  | inl nowhere ↦ rw nowhere (
      get-put _ key_primary_nic_carrier key_overlay _
      ∙ get-put out key_primary_nic_state key_overlay _)
  | inr there ↦ rw there (
      get-put _ key_primary_nic_carrier key_overlay _
      ∙ get-put out key_primary_nic_state key_overlay _)
]

get-common :
    (lies_in : String → String → Bool) (v : View) (pod_cidrs : List String) (out : Dict Field)
    → get (common lies_in v pod_cidrs out) key_overlay ≡ get out key_overlay
unfolding common primary_nic nic_fields
get-common lies_in v pod_cidrs out =
    let nic =
      get-nic_fields (default_dev v) (link_of v (default_dev v))
        (put out key_pod_cidr_routes (pod_cidr_routes lies_in v pod_cidrs)) in
    get-put _ key_interfaces key_overlay _ ∙ nic ∙ get-put out key_pod_cidr_routes key_overlay _

link_fields_missing :
    (v : View) (prefix name : String) (out : Dict Field)
    → link_of v name ≡ none
    → link_fields v prefix name out ≡ no_link prefix out
unfolding link_fields
link_fields_missing v prefix name out gone = rw gone refl

get-no_link : (out : Dict Field) → get (no_link key_overlay out) key_overlay ≡ some absent
unfolding no_link
get-no_link out =
    get-put _ key_overlay_local key_overlay _
    ∙ get-put _ key_overlay_vni key_overlay _
    ∙ get-put _ "overlay_tunnel.state" key_overlay _
    ∙ get-put _ "overlay_tunnel.mtu" key_overlay _
    ∙ get-put _ "overlay_tunnel.ipv4" key_overlay _
    ∙ get-put out key_overlay key_overlay absent

flannel_overlay :
    (lies_in : String → String → Bool) (pod_cidrs : List String) (after : View)
    → link_of after "flannel.1" ≡ none
    → get (driver_sample lies_in (flannel "vxlan") after pod_cidrs) key_overlay ≡ some absent
unfolding driver_sample flannel_sample
flannel_overlay lies_in pod_cidrs after gone =
    let out = link_fields after key_pod_bridge "cni0" [] in
    get-common lies_in after pod_cidrs _
    ∙ get-put _ key_neighbour_table key_overlay _
    ∙ ap (λ m. get m key_overlay) (link_fields_missing after key_overlay "flannel.1" out gone)
    ∙ get-no_link out

reported :
    (na : Dict String) (got : Dict Field) (name : String)
    → get na key_overlay ≡ none
    → get got key_overlay ≡ some absent
    → field_at name na got key_overlay ≡ absent
unfolding field_at
reported na got name a b = rw (a, b) refl

-- Once flannel's mode is pinned to its overlay, a view without it gives an absent overlay.
pub flannel_pinned :
    (lies_in : String → String → Bool) (confidence : ℕ) (reason : String) (pod_cidrs : List String)
    (after : View)
    → link_of after "flannel.1" ≡ none
    → get
        (sample lies_in (flannel "vxlan") confidence reason (view after) pod_cidrs).1.fields
        key_overlay
      ≡ some absent
unfolding declared flannel_topology get keys pinned flannel_mode
flannel_pinned lies_in confidence reason pod_cidrs after gone =
    get-sample lies_in (flannel "vxlan") confidence reason pod_cidrs after key_overlay
    ∙ ap some (
        reported [] (driver_sample lies_in (flannel "vxlan") after pod_cidrs)
          (name_of (flannel "vxlan")) refl (flannel_overlay lies_in pod_cidrs after gone))
