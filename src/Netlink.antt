-- ===== src/Netlink.antt =====
-- internal/netlink/view.go: one read of the host's links, addresses, routes and neighbours.
pub mod OnHost
use cluster_recorder.Prelude.{
  ℕ, String, Bool, ◌&&◌, ◌||◌, Option, List, [], ◌∷◌, map, str_eq, ◌==◌, if◌then◌else◌,
}
use cluster_recorder.Prelude.Order.{text_order}
use cluster_recorder.Prelude.Sorting.{sort_by, find_by}

pub record Vxlan : Type 0 where
  pub vni : ℕ
  pub local_addr : String
  pub port : ℕ

pub record Link : Type 0 where
  pub name : String
  pub index : ℕ
  pub type : String
  pub up : Bool
  pub carrier : Bool
  pub mtu : ℕ
  pub master : String
  pub vxlan : Option Vxlan

pub record Addr : Type 0 where
  pub link : String
  pub ip : String
  pub prefix : ℕ
  pub family : ℕ

pub record Route : Type 0 where
  pub dst : String
  pub gateway : String
  pub dev : String
  pub src : String
  pub family : ℕ

pub record Neigh : Type 0 where
  pub dev : String
  pub ip : String
  pub mac : String
  pub state : String

pub record View : Type 0 where
  pub links : List Link
  pub addrs : List Addr
  pub routes : List Route
  pub neighs : List Neigh

-- View.Link
unfoldable pub link_of : View → String → Option Link
link_of v name = find_by (λ (l : Link). l.name) name v.links

first_ipv4 : String → List Addr → String
first_ipv4 link [] = ""
first_ipv4 link (a ∷ addrs) =
    let rest = first_ipv4 link addrs in if str_eq a.link link && a.family == 4 then a.ip else rest

-- View.IPv4
unfoldable pub ipv4 : View → String → String
unfolding first_ipv4
ipv4 v link = first_ipv4 link v.addrs

-- View.LinkNames
unfoldable pub link_names : View → List String
link_names v = sort_by (λ (s : String). s) (map (λ (l : Link). l.name) v.links)

-- Route.IsDefault
unfoldable pub is_default : Route → Bool
is_default r = str_eq r.dst "" || str_eq r.dst "0.0.0.0/0" || str_eq r.dst "::/0"

first_default : List Route → String
unfolding is_default
first_default [] = ""
first_default (r ∷ routes) =
    let rest = first_default routes in if is_default r && r.family == 4 then r.dev else rest

-- View.DefaultDev
unfoldable pub default_dev : View → String
unfolding first_default
default_dev v = first_default v.routes
