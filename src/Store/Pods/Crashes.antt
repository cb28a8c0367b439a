-- ===== src/Store/Pods/Crashes.antt =====
-- `CrashLoopsSince`: which pods it reports, and the time of each.
use cluster_recorder.Prelude.{
  ℕ, ◌≡◌, ◌⊎◌, refl, sym, String, Bool, true, false, List, [], ◌∷◌, Option, none, some, arith,
  eq_iff, str_eq, ◌==◌, All-imp, map_option, any, ◌&&◌, ◌≤◌, All, Bool-cases, inl, inr,
}
use mathlib.Core.Path.{subst}
use cluster_recorder.Prelude.Order.{==_iff}
use cluster_recorder.Dict.{Dict, get, has, IsMap}
use cluster_recorder.Dict.Laws.{get-put, put-IsMap}
use cluster_recorder.Store.Tables.{PodTransition, from_ms}
use cluster_recorder.Store.Pods.{pod_key, group_min, min_with, times_of}

abbrev pub transition_key : PodTransition → String
transition_key r = pod_key r.namespace r.name

pub group_min-IsMap : (rs : List PodTransition) → IsMap (group_min rs)
unfolding group_min
group_min-IsMap [] = tt
group_min-IsMap (r ∷ rs) =
    put-IsMap (group_min rs) (transition_key r)
      (min_with (get (group_min rs) (transition_key r)) r.time) (group_min-IsMap rs)

-- A key is among the groups exactly if a row has it.
pub has-group_min :
    (rs : List PodTransition) (k : String)
    → has (group_min rs) k ≡ any (λ (r : PodTransition). str_eq (transition_key r) k) rs
unfolding group_min get
has-group_min [] k = refl
has-group_min (r ∷ rs) k = ground (
  arith,
  has-group_min rs k,
  get-put (group_min rs) (transition_key r) k
      (min_with (get (group_min rs) (transition_key r)) r.time),
)

-- A lower bound on the times of a key's rows, and a time that one of them has.
abbrev pub IsLeast : String → ℕ → PodTransition → Type 0
IsLeast k v r = str_eq (transition_key r) k ≡ true → v ≤ r.time

abbrev pub attained : String → ℕ → List PodTransition → Bool
attained k v = any (λ (r : PodTransition). str_eq (transition_key r) k && (r.time == v))

-- What the group of `k` says of the rows: there is none, or its time is their least.
abbrev pub LeastAt : String → Option ℕ → List PodTransition → Type 0
LeastAt k none rs = All (λ (r : PodTransition). str_eq (transition_key r) k ≡ true → ⊥) rs
LeastAt k (some v) rs = All (IsLeast k v) rs × (attained k v rs ≡ true)

min_with-All :
    (k : String) (o : Option ℕ) (v : ℕ) (rs : List PodTransition)
    → LeastAt k o rs
    → All (IsLeast k (min_with o v)) rs
unfolding min_with
min_with-All k none v rs h =
    All-imp (λ (r : PodTransition). str_eq (transition_key r) k ≡ true → ⊥) (IsLeast k v) rs
      (λ r no m. absurd (no m)) h
min_with-All k (some w) v rs h =
    All-imp (IsLeast k w) (IsLeast k (min_with (some w) v)) rs
      (λ r le m. let l = le m in ground arith) h.0

min_with-or : (w v : ℕ) → (min_with (some w) v ≡ v) ⊎ (min_with (some w) v ≡ w)
unfolding min_with
min_with-or w v = ground arith

attained_here :
    (k : String) (r : PodTransition) (rs : List PodTransition)
    → str_eq (transition_key r) k ≡ true
    → attained k r.time (r ∷ rs) ≡ true
attained_here k r rs m = ground (arith, ==_iff r.time r.time)

min_with-LeastAt :
    (k : String) (o : Option ℕ) (r : PodTransition) (rs : List PodTransition)
    → str_eq (transition_key r) k ≡ true
    → LeastAt k o rs
    → LeastAt k (some (min_with o r.time)) (r ∷ rs)
unfolding min_with
min_with-LeastAt k none r rs m h =
    ((λ _. omega arith, min_with-All k none r.time rs h), ground (arith, ==_iff r.time r.time))
min_with-LeastAt k (some w) r rs m h = (
  (λ _. ground arith, min_with-All k (some w) r.time rs h),
  elim (min_with-or w r.time) [
    | inl here ↦ subst (λ u. attained k u (r ∷ rs) ≡ true) (sym here) (attained_here k r rs m)
    | inr there ↦ subst (λ u. attained k u (r ∷ rs) ≡ true) (sym there) (ground (arith, h.1))
  ],
)

other-LeastAt :
    (k : String) (o : Option ℕ) (r : PodTransition) (rs : List PodTransition)
    → str_eq (transition_key r) k ≡ false
    → LeastAt k o rs
    → LeastAt k o (r ∷ rs)
other-LeastAt k none r rs m h = ((λ e. absurd (cc)), h)
other-LeastAt k (some v) r rs m h = ((λ e. absurd (cc), h.0), ground (arith, h.1))

-- The time of a group is the least that a row of its key has; a key without a group has no row.
pub group_min-LeastAt : (rs : List PodTransition) (k : String) → LeastAt k (get (group_min rs) k) rs
unfolding group_min
group_min-LeastAt [] k = unfold get in tt
group_min-LeastAt (r ∷ rs) k =
    let key = transition_key r in
    rw (get-put (group_min rs) key k (min_with (get (group_min rs) key) r.time))
      (elim (Bool-cases (str_eq key k)) [
        | inl same ↦
            let e = (eq_iff key k).0 same in
            rw same (
              min_with-LeastAt k (get (group_min rs) key) r rs same
                (subst (λ i. LeastAt k (get (group_min rs) i) rs) (sym e) (group_min-LeastAt rs k)))
        | inr other ↦
            rw other (other-LeastAt k (get (group_min rs) k) r rs other (group_min-LeastAt rs k))
      ])

-- The map has the same keys, its times cut to milliseconds.
pub get-times_of : (m : Dict ℕ) (k : String) → get (times_of m) k ≡ map_option from_ms (get m k)
unfolding times_of get
get-times_of [] k = refl
get-times_of ((j, v) ∷ m) k = ground (arith, get-times_of m k)
