-- ===== src/Incident/Grouping.antt =====
-- The grouping rule: crashing pods, counted by their namespaces.
use Prim.Native.Nat.{ℕ}
use Prim.Native.Char.{code}
use Prim.Native.String.append
use Prim.Native.String.{◌++◌ as ◌<>◌}
use cluster_recorder.Prelude.{
  ◌≡◌, refl, ap, ◌∙◌, ◌≤◌, ◌↔◌, String, Bool, true, false, ◌||◌, List, [], ◌∷◌, arith, ◌==◌, eq_iff,
  str_eq, any, length, Bool-cases, inl, inr, All,
}
use cluster_recorder.Prelude.Order.{text_order}
use cluster_recorder.Prelude.Sorting.{Distinct}
use cluster_recorder.Dict.{Dict}
use cluster_recorder.Sample.{Time}
use cluster_recorder.Store.Pods.{pod_key}
use cluster_recorder.Incident.{namespace_of, add_namespace, namespaces, should_open}

-- A name without a slash, as Kubernetes requires of a namespace.
abbrev pub has_slash : String → Bool
has_slash String.[] = false
has_slash (String.◌∷◌ c s) = code c == 47 || has_slash s

-- The namespace of a pod's key is the pod's namespace.
pub namespace_of-pod_key :
    (ns name : String) → has_slash ns ≡ false → namespace_of (pod_key ns name) ≡ ns
unfolding namespace_of pod_key
namespace_of-pod_key String.[] name h = rw (append.nil ("/" <> name), append.cons "/" "" name) refl
namespace_of-pod_key (String.◌∷◌ c ns) name h =
    rw (append.cons c ns ("/" <> name)) (ground (arith, namespace_of-pod_key ns name))

fresh :
    (n : String) (ns : List String) → any (str_eq n) ns ≡ false → All (λ m. str_eq n m ≡ false) ns
fresh n [] h = tt
fresh n (m ∷ ns) h = ground (arith, fresh n ns)

add_namespace-Distinct :
    (n : String) (ns : List String)
    → Distinct (λ (m : String). m) ns
    → Distinct (λ (m : String). m) (add_namespace n ns)
unfolding add_namespace
add_namespace-Distinct n ns d = elim (Bool-cases (any (str_eq n) ns)) [
  | inl found ↦ rw found d
  | inr missing ↦ rw missing (fresh n ns missing, d)
]

any-add_namespace :
    (m n : String) (ns : List String)
    → any (str_eq m) (add_namespace n ns) ≡ (str_eq m n || any (str_eq m) ns)
unfolding add_namespace
any-add_namespace m n ns = ground (arith, same_any m n ns)
  where
    same_any :
        (a b : String) (ns : List String)
        → any (str_eq b) ns ≡ true
        → str_eq a b ≡ true
        → any (str_eq a) ns ≡ true
    same_any a b [] h e = absurd (cc)
    same_any a b (c ∷ cs) h e = ground (arith, same_any a b cs, eq_iff a b, eq_iff b c, eq_iff a c)

-- The set that the grouping rule counts has each namespace of a crashing pod, no other, and none twice.
pub namespaces_lem :
    (crashing : Dict Time)
    → Distinct (λ (n : String). n) (namespaces crashing)
      × ((n : String)
          → any (str_eq n) (namespaces crashing)
            ≡ any (λ (e : String × Time). str_eq n (namespace_of e.0)) crashing)
unfolding namespaces
namespaces_lem [] = (tt, λ n. refl)
namespaces_lem ((k, t) ∷ crashing) =
    let (distinct, same) = namespaces_lem crashing in
    (
      add_namespace-Distinct (namespace_of k) (namespaces crashing) distinct,
      λ n.
          any-add_namespace n (namespace_of k) (namespaces crashing)
          ∙ ap (λ b. str_eq n (namespace_of k) || b) (same n),
    )

-- The rule: as many pods as the first threshold says, in as many namespaces as the second says.
pub should_open_iff :
    (crashing : Dict Time) (pods ns : ℕ)
    → (should_open crashing pods ns ≡ true)
      ↔ ((pods ≤ length crashing) × (ns ≤ length (namespaces crashing)))
unfolding should_open
should_open_iff crashing pods ns = ground arith
