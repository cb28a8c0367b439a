-- ===== src/Store/Pods/Since.antt =====
-- How long a pod has been in its state.
use cluster_recorder.Prelude.{
  ◌≡◌, refl, sym, All-imp, ◌∙◌, String, List, [], ◌∷◌, Option, none, some, arith, eq_iff, str_eq,
  if◌then◌else◌, All,
}
use cluster_recorder.Prelude.Order.{text_order}
use cluster_recorder.Prelude.Sorting.{find_by}
use cluster_recorder.Store.Tables.{PodState}
use cluster_recorder.Store.Pods.{key_of, merge_pod, upsert_row}

abbrev merged : PodState → Option PodState → PodState
merged p none = p
merged p (some old) = merge_pod p old

key_of-merge_pod : (p q : PodState) → key_of (merge_pod p q) ≡ key_of q
unfolding merge_pod
key_of-merge_pod p q = refl

-- Recording a pod's state changes the entry of its key, and no other.
pub find_by-upsert_row :
    (p : PodState) (k : String) (ps : List PodState)
    → find_by key_of k (upsert_row p ps) ≡ (
        if str_eq (key_of p) k
        then some (merged p (find_by key_of (key_of p) ps))
        else find_by key_of k ps)
unfolding find_by upsert_row
find_by-upsert_row p k [] = refl
find_by-upsert_row p k (q ∷ qs) = ground (
  arith,
  find_by-upsert_row p k qs,
  eq_iff (key_of q) (key_of p),
  eq_iff (key_of q) k,
  eq_iff (key_of p) k,
  key_of-merge_pod p q,
)

-- The updates of one pod, one after the other.
abbrev pub upserts : List PodState → List PodState → List PodState
upserts [] ps = ps
upserts (u ∷ us) ps = upserts us (upsert_row u ps)

-- An update of the pod `q` that leaves phase and waiting reason as they are.
abbrev pub IsSteady : PodState → PodState → Type 0
IsSteady q u = (key_of u ≡ key_of q) × (u.phase ≡ q.phase) × (u.waiting_reason ≡ q.waiting_reason)

-- However often a pod is reported with the same phase and waiting reason, its state is still said
-- to have begun when it did, so that the time since then is how long the state has lasted.
pub upserts_since :
    (us ps : List PodState) (q : PodState)
    → find_by key_of (key_of q) ps ≡ some q
    → All (IsSteady q) us
    → (r : PodState) × (find_by key_of (key_of q) (upserts us ps) ≡ some r) × (r.since ≡ q.since)
unfolding merge_pod
upserts_since [] ps q found steady = (q, found, refl)
upserts_since (u ∷ us) ps q found steady =
    let found' : find_by key_of (key_of q) (upsert_row u ps) ≡ some (merge_pod u q) =
      find_by-upsert_row u (key_of q) ps ∙ ground (arith, eq_iff (key_of u) (key_of q)) in
    let since' : (merge_pod u q).since ≡ q.since =
      ground (arith, eq_iff q.phase u.phase, eq_iff q.waiting_reason u.waiting_reason) in
    let steady' =
      All-imp (IsSteady q) (IsSteady (merge_pod u q)) us
        (λ v h. (h.0, h.1 ∙ sym steady.0.1, h.2 ∙ sym steady.0.2)) steady.1 in
    let (r, e, s) = upserts_since us (upsert_row u ps) (merge_pod u q) found' steady' in
    (r, e, s ∙ since')
