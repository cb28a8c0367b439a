-- ===== src/Incident/Counts.antt =====
-- What the counts of the evaluation's queries say of the rows.
use cluster_recorder.Prelude.{
  ℕ, ◌≡◌, refl, ◌∙◌, ap, String, Bool, true, ◌&&◌, List, [], ◌∷◌, arith, ltb, eq_iff, str_eq, any,
  all, length, select, map, Bool-cases, inl, inr,
}
use cluster_recorder.Prelude.Order.{Order, text_order}
use cluster_recorder.Prelude.Sorting.{sort_by, insert_by}
use cluster_recorder.Dict.{Dict, put}
use cluster_recorder.Store.Tables.{PodTransition, SnapshotRow}
use cluster_recorder.Store.Pods.{group_min, times_of}
use cluster_recorder.Store.Snapshots.Nodes.{NodeSummary, add_node, nodes_of, summary}

module _ {A : Type 0} where
  -- A count that is not 0 has found a row.
  pub count-select : (p : A → Bool) (xs : List A) → ltb 0 (length (select p xs)) ≡ any p xs
  count-select p [] = refl
  count-select p (x ∷ xs) = ground (arith, count-select p xs)

  all-insert_by {κ} :
      {K : Type κ}
      → ⦃o : Order K⦄ → (key : A → K) (p : A → Bool) (x : A) (xs : List A)
      → all p (insert_by key x xs) ≡ (p x && all p xs)
  unfolding insert_by
  all-insert_by key p x [] = ground arith
  all-insert_by key p x (y ∷ ys) = ground (arith, all-insert_by key p x ys)

  pub all-sort_by {κ} :
      {K : Type κ}
      → ⦃o : Order K⦄ → (key : A → K) (p : A → Bool) (xs : List A)
      → all p (sort_by key xs) ≡ all p xs
  unfolding sort_by
  all-sort_by key p [] = refl
  all-sort_by key p (x ∷ xs) =
      ground (arith, all-insert_by key p x (sort_by key xs), all-sort_by key p xs)

some_group : {V : Type 0} → (m : Dict V) (k : String) (v : V) → ltb 0 (length (put m k v)) ≡ true
unfolding put
some_group [] k v = refl
some_group ((j, w) ∷ m) k v = ground arith

some_time : (m : Dict ℕ) → length (times_of m) ≡ length m
unfolding times_of
some_time [] = refl
some_time ((k, v) ∷ m) = cc (some_time m)

-- There is a group exactly if there is a row.
pub count-group_min :
    (p : PodTransition → Bool) (rs : List PodTransition)
    → ltb 0 (length (times_of (group_min (select p rs)))) ≡ any p rs
unfolding group_min times_of
count-group_min p [] = refl
count-group_min p (r ∷ rs) = elim (Bool-cases (p r)) [
  | inl crash ↦ rw (crash, some_time (group_min (r ∷ select p rs))) (some_group _ _ _)
  | inr other ↦ rw other (count-group_min p rs)
]

-- The nodes are those of the snapshots.
pub all-nodes_of :
    (p : String → Bool) (rs : List SnapshotRow)
    → all p (nodes_of rs) ≡ all (λ (r : SnapshotRow). p r.node) rs
unfolding nodes_of add_node
all-nodes_of p [] = refl
all-nodes_of p (r ∷ rs) =
    all-add_node r.node (nodes_of rs) ∙ ap (λ b. p r.node && b) (all-nodes_of p rs)
  where
    all-any :
        (n : String) (ns : List String) → any (str_eq n) ns ≡ true → all p ns ≡ true → p n ≡ true
    all-any n [] found h = absurd (cc)
    all-any n (m ∷ ns) found h = ground (arith, all-any n ns, eq_iff n m)

    all-add_node : (n : String) (ns : List String) → all p (add_node n ns) ≡ (p n && all p ns)
    all-add_node n ns = ground (arith, all-any n ns)

pub all-summary :
    (p : String → Bool) (rs : List SnapshotRow) (ns : List String)
    → all (λ (n : NodeSummary). p n.node) (map (summary rs) ns) ≡ all p ns
unfolding summary
all-summary p rs [] = refl
all-summary p rs (n ∷ ns) = ap (λ b. p n && b) (all-summary p rs ns)
