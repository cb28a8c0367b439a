-- ===== src/Ctl/Verdicts.antt =====
-- When `status` says that all is well.
use cluster_recorder.Prelude.{
  ℕ, ◌≡◌, ◌↔◌, ◌∙◌, refl, String, Bool, true, false, not, ◌&&◌, Option, none, some, List, [], ◌∷◌,
  ◌++◌, arith, length, length-map, ◌<>◌, map_option, ◌==◌, map, all, any, if◌then◌else◌,
}
use cluster_recorder.Prelude.Order.{text_order}
use cluster_recorder.Prelude.Ordering.{length-sort_by}
use cluster_recorder.Dict.{Dict}
use cluster_recorder.Store.Incidents.{Incident}
use cluster_recorder.Store.Snapshots.Nodes.{NodeSummary}
use cluster_recorder.Api.{FieldDiff, SourceDiff}
use cluster_recorder.Ctl.{
  ◌>>=◌, Client, age, incident_problem, is_changed_field, names_of, all_names, changed_names,
  differs, Verdict, fine, verdict_of, compared, is_silent, node_problems, problems, status,
  node_row,
}

-- Some field of some source differs from the baseline.
abbrev pub is_different : Dict SourceDiff → Bool
is_different d = any (λ (e : String × SourceDiff). any is_changed_field e.1.fields) d

-- A node whose diff cannot be fetched counts as one that does not differ.
abbrev pub seems_different : Option (Dict SourceDiff) → Bool
seems_different none = false
seems_different (some d) = is_different d

module _ (c : Client) where
  abbrev pub is_well : NodeSummary → Bool
  is_well n =
      not (n.has_baseline && seems_different (c.diff_of n.node)) && not (is_silent c n.last_agent)

count-names : (fs : List FieldDiff) → (length (names_of fs) == 0) ≡ not (any is_changed_field fs)
unfolding names_of
count-names [] = refl
count-names (f ∷ fs) = ground (arith, count-names fs)

count-append_zero :
    {A : Type 0} (xs ys : List A)
    → (length (xs ++ ys) == 0) ≡ ((length xs == 0) && (length ys == 0))
count-append_zero [] ys = ground arith
count-append_zero (x ∷ xs) ys = ground arith

count-all_names : (d : Dict SourceDiff) → (length (all_names d) == 0) ≡ not (is_different d)
unfolding all_names
count-all_names [] = refl
count-all_names ((k, s) ∷ d) = ground (
  arith,
  count-append_zero (names_of s.fields) (all_names d),
  count-names s.fields,
  count-all_names d,
)

pub count-changed_names :
    (d : Dict SourceDiff) → (length (changed_names d) == 0) ≡ not (is_different d)
unfolding changed_names
count-changed_names d = rw (length-sort_by (λ (s : String). s) (all_names d)) (count-all_names d)

count-differs :
    (node : String) (ns : List String) → (length (differs node (some ns)) == 0) ≡ (length ns == 0)
unfolding differs
count-differs node [] = refl
count-differs node (n ∷ ns) = ground arith

answered : {A B : Type 0} (o : Option A) (a : A) (f : A → Option B) → o ≡ some a → (o >>= f) ≡ f a
answered none a f e = absurd (cc)
answered (some b) a f e = ground (arith, e)

verdict_of_iff :
    (rows : List (List String)) (n : ℕ) (ps : List String) (b : Bool)
    → (length ps == 0) ≡ b
    → (◌≡◌ {A = Option (List (List String) × Verdict)}
        (some (rows, verdict_of n ps))
        (some (rows, fine n)))
      ↔ (b ≡ true)
unfolding verdict_of
verdict_of_iff rows n [] b e = (λ _. ground (arith, e), λ _. refl)
verdict_of_iff rows n (p ∷ ps) b e = (λ s. absurd (cc), λ t. absurd (ground (arith, e)))

module _ (c : Client) where
  count-compared :
      (node : String) (with_baseline : Bool) (o : Option (Dict SourceDiff))
      → (length (differs node (if with_baseline then map_option changed_names o else none)) == 0)
        ≡ not (with_baseline && seems_different o)
  unfolding differs
  count-compared node false o = refl
  count-compared node true none = refl
  count-compared node true (some d) =
      rw (count-differs node (changed_names d)) (count-changed_names d)

  count-node_problems : (n : NodeSummary) → (length (node_problems c n) == 0) ≡ is_well c n
  unfolding node_problems compared
  count-node_problems n = ground (
    arith,
    count-append_zero (differs n.node (compared c n)) (
        if is_silent c n.last_agent
        then (n.node <> (": agent silent for " <> age c n.last_agent)) ∷ []
        else []),
    count-compared n.node n.has_baseline (c.diff_of n.node),
  )

  count-problems :
      (ns : List NodeSummary) (incs : List Incident)
      → (length (problems c ns incs) == 0) ≡ (all (is_well c) ns && (length incs == 0))
  unfolding problems
  count-problems [] incs = rw (length-map (incident_problem c) incs) refl
  count-problems (n ∷ ns) incs = ground (
    arith,
    count-append_zero (node_problems c n) (problems c ns incs),
    count-node_problems n,
    count-problems ns incs,
  )

  -- When the nodes and the open incidents can be fetched, `status` says OK, for all of the nodes,
  -- exactly if no incident is open, no agent has been silent for more than two minutes, and no field of
  -- a node with a baseline differs in a diff that can be fetched.
  pub status_iff :
      (ns : List NodeSummary) (incs : List Incident)
      → c.nodes ≡ some ns
      → c.open_incidents ≡ some incs
      → (status c ≡ some (map (node_row c) ns, fine (length ns)))
        ↔ ((all (is_well c) ns && (length incs == 0)) ≡ true)
  unfolding status
  status_iff ns incs fetched listed =
      let shape : status c
          ≡ some (map (node_row c) ns, verdict_of (length ns) (problems c ns incs)) =
        answered c.nodes ns _ fetched ∙ answered c.open_incidents incs _ listed in
      rw shape (
        verdict_of_iff (map (node_row c) ns) (length ns) (problems c ns incs)
          (all (is_well c) ns && (length incs == 0)) (count-problems ns incs))
