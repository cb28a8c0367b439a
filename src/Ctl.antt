-- ===== src/Ctl.antt =====
-- cmd/recorderctl/main.go: what `status`, `diff` and `incidents` print of what the API answers. The cells
-- of a table are lists of texts; text/tabwriter aligns them.
pub mod Print
pub mod Verdicts
pub mod Agreement
use cluster_recorder.Prelude.{
  ℕ, ◌+◌, ◌-◌, ◌*◌, ◌<>◌, String, Bool, true, false, not, ◌&&◌, ◌||◌, Option, none, some, List, [],
  ◌∷◌, ◌++◌, length, ltb, str_eq, ◌==◌, map, map_option, any, show, join, if◌then◌else◌,
}
use cluster_recorder.Prelude.Show.Floats.{show_float}
use cluster_recorder.Prelude.Order.{text_order}
use cluster_recorder.Prelude.Sorting.{sort_by}
use cluster_recorder.Config.{minute}
use cluster_recorder.Dict.{Dict, get}
use cluster_recorder.Sample.{Time, Field, source_api, source_agent}
use cluster_recorder.Sample.State.{FieldState}
use cluster_recorder.Sample.Encoding.{Value, Values, shortest}
use cluster_recorder.Diff.{Severity, alert, info, recovery, degraded, Change}
use cluster_recorder.Store.Incidents.{Incident}
use cluster_recorder.Store.Snapshots.Nodes.{NodeSummary}
use cluster_recorder.Api.{FieldDiff, SourceDiff}

infixl 5 ◌>>=◌
-- `if err != nil { return err }`
abbrev pub ◌>>=◌ : {A B : Type 0} → Option A → (A → Option B) → Option B
◌>>=◌ none f = none
◌>>=◌ (some a) f = f a

-- What `get` decodes from the API's answers, `none` where it gives an error; the clock; and how the
-- package time writes times and durations.
pub record Client : Type 0 where
  pub nodes : Option (List NodeSummary)
  pub open_incidents : Option (List Incident)
  pub all_incidents : Option (List Incident)
  pub diff_of : String → Option (Dict SourceDiff)
  pub now : Time
  -- Local().Format("15:04"), "Jan 02 15:04" and "15:04:05"
  pub show_time : Time → String
  pub show_date : Time → String
  pub show_clock : Time → String
  -- Round(time.Second).String()
  pub show_duration : ℕ → String

unfoldable pub show_bool : Bool → String
show_bool true = "true"
show_bool false = "false"

-- `fmt.Sprint` of a value.
unfoldable mutual
  unfolding show_bool

  pub sprint : Value → String
  sprint Value.null = "<nil>"
  sprint (Value.boolean b) = show_bool b
  sprint (Value.int n) = show n
  sprint (Value.float64 n) = show_float (shortest n)
  sprint (Value.text s) = s
  sprint (Value.texts ss) = "[" <> (join " " ss <> "]")
  sprint (Value.list vs) = "[" <> (join " " (sprint_all vs) <> "]")

  pub sprint_all : Values → List String
  sprint_all Values.nil = []
  sprint_all (Values.cons v vs) = sprint v ∷ sprint_all vs

shown : FieldState → Value → String → String
unfolding sprint
shown FieldState.present v reason = sprint v
shown FieldState.absent v reason = "ABSENT"
shown FieldState.unknown v reason = "unknown (" <> (reason <> ")")
shown FieldState.not_applicable v reason = "n/a"
shown (FieldState.other s) v reason = "n/a"

-- field.String; `none` is a nil pointer.
unfoldable pub field_text : Option Field → String
unfolding shown
field_text none = "-"
field_text (some f) = shown f.state f.value f.reason

abbrev pub is_changed_field : FieldDiff → Bool
is_changed_field f = f.changed

unfoldable pub names_of : List FieldDiff → List String
names_of [] = []
names_of (f ∷ fs) = let rest = names_of fs in if f.changed then f.field ∷ rest else rest

unfoldable pub all_names : Dict SourceDiff → List String
unfolding names_of
all_names [] = []
all_names ((k, s) ∷ m) = names_of s.fields ++ all_names m

-- The names of the fields that differ from the baseline, over all sources.
unfoldable pub changed_names : Dict SourceDiff → List String
unfolding all_names
changed_names d = sort_by (λ (s : String). s) (all_names d)

changed_text : Option (List String) → String
changed_text none = "-"
changed_text (some []) = "none"
changed_text (some (n ∷ ns)) = join ", " (n ∷ ns)

unfoldable pub differs : String → Option (List String) → List String
differs node none = []
differs node (some []) = []
differs node (some (n ∷ ns)) = (node <> (" differs from baseline: " <> join ", " (n ∷ ns))) ∷ []

pub data Verdict : Type 0 where
  -- "OK: %d nodes, no open incidents, nothing differs from baseline"
  fine : ℕ → Verdict
  -- "ATTENTION:" and the problems, one in a line
  attention : List String → Verdict

unfoldable pub verdict_of : ℕ → List String → Verdict
verdict_of n [] = fine n
verdict_of n (p ∷ ps) = attention (p ∷ ps)

module _ (c : Client) where
  -- age
  unfoldable pub age : Option Time → String
  age none = "-"
  age (some t) = c.show_duration (c.now - t) <> " ago"

  -- The fields that differ, where there is a baseline and the diff can be fetched.
  unfoldable pub compared : NodeSummary → Option (List String)
  unfolding changed_names
  compared n = if n.has_baseline then map_option changed_names (c.diff_of n.node) else none

  unfoldable pub is_silent : Option Time → Bool
  is_silent none = false
  is_silent (some t) = ltb (2 * minute) (c.now - t)

  unfoldable pub node_problems : NodeSummary → List String
  unfolding differs age
  node_problems n =
      let silent = (n.node <> (": agent silent for " <> age n.last_agent)) ∷ [] in
      differs n.node (compared n) ++ (if is_silent n.last_agent then silent else [])

  -- The row of a node.
  unfoldable pub node_row : NodeSummary → List String
  unfolding age changed_text show_bool
  node_row n =
      n.node
      ∷ age n.last_api
      ∷ age n.last_agent
      ∷ (if str_eq n.driver "" then "-" else n.driver)
      ∷ show_bool n.has_baseline
      ∷ changed_text (compared n)
      ∷ []

  unfoldable pub incident_problem : Incident → String
  incident_problem i =
      "incident #"
      <> (show i.id
          <> (" open since "
              <> (c.show_time i.opened
                  <> (": " <> (show (length i.pods) <> (" pods (" <> (join ", " i.pods <> ")")))))))

  unfoldable pub problems : List NodeSummary → List Incident → List String
  unfolding node_problems
  problems [] incs = map incident_problem incs
  problems (n ∷ ns) incs = node_problems n ++ problems ns incs

  -- status: the rows of the table and the verdict below it.
  unfoldable pub status : Option (List (List String) × Verdict)
  unfolding problems verdict_of node_row
  status = do
    ns ← c.nodes
    incs ← c.open_incidents
    some (map node_row ns, verdict_of (length ns) (problems ns incs))
