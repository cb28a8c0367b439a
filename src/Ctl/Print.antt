-- ===== src/Ctl/Print.antt =====
-- cmd/recorderctl/main.go: what `diff` and `incidents` print.
use cluster_recorder.Prelude.{
  ◌<>◌, String, Bool, true, false, not, ◌&&◌, ◌||◌, Option, none, some, List, [], ◌∷◌, ◌++◌, length,
  str_eq, ◌==◌, map, any, show, join, if◌then◌else◌,
}
use cluster_recorder.Prelude.Order.{text_order}
use cluster_recorder.Dict.{Dict, get}
use cluster_recorder.Sample.{Time, source_api, source_agent}
use cluster_recorder.Diff.{Severity, alert, info, recovery, degraded, Change}
use cluster_recorder.Store.Incidents.{Incident}
use cluster_recorder.Store.Snapshots.Nodes.{NodeSummary}
use cluster_recorder.Api.{FieldDiff, SourceDiff}
use cluster_recorder.Ctl.{Client, field_text, is_changed_field}

pub data Line : Type 0 where
  text : String → Line
  -- the cells of a row
  cells : List String → Line

-- The rows of the fields that differ.
unfoldable pub field_rows : String → List FieldDiff → List Line
field_rows src [] = []
field_rows src (f ∷ fs) =
    let rest = field_rows src fs in
    if f.changed
    then cells (("  " <> src) ∷ f.field ∷ field_text f.baseline ∷ "->" ∷ field_text f.current ∷ [])
      ∷ rest
    else rest

-- The body of the loop over the sources; `none` is `!ok`.
unfoldable pub source_rows : String → Option SourceDiff → List Line
unfolding field_rows
source_rows src none = []
source_rows src (some s) =
    if not (str_eq s.note "")
    then cells (("  " <> src) ∷ s.note ∷ []) ∷ []
    else field_rows src s.fields

-- What the loop makes of `any`.
unfoldable pub any_changed : Option SourceDiff → Bool
any_changed none = false
any_changed (some s) = str_eq s.note "" && any is_changed_field s.fields

unfoldable pub matches_baseline : Dict SourceDiff → Bool
unfolding any_changed
matches_baseline d = not (any_changed (get d source_api) || any_changed (get d source_agent))

unfoldable pub node_lines : String → Dict SourceDiff → List Line
unfolding source_rows matches_baseline
node_lines node d =
    text ("== " <> node) ∷ source_rows source_api (get d source_api)
    ++ (source_rows source_agent (get d source_agent)
        ++ (if matches_baseline d then text "  matches baseline" ∷ [] else []))

abbrev severity_text : Severity → String
severity_text alert = "ALERT"
severity_text info = "INFO"
severity_text recovery = "RECOVERY"
severity_text degraded = "DEGRADED"

module _ (c : Client) where
  after_node : String → Option (Dict SourceDiff) → List Line × Bool → List Line × Bool
  unfolding node_lines
  after_node node none rest = ([], false)
  after_node node (some d) rest = (node_lines node d ++ rest.0, rest.1)

  -- The loop over the nodes: what it prints, and whether it gets through; the first diff that cannot
  -- be fetched ends it.
  unfoldable pub diff_nodes : List String → List Line × Bool
  unfolding after_node
  diff_nodes [] = ([], true)
  diff_nodes (node ∷ nodes) = after_node node (c.diff_of node) (diff_nodes nodes)

  diff_all : Option (List NodeSummary) → List Line × Bool
  diff_all none = ([], false)
  diff_all (some ns) = diff_nodes (map (λ (n : NodeSummary). n.node) ns)

  -- diff: of the nodes in the arguments, or of all.
  unfoldable pub diff : List String → List Line × Bool
  unfolding diff_all
  diff args = if length args == 0 then diff_all c.nodes else diff_nodes args

  change_line : Change → Line
  change_line ch = text (
      "    "
      <> (c.show_clock ch.time
          <> (" "
              <> (ch.node
                  <> (" "
                      <> (severity_text ch.severity
                          <> (" "
                              <> (ch.field
                                  <> (": "
                                      <> (field_text (some ch.old)
                                          <> (" -> " <> field_text (some ch.new))))))))))))

  change_lines : List Change → List Line
  unfolding change_line
  change_lines [] = []
  change_lines (ch ∷ chs) = text "  changes in the 6h before:" ∷ map change_line (ch ∷ chs)

  state_text : Option Time → String
  state_text none = "OPEN"
  state_text (some t) = "closed " <> c.show_date t

  unfoldable pub incident_lines : Incident → List Line
  unfolding change_lines state_text
  incident_lines i =
      text (
        "#"
        <> (show i.id <> ("  opened " <> (c.show_date i.opened <> ("  " <> state_text i.closed)))))
      ∷ text ("  pods: " <> join ", " i.pods)
      ∷ change_lines i.changes

  list_lines : List Incident → List Line
  unfolding incident_lines
  list_lines [] = []
  list_lines (i ∷ is) = incident_lines i ++ list_lines is

  incidents_from : Option (List Incident) → Option (List Line)
  unfolding list_lines
  incidents_from none = none
  incidents_from (some []) = some (text "no incidents" ∷ [])
  incidents_from (some (i ∷ is)) = some (list_lines (i ∷ is))

  -- incidents, with the flag -all or without.
  unfoldable pub incidents : Bool → Option (List Line)
  unfolding incidents_from
  incidents all = incidents_from (if all then c.all_incidents else c.open_incidents)
