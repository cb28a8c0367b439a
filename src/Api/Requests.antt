-- ===== src/Api/Requests.antt =====
-- internal/api/server.go: the times in a query, the handlers that answer from the store, and the routes.
pub mod Answers
pub mod Times
pub mod Ranges
use cluster_recorder.Prelude.{
  ℕ, ◌+◌, ◌-◌, ◌*◌, String, Bool, true, false, not, ◌&&◌, Option, none, some, List, [], ◌∷◌, ltb,
  ◌==◌, str_eq, if◌then◌else◌,
}
use cluster_recorder.Prelude.Numerals.{
  ℤ, pos_part, neg_part, codes, parse_int, accepted, value_of, max_i64,
}
use cluster_recorder.Prelude.Fields.{Codes}
use cluster_recorder.Prelude.Durations.{parse_duration}
use cluster_recorder.Prelude.Instants.{parse_rfc3339}
use cluster_recorder.Config.{second, hour}
use cluster_recorder.Sample.{Time, Snapshot}
use cluster_recorder.Store.Db.{Action, pure}
use cluster_recorder.Store.Events.{events as events_of}
use cluster_recorder.Store.Timeline.{timeline as timeline_of}
use cluster_recorder.Store.Snapshots.{snapshots as snapshots_of}
use cluster_recorder.Store.Snapshots.Nodes.{nodes as nodes_of}
use cluster_recorder.Informers.Hints.{Hints}
use cluster_recorder.Api.{
  Response, failure, event_list, node_list, entry_list, snapshot_list, hint_answer, status,
  document, attempt, agent_snapshot, diff, incidents,
}

-- The seconds from Go's zero time to the Unix epoch.
abbrev pub unix_epoch : ℕ
unix_epoch = 62_135_596_800

relative : Time → Option ℤ → Option Time
relative now none = none
relative now (some d) = some (now + pos_part d - neg_part d)

-- `time.Unix`, whose seconds since Go's zero time wrap: they are negative beyond the largest int64, and a
-- time before the zero time is 0 here.
unix : Option ℤ → Option Time
unix none = none
unix (some n) =
    some (if ltb max_i64 (unix_epoch + pos_part n) then 0 else (unix_epoch + pos_part n) * second)

absolute : Codes → Option Time → Option Time
unfolding unix
absolute s none = unix (accepted (parse_int s))
absolute s (some t) = some t

time_in : Time → Codes → Option Time
unfolding relative absolute
time_in now [] = none
time_in now (c ∷ s) =
    if c == b'-'
    then relative now (parse_duration (c ∷ s))
    else absolute (c ∷ s) (parse_rfc3339 (c ∷ s))

-- parseTime; none is its error. What follows a sign is not Unix seconds, so that these are not negative.
unfoldable pub parse_time : String → Time → Option Time
unfolding time_in
parse_time v now = time_in now (codes v)

-- The parameters of a query, "" where they are missing.
pub record Query : Type 0 where
  pub from : String
  pub to : String
  pub namespace : String
  pub node : String
  pub limit : String
  pub open_param : String

-- A bound of the range: the parameter, or what holds without it.
unfoldable pub bound : String → Time → Time → Option Time
bound v default now = if str_eq v "" then some default else parse_time v now

ordered : Option Time → Option Time → Option (Time × Time)
ordered none to = none
ordered (some from) none = none
ordered (some from) (some to) = if ltb to from then none else some (from, to)

-- timeRange
unfoldable pub time_range : Query → Time → Option (Time × Time)
unfolding bound ordered
time_range q now = ordered (bound q.from (now - hour) now) (bound q.to now now)

-- `if err != nil { s.fail(w, 400, err); return }`
unfoldable pub within : Option (Time × Time) → (Time → Time → Action Response) → Action Response
within none k = pure (failure 400)
within (some (from, to)) k = k from to

unfoldable pub events : Query → Time → Action Response
unfolding attempt within
events q now = within (time_range q now) λ from to.
    attempt
      (events_of (record {
        namespace = q.namespace;
        node = q.node;
        from = from;
        to = to;
        limit = pos_part (value_of (parse_int (codes q.limit)));
      }))
      λ out. pure (event_list out)

unfoldable pub nodes : Action Response
unfolding attempt
nodes = attempt nodes_of λ out. pure (node_list out)

unfoldable pub timeline : String → Query → Time → Action Response
unfolding attempt within
timeline node q now =
    within (time_range q now)
      λ from to. attempt (timeline_of node from to) λ out. pure (entry_list out)

unfoldable pub snapshots : String → Query → Time → Action Response
unfolding attempt within
snapshots node q now =
    within (time_range q now)
      λ from to. attempt (snapshots_of node from to) λ out. pure (snapshot_list out)

unfoldable pub incidents_in : Query → Time → Action Response
unfolding within
incidents_in q now =
    within (time_range q now)
      λ from to. incidents from to (str_eq q.from "") (str_eq q.open_param "true")

-- What the server is given; `none` is nil.
pub record Server : Type 0 where
  pub ready : Option Bool
  pub hints : Option (String → Option Hints)

hint_result : Option Hints → Response
hint_result none = failure 500
hint_result (some h) = hint_answer h

hints_from : Option (String → Option Hints) → String → Response
unfolding hint_result
hints_from none node = hint_answer (record { daemon_sets = []; pod_cidrs = [] })
hints_from (some f) node = hint_result (f node)

-- agentHints
unfoldable pub agent_hints : Server → String → Action Response
unfolding hints_from
agent_hints s node = if str_eq node "" then pure (failure 400) else pure (hints_from s.hints node)

is_syncing : Option Bool → Bool
is_syncing none = false
is_syncing (some r) = not r

unfoldable pub readyz : Server → Action Response
unfolding is_syncing
readyz s = if is_syncing s.ready then pure (status 503 "syncing") else pure (status 200 "ready")

-- The routes with what their handlers read from the request.
pub data Request : Type 0 where
  get_healthz : Request
  get_readyz : Request
  get_openapi : Request
  get_events : Query → Request
  get_nodes : Request
  get_timeline : String → Query → Request
  get_snapshots : String → Query → Request
  -- the node, and the parameter `against`
  get_diff : String → String → Request
  get_incidents : Query → Request
  -- none is a body that does not decode
  post_agent_snapshot : Option Snapshot → Request
  get_agent_hints : String → Request

-- Handler
unfoldable pub handle : Server → Time → Request → Action Response
unfolding events nodes timeline snapshots incidents_in agent_hints readyz
handle s now get_healthz = pure (status 200 "ok")
handle s now get_readyz = readyz s
handle s now get_openapi = pure document
handle s now (get_events q) = events q now
handle s now get_nodes = nodes
handle s now (get_timeline node q) = timeline node q now
handle s now (get_snapshots node q) = snapshots node q now
handle s now (get_diff node against) = diff against node
handle s now (get_incidents q) = incidents_in q now
handle s now (post_agent_snapshot body) = agent_snapshot now body
handle s now (get_agent_hints node) = agent_hints s node
