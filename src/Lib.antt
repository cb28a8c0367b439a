-- ===== src/Lib.antt =====
-- The cluster recorder: a collector that records what changes in a Kubernetes cluster, and an agent on
-- every node that samples what the API does not show. Both make snapshots of a node, maps from field
-- names to fields; the collector compares each snapshot with the one before it, keeps snapshots,
-- changes, events and pod states in one SQLite database, groups crashing pods into incidents, and
-- marks the snapshots of a quiet cluster as healthy baselines to compare against.
--
-- How the parts meet: the informers' handlers (Informers) and the API's endpoint for agents (Api) turn
-- what they get into snapshots (Sample), compare them (Diff) and write both (Store); the evaluator
-- (Incident) reads and writes the store every 30 seconds; retention and the size cap (Store.Prune) delete
-- from it. The agent (Agent) takes its samples through a CNI driver (Cni) from a view of the host's
-- network (Netlink) and posts them.
--
-- The files, and the code that each models:
--   Prelude              names of the libraries; tests, lists, texts, orders, sorting; of Go's packages
--                        strconv (Numerals), strings and bufio (Fields), and time (Durations, Instants)
--                        what the code uses
--   Dict                 Go maps, as entries in any order
--   Sample               internal/sample/field.go: Field, Snapshot, Validate, Equal, FieldsEqual;
--                        Encoding and Stored: their JSON documents, as encoding/json makes them
--   Diff                 internal/diff/diff.go: Classify, Snapshots
--   Store.Tables         internal/store/migrations/001_init.sql and the records of internal/store
--   Store.Db, Triples    how a method of store.DB runs: statement after statement, each of which may
--                        fail; `Keeps` and `Triple` are the invariants and the pre- and postconditions
--                        of such runs
--   Store.Events, Pods   internal/store/records.go
--   Store.Snapshots, Changes, Incidents
--                        internal/store/snapshots.go
--   Store.Prune, Timeline
--                        internal/store/store.go: Prune, SizeBytes, EnforceSizeCap, Timeline
--   Incident             internal/incident/incident.go: ShouldOpen, Tick, incidents, baseline
--   Informers            internal/informers/convert.go, the handlers of collector.go, and hints.go
--   Agent                internal/agent/agent.go: tick and the buffer; Sampler: Snapshot; Environment:
--                        FromEnv; Channel: what the buffer is meant to be
--   Host                 internal/host/facts.go: Fields; Proc: the files below /proc
--   Cni                  internal/cni
--   Netlink              internal/netlink/view.go; OnHost: linux.go
--   Api                  internal/api/server.go: agentSnapshot, diff, incidents; Requests: the times in
--                        a query, the other handlers, and the routes
--   Collector            cmd/collector/main.go: maintenance, and all jobs of the process in any order, as
--                        steps on one database
--   Config               internal/config/config.go: Defaults, validate; Parse: parse
--   Ctl                  cmd/recorderctl/main.go: status, diff and incidents, over what the requests answer
--   Tests                concrete inputs, and the theorems applied to them
--
-- How the code is read. A time is the number of nanoseconds since Go's zero time, a row's time that of
-- milliseconds. A Go map is a list of entries in the order in which `range` visits them; nothing is
-- assumed of that order. A SQL statement is a function on the tables, its WHERE clause a test on rows
-- and its ORDER BY a stable sort; rows that are equal for the ORDER BY keep the order of their insertion,
-- where SQLite promises nothing. A database carries the outcomes of the statements to come, so that a
-- theorem about every database covers every way in which statements fail. Logging changes no state
-- and is left out. Numbers are natural: the counts, sizes and sampled values of the code are not negative,
-- and far below the bounds of its machine integers; what is read from a text is read with its sign and its
-- bounds. A negative setting counts as 0, which is as invalid. A number in a stored document is read as the
-- nearest float64; fractions, negative numbers and objects within a field's value are left out. The samples
-- that an agent has delivered are those whose post succeeded; the collector may also have stored one whose
-- post failed.
--
-- The goroutines of the collector are steps on its database, one job after the other in any order; the
-- statements of two jobs are not interleaved. A step's failed statements are arbitrary.
--
-- Loops run on the list that they consume. EnforceSizeCap repeats until the file is small enough, so its
-- model takes a number of rounds; every round that goes on has dropped a row, so that one round more than
-- there are snapshots and events is enough, which its theorem includes. `ParseDuration` reads at least one
-- character in a round, and takes as many rounds as there are characters, which is enough
-- (Prelude.Durations.Fuel).
--
-- What SQLite says of its pages, whether a post reaches the collector, what the listers and the netlink
-- library give, what the files below /proc contain, whether net/url parses a text, what the client's
-- requests answer, and whether an address lies in a CIDR are parameters or outcomes of the model.
--
-- Not modelled: opening and migrating the database, HTTP itself, the Kubernetes client, reading CNI
-- configuration files, the wiring of the processes, and the client's flags, requests, timeline and events.
pub mod Prelude
pub mod Sample
pub mod Dict
pub mod Diff
pub mod Collector
pub mod Ctl
pub mod Config
pub mod Store
pub mod Incident
pub mod Informers
pub mod Netlink
pub mod Cni
pub mod Host
pub mod Agent
pub mod Api
pub mod Tests
