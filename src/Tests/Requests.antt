-- ===== src/Tests/Requests.antt =====
-- The theorems on requests, applied.
use cluster_recorder.Prelude.{
  ◌+◌, ◌*◌, ◌≡◌, refl, ◌⊎◌, ◌++◌, Bool, true, false, none, some, List, [], ◌∷◌, arith, show,
}
use cluster_recorder.Prelude.Order.{nat_order}
use cluster_recorder.Config.{second}
use cluster_recorder.Store.Db.{Db, ok}
use cluster_recorder.Store.Halts.{has_failure}
use cluster_recorder.Api.{failure}
use cluster_recorder.Api.Requests.{Server, Query, get_diff, parse_time, handle, unix_epoch}
use cluster_recorder.Api.Requests.Answers.{handle_read_only, handle_failure}
use cluster_recorder.Api.Requests.Times.{parse_time-show}
use cluster_recorder.Tests.{noisy, now}

abbrev server : Server
server = record { ready = some true; hints = none }

abbrev last_hours : Query
last_hours = record {
  from = "-2h";
  to = "";
  namespace = "shop";
  node = "";
  limit = "5";
  open_param = "";
}

-- The range ends before it begins.
abbrev backwards : Query
backwards = record last_hours { from = "2024-01-02T00:00:00Z"; to = "2024-01-01T00:00:00Z" }

-- The second statement fails.
abbrev flaky : Db
flaky = record { tables = noisy; faults = false ∷ true ∷ [] }

handle_read_only_example : (handle server now (get_diff "node-a" "") flaky).1.tables ≡ noisy
handle_read_only_example = handle_read_only server now (get_diff "node-a" "") flaky refl

-- The second statement of the request fails.
handle_failure_example :
    (ran : List Bool) × (flaky.faults
      ≡ ran ++ (handle server now (get_diff "node-a" "") flaky).1.faults)
    × ((has_failure ran ≡ false)
        ⊎ ((handle server now (get_diff "node-a" "") flaky).0 ≡ ok (failure 500)))
handle_failure_example = handle_failure server now (get_diff "node-a" "") flaky

parse_time-show_example :
    parse_time (show 1_700_000_000) now ≡ some ((unix_epoch + 1_700_000_000) * second)
parse_time-show_example = parse_time-show 1_700_000_000 now (omega arith)
