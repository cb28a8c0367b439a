-- ===== src/Tests/Running.antt =====
-- The theorems on the running collector, applied.
use cluster_recorder.Prelude.{◌+◌, true, false, [], ◌∷◌, none, some, arith}
use cluster_recorder.Config.{Config, defaults, hour}
use cluster_recorder.Store.Tables.{Tables, empty}
use cluster_recorder.Informers.{Pod}
use cluster_recorder.Api.Requests.{Server, post_agent_snapshot}
use cluster_recorder.Collector.{
  Reachable, created, ran, after, run, pod_seen, request, evaluator_tick, prune_tick,
}
use cluster_recorder.Collector.Rows.{Sound}
use cluster_recorder.Collector.Unclosed.{Reachable-Sound}
use cluster_recorder.Tests.{before, now}
use cluster_recorder.Tests.Informing.{web}
use cluster_recorder.Tests.Stores.{pages}

-- One crashing pod is enough for an incident.
abbrev watchful : Config
watchful = record defaults { incident_pod_thresh = 1; incident_ns_thresh = 1 }

abbrev server : Server
server = record { ready = some true; hints = none }

-- The pod before it crashed.
abbrev starting : Pod
starting = record web { container_statuses = [] }

-- A pod crashes, and the third statement of the evaluation fails.
abbrev crashed : Tables
crashed = after watchful pages (run watchful pages (pod_seen (some starting) web now)) [] empty

abbrev unlucky : Tables
unlucky =
    after watchful pages (run watchful pages (evaluator_tick now)) (false ∷ false ∷ true ∷ [])
      crashed

abbrev opened : Tables
opened = after watchful pages (run watchful pages (evaluator_tick (now + 1))) [] unlucky

-- An agent posts, the database is cleaned up, and the evaluator runs again.
abbrev sampled_once : Tables
sampled_once =
    after watchful pages
      (run watchful pages (request server now (post_agent_snapshot (some before)))) [] opened

abbrev pruned : Tables
pruned = after watchful pages (run watchful pages (prune_tick (now + hour))) [] sampled_once

abbrev evaluated : Tables
evaluated = after watchful pages (run watchful pages (evaluator_tick (now + hour))) [] pruned

reached : Reachable watchful pages (now + hour) evaluated
reached =
    ran
      (ran
        (ran
          (ran
            (ran (ran created (pod_seen (some starting) web now) [] (omega arith))
              (evaluator_tick now) (false ∷ false ∷ true ∷ []) (omega arith))
            (evaluator_tick (now + 1)) [] (omega arith))
          (request server now (post_agent_snapshot (some before))) [] (omega arith))
        (prune_tick (now + hour)) [] (omega arith))
      (evaluator_tick (now + hour)) [] (omega arith)

Reachable-Sound_example : Sound (now + hour) evaluated.incidents
Reachable-Sound_example = Reachable-Sound watchful pages (now + hour) evaluated reached
