-- ===== src/Tests/Posting.antt =====
-- The theorems on posted samples, applied.
use cluster_recorder.Prelude.{◌≡◌, ◌≢◌, none, some}
use cluster_recorder.Sample.{Snapshot, validate_snapshot}
use cluster_recorder.Store.Db.{Keeps}
use cluster_recorder.Store.Prune.Dropping.{baselines}
use cluster_recorder.Api.{posted, agent_snapshot}
use cluster_recorder.Api.Posting.{agent_snapshot_baselines}
use cluster_recorder.Tests.{before, sampled, now}

abbrev nameless : Snapshot
nameless = record before { node = "" }

nameless_invalid : validate_snapshot (posted now nameless) ≢ none
unfolding validate_snapshot posted
nameless_invalid e = absurd (cc e)

agent_snapshot_baselines_example :
    Keeps (λ t. baselines t ≡ baselines sampled) (agent_snapshot now (some before))
agent_snapshot_baselines_example = agent_snapshot_baselines (baselines sampled) now (some before)
