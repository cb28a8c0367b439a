-- ===== src/Agent/Outage.antt =====
-- An overlay that vanishes while the agent runs.
use cluster_recorder.Prelude.{String, Bool}
use cluster_recorder.Dict.{Dict}
use cluster_recorder.Sample.{Time}
use cluster_recorder.Cni.Detect.{Choice}
use cluster_recorder.Agent.Sampler.{Hints, Settings, Sampler, Reading, refresh_hints}
use cluster_recorder.Host as Host

module _ (lies_in : String → String → Bool) (cfg : Settings) (now : Time) (r : Reading)
    (s : Sampler) (c : Choice) where
  -- The hints that the sample uses.
  abbrev pub hints_now : Hints
  hints_now = refresh_hints r.hints s.hints
