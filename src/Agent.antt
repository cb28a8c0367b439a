-- ===== src/Agent.antt =====
-- internal/agent/agent.go: the buffer of the node sampler. Whether the collector answers is not under
-- the agent's control: each post takes the next outcome from a list, `true` for an error, and when the
-- list has run out the posts succeed.
pub mod Buffer
pub mod Overflow
pub mod Sampler
pub mod Outage
pub mod Channel
pub mod Environment
use cluster_recorder.Prelude.{
  ℕ, ◌-◌, String, Bool, true, false, List, [], ◌∷◌, ◌++◌, ltb, length, drop, if◌then◌else◌, ◌==◌,
}
use cluster_recorder.Sample.{Snapshot}

-- The agent's buffer, with the samples whose post succeeded, in order. After a post that failed the agent
-- does not know whether the collector has stored the sample; it posts it again.
pub record Agent : Type 0 where
  pub buffer : List Snapshot
  pub delivered : List Snapshot
  pub outcomes : List Bool

-- `append`, and the drop of the oldest samples.
unfoldable pub enqueue : ℕ → Snapshot → List Snapshot → List Snapshot
enqueue buffer_size snap buffer =
    let longer = buffer ++ snap ∷ [] in
    if ltb buffer_size (length longer) then drop (length longer - buffer_size) longer else longer

-- The loop that posts the oldest sample until the buffer is empty or a post fails. It takes the buffer
-- as it is, and ends with what is left.
unfoldable pub flush : List Snapshot → List Snapshot → List Bool → Agent
flush [] delivered os = record { buffer = []; delivered = delivered; outcomes = os }
flush (s ∷ ss) delivered [] = flush ss (delivered ++ s ∷ []) []
flush (s ∷ ss) delivered (true ∷ os) = record {
  buffer = s ∷ ss;
  delivered = delivered;
  outcomes = os;
}
flush (s ∷ ss) delivered (false ∷ os) = flush ss (delivered ++ s ∷ []) os

-- tick, with the sample that was taken.
unfoldable pub tick : ℕ → Snapshot → Agent → Agent
unfolding enqueue flush
tick buffer_size snap a = flush (enqueue buffer_size snap a.buffer) a.delivered a.outcomes
