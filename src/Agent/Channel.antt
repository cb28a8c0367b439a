-- ===== src/Agent/Channel.antt =====
-- The agent as the channel that it is meant to be: bounded, first in first out, and losing its oldest
-- samples only when it is full.
use cluster_recorder.Prelude.{
  ℕ, zero, suc, ◌+◌, ◌-◌, ◌<◌, ◌≤◌, Bool, true, false, List, [], ◌∷◌, ◌++◌, arith, ltb, length,
  drop, Bool-cases, inl, inr,
}
use cluster_recorder.Sample.{Snapshot}
use cluster_recorder.Agent.{Agent, enqueue, flush, tick}
use cluster_recorder.Agent.Buffer.{ticks}

pub record Channel : Type 0 where
  pub waiting : List Snapshot
  pub delivered : List Snapshot

-- What the channel does by itself.
pub data Step (size : ℕ) : Channel → Channel → Type 0 where
  -- The oldest sample is lost, which only a full channel does.
  lose :
      (s : Snapshot) (ss d : List Snapshot)
      → size < length (s ∷ ss)
      → Step size
          (record { waiting = s ∷ ss; delivered = d })
          (record { waiting = ss; delivered = d })
  -- The oldest sample is delivered.
  deliver :
      (s : Snapshot) (ss d : List Snapshot)
      → Step size
          (record { waiting = s ∷ ss; delivered = d })
          (record { waiting = ss; delivered = d ++ s ∷ [] })

-- A run, in which the channel takes in the samples of the list, each at its end.
pub data Steps (size : ℕ) : List Snapshot → Channel → Channel → Type 0 where
  here : {c : Channel} → Steps size [] c c
  accept :
      {ss : List Snapshot} {d : Channel} (c : Channel) (s : Snapshot)
      → Steps size ss (record c { waiting = c.waiting ++ s ∷ [] }) d
      → Steps size (s ∷ ss) c d
  next :
      {ss : List Snapshot} {c d e : Channel} → Step size c d → Steps size ss d e → Steps size ss c e

abbrev pub view_of : Agent → Channel
view_of a = record { waiting = a.buffer; delivered = a.delivered }

module _ (size : ℕ) where
  Steps-trans :
      {ss ts : List Snapshot} {c d e : Channel}
      → Steps size ss c d
      → Steps size ts d e
      → Steps size (ss ++ ts) c e
  Steps-trans here q = q
  Steps-trans (accept c s p) q = accept c s (Steps-trans p q)
  Steps-trans (next s p) q = next s (Steps-trans p q)

  -- Down to the size by losing the oldest.
  Steps-drop :
      (k : ℕ) (w d : List Snapshot)
      → k + size ≤ length w
      → Steps size []
          (record { waiting = w; delivered = d })
          (record { waiting = drop k w; delivered = d })
  Steps-drop zero w d h = here
  Steps-drop (suc k) [] d h = here
  Steps-drop (suc k) (s ∷ ss) d h =
      next (lose s ss d (omega (arith, h))) (Steps-drop k ss d (omega (arith, h)))

  Steps-enqueue :
      (s : Snapshot) (b d : List Snapshot)
      → Steps size
          (s ∷ [])
          (record { waiting = b; delivered = d })
          (record { waiting = enqueue size s b; delivered = d })
  unfolding enqueue
  Steps-enqueue s b d =
      let longer = b ++ s ∷ [] in
      accept (record { waiting = b; delivered = d }) s
        (elim (Bool-cases (ltb size (length longer))) [
          | inl full ↦ rw full (Steps-drop (length longer - size) longer d (ground arith))
          | inr room ↦ rw room here
        ])

  Steps-flush :
      (b d : List Snapshot) (os : List Bool)
      → Steps size [] (record { waiting = b; delivered = d }) (view_of (flush b d os))
  unfolding flush
  Steps-flush [] d os = here
  Steps-flush (s ∷ ss) d [] = next (deliver s ss d) (Steps-flush ss (d ++ s ∷ []) [])
  Steps-flush (s ∷ ss) d (true ∷ os) = here
  Steps-flush (s ∷ ss) d (false ∷ os) = next (deliver s ss d) (Steps-flush ss (d ++ s ∷ []) os)

  -- Every run of ticks, with whatever posts fail, is a run of the channel that takes in the samples of
  -- the ticks.
  pub ticks_refine :
      (ss : List Snapshot) (a : Agent) → Steps size ss (view_of a) (view_of (ticks size ss a))
  unfolding tick
  ticks_refine [] a = here
  ticks_refine (s ∷ ss) a =
      Steps-trans
        (Steps-trans (Steps-enqueue s a.buffer a.delivered)
          (Steps-flush (enqueue size s a.buffer) a.delivered a.outcomes))
        (ticks_refine ss (tick size s a))
