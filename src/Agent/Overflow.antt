-- ===== src/Agent/Overflow.antt =====
-- The agent's buffer when it overflows, and when the collector is back.
use cluster_recorder.Prelude.{
  ℕ, ◌-◌, ◌≤◌, ◌≡◌, arith, length-append, if◌then◌else◌, true, false, refl, sym, ap, ◌∙◌, List, [],
  ◌∷◌, ◌++◌, ltb, length, drop, Bool-cases, inl, inr,
}
use cluster_recorder.Sample.{Snapshot}
use cluster_recorder.Agent.{Agent, enqueue, flush, tick}
use cluster_recorder.Agent.Buffer.{append_nil, flush_order}

-- `xs` is what is left of `ys` when some elements are taken out.
drained : (b d : List Snapshot) → (flush b d []).buffer ≡ []
unfolding flush
drained [] d = refl
drained (s ∷ ss) d = drained ss (d ++ s ∷ [])

-- What waits after a sample: a full buffer has lost its oldest sample, and only that one.
enqueue_lem :
    (size : ℕ) (s : Snapshot) (b : List Snapshot)
    → length b ≤ size
    → enqueue size s b ≡ (if ltb (length b) size then b ++ s ∷ [] else drop 1 (b ++ s ∷ []))
unfolding enqueue
enqueue_lem size s b fits = elim (Bool-cases (ltb (length b) size)) [
  | inl room ↦ rw room (
      let small : ltb size (length (b ++ s ∷ [])) ≡ false =
        ground (arith, length-append b (s ∷ [])) in
      rw small refl)
  | inr full ↦ rw full (
      let large : ltb size (length (b ++ s ∷ [])) ≡ true =
        ground (arith, length-append b (s ∷ [])) in
      let one : length (b ++ s ∷ []) - size ≡ 1 = ground (arith, length-append b (s ∷ [])) in
      rw (large, one) refl)
]

-- When no post fails any more, one tick of an agent whose buffer is within its size empties the buffer: the collector gets all that waited, oldest
-- first, and then the sample of the tick; a buffer that was full has lost its oldest sample, and only
-- that one.
pub tick_drains :
    (size : ℕ) (s : Snapshot) (a : Agent)
    → length a.buffer ≤ size
    → a.outcomes ≡ []
    → ((tick size s a).buffer ≡ [])
      × ((tick size s a).delivered
          ≡ a.delivered
            ++ (if ltb (length a.buffer) size
                then a.buffer ++ s ∷ []
                else drop 1 (a.buffer ++ s ∷ [])))
unfolding tick
tick_drains size s a fits healthy =
    let b = enqueue size s a.buffer in
    let empty = drained b a.delivered in
    let order = flush_order b a.delivered [] in
    rw healthy (
      empty,
      sym (append_nil (flush b a.delivered []).delivered)
          ∙ ap (λ ws. (flush b a.delivered []).delivered ++ ws) (sym empty)
          ∙ order
          ∙ ap (λ ws. a.delivered ++ ws) (enqueue_lem size s a.buffer fits),
    )
