-- ===== src/Agent/Buffer.antt =====
-- The agent's buffer over any number of ticks and any outage.
use cluster_recorder.Prelude.{
  ℕ, ◌-◌, ◌≤◌, ◌≡◌, refl, sym, ap, ◌∙◌, Bool, true, false, List, [], ◌∷◌, ◌++◌, arith, ltb, length,
  length-append, length-drop, if◌then◌else◌,
}
use cluster_recorder.Sample.{Snapshot}
use cluster_recorder.Agent.{Agent, enqueue, flush, tick}

-- The ticks, one after the other, each with the sample that was taken.
abbrev pub ticks : ℕ → List Snapshot → Agent → Agent
ticks size [] a = a
ticks size (s ∷ ss) a = ticks size ss (tick size s a)

length-flush : (b d : List Snapshot) (os : List Bool) → length (flush b d os).buffer ≤ length b
unfolding flush
length-flush [] d os = omega arith
length-flush (s ∷ ss) d [] = omega (arith, length-flush ss (d ++ s ∷ []) [])
length-flush (s ∷ ss) d (true ∷ os) = omega arith
length-flush (s ∷ ss) d (false ∷ os) = omega (arith, length-flush ss (d ++ s ∷ []) os)

length-enqueue : (size : ℕ) (s : Snapshot) (b : List Snapshot) → length (enqueue size s b) ≤ size
unfolding enqueue
length-enqueue size s b = ground (arith, length-drop (length (b ++ s ∷ []) - size) (b ++ s ∷ []))

-- However long the collector is away, the buffer holds no more samples than it is given room for.
pub ticks_bound :
    (size : ℕ) (ss : List Snapshot) (a : Agent)
    → length a.buffer ≤ size
    → length (ticks size ss a).buffer ≤ size
unfolding tick
ticks_bound size [] a h = h
ticks_bound size (s ∷ ss) a h = ticks_bound size ss (tick size s a) (
    omega (
      arith,
      length-enqueue size s a.buffer,
      length-flush (enqueue size s a.buffer) a.delivered a.outcomes,
    ))

pub append_assoc : {A : Type 0} → (xs ys zs : List A) → (xs ++ ys) ++ zs ≡ xs ++ (ys ++ zs)
append_assoc [] ys zs = refl
append_assoc (x ∷ xs) ys zs = ap (λ ws. x ∷ ws) (append_assoc xs ys zs)

pub append_nil : {A : Type 0} → (xs : List A) → xs ++ [] ≡ xs
append_nil [] = refl
append_nil (x ∷ xs) = ap (λ ws. x ∷ ws) (append_nil xs)

-- Posting moves samples from the front of the buffer to the end of what was delivered.
pub flush_order :
    (b d : List Snapshot) (os : List Bool)
    → (flush b d os).delivered ++ (flush b d os).buffer ≡ d ++ b
unfolding flush
flush_order [] d os = refl
flush_order (s ∷ ss) d [] = flush_order ss (d ++ s ∷ []) [] ∙ append_assoc d (s ∷ []) ss
flush_order (s ∷ ss) d (true ∷ os) = refl
flush_order (s ∷ ss) d (false ∷ os) = flush_order ss (d ++ s ∷ []) os ∙ append_assoc d (s ∷ []) ss

-- As long as the buffer does not overflow: every sample has been delivered or waits, in the order in
-- which they were taken.
abbrev pub never_full : ℕ → List Snapshot → Agent → Bool
never_full size [] a = true
never_full size (s ∷ ss) a =
    let rest = never_full size ss (tick size s a) in
    if ltb (length a.buffer) size then rest else false

tick_order :
    (size : ℕ) (s : Snapshot) (a : Agent)
    → ltb (length a.buffer) size ≡ true
    → (tick size s a).delivered ++ (tick size s a).buffer ≡ (a.delivered ++ a.buffer) ++ s ∷ []
unfolding tick enqueue
tick_order size s a h =
    let fits : ltb size (length (a.buffer ++ s ∷ [])) ≡ false =
      ground (arith, length-append a.buffer (s ∷ [])) in
    rw fits (
      flush_order (a.buffer ++ s ∷ []) a.delivered a.outcomes
      ∙ sym (append_assoc a.delivered a.buffer (s ∷ [])))

-- If the buffer is never full when a sample is taken, no sample is lost, whichever posts fail: all that
-- were delivered and that wait are all that were taken, in order.
pub ticks_lossless :
    (size : ℕ) (ss : List Snapshot) (a : Agent)
    → never_full size ss a ≡ true
    → (ticks size ss a).delivered ++ (ticks size ss a).buffer ≡ (a.delivered ++ a.buffer) ++ ss
ticks_lossless size [] a h = sym (append_nil (a.delivered ++ a.buffer))
ticks_lossless size (s ∷ ss) a h =
    let room : ltb (length a.buffer) size ≡ true = ground arith in
    ticks_lossless size ss (tick size s a) (ground arith)
    ∙ ap (λ ws. ws ++ ss) (tick_order size s a room)
    ∙ append_assoc (a.delivered ++ a.buffer) (s ∷ []) ss
