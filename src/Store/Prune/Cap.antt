-- ===== src/Store/Prune/Cap.antt =====
-- `EnforceSizeCap`: it ends, and it never drops a baseline.
use cluster_recorder.Prelude.{
  ℕ, zero, suc, ◌-◌, ◌*◌, ◌≤◌, ◌<◌, ◌≡◌, refl, Bool, not, List, Option, some, arith, leb,
  if◌then◌else◌,
}
use cluster_recorder.Store.Tables.{Tables, SnapshotRow}
use cluster_recorder.Store.Db.{Db, over_cap, Action, query, pure, raise, ◌>>=◌}
use cluster_recorder.Store.Triples.{
  Outcome, Triple, Triple-bind, Triple-statement, Triple-pure, Triple-raise, Triple-if,
}
use cluster_recorder.Store.Prune.{
  Pages, used_bytes, size_bytes, drop_oldest, pragma, enforce_size_cap,
}
use cluster_recorder.Store.Prune.Dropping.{
  baselines, rows, Dropped, Before, Failed, broken, drop_oldest-Triple,
}

module _ (p : Pages) (max_bytes : ℕ) (bs : List SnapshotRow) where
  -- How the loop ends: below the cap, with every baseline in place.
  abbrev pub Fits : Option (Unit {0}) → Tables → Type 0
  Fits r t = (r ≡ some tt) × (used_bytes p t ≤ max_bytes) × (baselines t ≡ bs)

  size_bytes-Triple :
      (n : ℕ)
      → Triple
          (Before bs n)
          (size_bytes p)
          (λ used t. (used ≡ used_bytes p t) × Before bs n t)
          (Failed bs n)
  unfolding size_bytes
  size_bytes-Triple n =
      Triple-bind {R = λ pages t. (pages ≡ p.page_count t) × Before bs n t} (query p.page_count)
        (λ pages. query p.freelist_count >>= λ free.
          query p.page_size >>= λ size. pure ((pages - free) * size))
        (Triple-statement p.page_count (λ t. t) (λ t h. (refl, h)) (λ t h. broken bs n t h.0))
        λ pages.
          Triple-bind
            {R = λ free t. (pages ≡ p.page_count t) × (free ≡ p.freelist_count t) × Before bs n t}
            (query p.freelist_count)
            (λ free. query p.page_size >>= λ size. pure ((pages - free) * size))
            (Triple-statement p.freelist_count (λ t. t) (λ t h. (h.0, refl, h.1))
              (λ t h. broken bs n t h.1.0))
            λ free.
              Triple-bind {R = λ size t. ((pages - free) * size ≡ used_bytes p t) × Before bs n t}
                (query p.page_size) (λ size. pure ((pages - free) * size))
                (Triple-statement p.page_size (λ t. t) (λ t h. (cc, h.2))
                  (λ t h. broken bs n t h.2.0))
                λ size. Triple-pure ((pages - free) * size) (λ t h. h)

  -- The parts of a round.
  abbrev again : ℕ → ℕ → Bool → Action (Option (Unit {0}))
  again fuel used dropped =
      if not dropped
      then raise (over_cap used max_bytes)
      else (pragma >>= λ _. enforce_size_cap p max_bytes fuel)

  abbrev shrink : ℕ → ℕ → Action (Option (Unit {0}))
  shrink fuel used = drop_oldest >>= again fuel used

  abbrev round : ℕ → ℕ → Action (Option (Unit {0}))
  round fuel used = if leb used max_bytes then pure (some tt) else shrink fuel used

  weaken :
      (used n : ℕ)
      → Triple
          (λ t. (used ≡ used_bytes p t) × Before bs n t)
          drop_oldest
          (Dropped bs n)
          (Failed bs n)
  weaken used n = record { at = λ db h. (drop_oldest-Triple bs n).at db h.1 }

  enforce-Triple :
      (fuel n : ℕ)
      → n < fuel
      → Triple (Before bs n) (enforce_size_cap p max_bytes fuel) Fits (Failed bs n)
  unfolding enforce_size_cap
  enforce-Triple zero n enough = absurd (omega arith)
  enforce-Triple (suc fuel) n enough =
      Triple-bind {R = λ used t. (used ≡ used_bytes p t) × Before bs n t} (size_bytes p)
        (round fuel) (size_bytes-Triple n)
        λ used.
          Triple-if (leb used max_bytes) (pure (some tt)) (shrink fuel used)
            (λ fits. Triple-pure (some tt) (λ t h. (refl, ground arith, h.1.0)))
            (λ _.
              Triple-bind {R = Dropped bs n} drop_oldest (again fuel used) (weaken used n)
                λ dropped.
                  Triple-if (not dropped) (raise (over_cap used max_bytes))
                    (pragma >>= λ _. enforce_size_cap p max_bytes fuel)
                    (λ nothing.
                      Triple-raise (over_cap used max_bytes)
                        (λ t d. (d.kept, λ u cap e. d.left (ground arith))))
                    (λ something.
                      Triple-bind {R = λ _ t. (baselines t ≡ bs) × (rows t ≤ n - 1) × (0 < n)}
                        pragma (λ _. enforce_size_cap p max_bytes fuel)
                        (Triple-statement (λ t. tt) (λ t. t)
                          (λ t d.
                            let less = d.fewer (ground arith) in (d.kept, omega arith, omega arith))
                          (λ t d. broken bs n t d.kept))
                        λ _. record {
                          at = λ db h.
                              (((enforce-Triple fuel (n - 1) (omega (arith, enough, h.2))).at db
                                (h.0, h.1)));
                        }))

  -- With more rounds than there are rows that the loop may drop, whichever statements fail, the loop
  -- ends by itself: below the cap, or with a statement that failed, or with the report that the cap
  -- cannot be met, and then nothing is left but baselines. Every baseline is as before in all cases.
  pub enforce_size_cap_ends :
      (fuel : ℕ) (db : Db)
      → baselines db.tables ≡ bs
      → rows db.tables < fuel
      → let (r, db') = enforce_size_cap p max_bytes fuel db in
        Outcome Fits (Failed bs (rows db.tables)) r db'.tables
  enforce_size_cap_ends fuel db kept enough =
      (enforce-Triple fuel (rows db.tables) enough).at db (kept, omega arith)
