-- ===== src/Store/Triples.antt =====
-- Pre- and postconditions of actions on the database: `Triple P m Q E` says that `m`, started on
-- tables that meet `P`, ends with a result and tables that meet `Q`, or with an error and tables
-- that meet `E`, whichever of its statements fail.
use cluster_recorder.Prelude.{◌≡◌, refl, ap, Bool, true, false, List, [], ◌∷◌, if◌then◌else◌}
use cluster_recorder.Store.Tables.{Tables}
use cluster_recorder.Store.Db.{
  StoreError, failed, Result, ok, err, Db, Action, pure, raise, run_with, statement, query,
  continue, ◌>>=◌, Keeps,
}

abbrev pub Outcome :
    {A : Type 0}
    → (A → Tables → Type 0)
    → (StoreError → Tables → Type 0)
    → Result A
    → Tables
    → Type 0
Outcome Q E (ok a) t = Q a t
Outcome Q E (err e) t = E e t

pub record Triple {A : Type 0} (P : Tables → Type 0) (m : Action A) (Q : A → Tables → Type 0)
    (E : StoreError → Tables → Type 0) : Type 0 where
  pub at : (db : Db) → P db.tables → Outcome Q E (m db).0 (m db).1.tables

run_with-Outcome :
    {A : Type 0} (P : Tables → Type 0) (Q : A → Tables → Type 0) (E : StoreError → Tables → Type 0)
    (a : Tables → A) (f : Tables → Tables) (fs : List Bool) (db : Db)
    → ((t : Tables) → P t → Q (a t) (f t))
    → ((t : Tables) → P t → E failed t)
    → P db.tables
    → Outcome Q E (run_with a f fs db).0 (run_with a f fs db).1.tables
run_with-Outcome P Q E a f [] db q e h = q db.tables h
run_with-Outcome P Q E a f (false ∷ fs) db q e h = q db.tables h
run_with-Outcome P Q E a f (true ∷ fs) db q e h = e db.tables h

continue-Outcome :
    {A B : Type 0} (R : A → Tables → Type 0) (Q : B → Tables → Type 0)
    (E : StoreError → Tables → Type 0) (r : Result A) (f : A → Action B) (db : Db)
    → ((a : A) → Triple (R a) (f a) Q E)
    → Outcome R E r db.tables
    → Outcome Q E (continue r f db).0 (continue r f db).1.tables
continue-Outcome R Q E (ok a) f db tf h = (tf a).at db h
continue-Outcome R Q E (err e) f db tf h = h

module _ {A : Type 0} {P : Tables → Type 0} {Q : A → Tables → Type 0}
    {E : StoreError → Tables → Type 0} where
  pub Triple-pure : (a : A) → ((t : Tables) → P t → Q a t) → Triple P (pure a) Q E
  Triple-pure a q = record { at = λ db h. q db.tables h }

  pub Triple-raise : (e : StoreError) → ((t : Tables) → P t → E e t) → Triple P (raise e) Q E
  Triple-raise e q = record { at = λ db h. q db.tables h }

  -- A statement succeeds, or fails and changes nothing.
  pub Triple-statement :
      (a : Tables → A) (f : Tables → Tables)
      → ((t : Tables) → P t → Q (a t) (f t))
      → ((t : Tables) → P t → E failed t)
      → Triple P (statement a f) Q E
  unfolding statement
  Triple-statement a f q e = record { at = λ db h. run_with-Outcome P Q E a f db.faults db q e h }

  pub Triple-if :
      (b : Bool) (m n : Action A)
      → (b ≡ true → Triple P m Q E)
      → (b ≡ false → Triple P n Q E)
      → Triple P (if b then m else n) Q E
  Triple-if true m n tm tn = tm refl
  Triple-if false m n tm tn = tn refl

module _ {A B : Type 0} {P : Tables → Type 0} {R : A → Tables → Type 0} {Q : B → Tables → Type 0}
    {E : StoreError → Tables → Type 0} where
  pub Triple-bind :
      (m : Action A) (f : A → Action B)
      → Triple P m R E
      → ((a : A) → Triple (R a) (f a) Q E)
      → Triple P (m >>= f) Q E
  unfolding ◌>>=◌
  Triple-bind m f tm tf = record {
    at = λ db h. let (r, db') = m db in continue-Outcome R Q E r f db' tf (tm.at db h);
  }

-- A query on known tables: what follows runs on its answer, and on the same tables.
pub Triple-query :
    {A B : Type 0} {Q : B → Tables → Type 0} {E : StoreError → Tables → Type 0} (t : Tables)
    (a : Tables → A) (f : A → Action B)
    → E failed t
    → Triple (λ u. u ≡ t) (f (a t)) Q E
    → Triple (λ u. u ≡ t) (query a >>= f) Q E
Triple-query {A = A} {Q = Q} {E = E} t a f e tf =
    Triple-bind {R = λ b u. (b ≡ a t) × (u ≡ t)} (query a) f
      (Triple-statement a (λ u. u) (λ u h. (ap a h, h)) (λ u h. rw h e))
      λ b. record { at = λ db h. answered b db h.0 (tf.at db h.1) }
  where
    answered :
        (b : A) (db : Db)
        → b ≡ a t
        → Outcome Q E (f (a t) db).0 (f (a t) db).1.tables
        → Outcome Q E (f b db).0 (f b db).1.tables
    answered b db h o = rw h o

-- Weaker postconditions.
pub Triple-imp :
    {A : Type 0} {P : Tables → Type 0} {Q R : A → Tables → Type 0}
    {E F : StoreError → Tables → Type 0} {m : Action A}
    → ((a : A) (u : Tables) → Q a u → R a u)
    → ((e : StoreError) (u : Tables) → E e u → F e u)
    → Triple P m Q E
    → Triple P m R F
Triple-imp {A = A} {Q = Q} {R = R} {E = E} {F = F} {m = m} qr ef tm = record {
  at = λ db h. weaker (m db).0 (m db).1.tables (tm.at db h);
}
  where
    weaker : (r : Result A) (u : Tables) → Outcome Q E r u → Outcome R F r u
    weaker (ok a) u o = qr a u o
    weaker (err e) u o = ef e u o

-- What is kept is met before and after, and the other way round.
module _ {A : Type 0} {P : Tables → Type 0} (m : Action A) where
  pub Triple-Keeps : Keeps P m → Triple P m (λ _. P) (λ _. P)
  Triple-Keeps km = record { at = λ db h. both (m db).0 (m db).1.tables (km.at db h) }
    where
      both : (r : Result A) (u : Tables) → P u → Outcome (λ _. P) (λ _. P) r u
      both (ok a) u h = h
      both (err e) u h = h

  pub Keeps-Triple : Triple P m (λ _. P) (λ _. P) → Keeps P m
  Keeps-Triple tm = record { at = λ db h. either (m db).0 (m db).1.tables (tm.at db h) }
    where
      either : (r : Result A) (u : Tables) → Outcome (λ _. P) (λ _. P) r u → P u
      either (ok a) u h = h
      either (err e) u h = h
