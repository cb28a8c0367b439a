-- ===== src/Store/Db.antt =====
-- How the methods of `store.DB` run: one SQL statement after the other, each of which may fail.
-- What SQLite answers is not under the program's control, so the database carries the outcomes of
-- the statements to come: `true` is a failure, and when the list has run out nothing fails.
use cluster_recorder.Prelude.{ℕ, ◌≡◌, refl, Bool, true, false, List, [], ◌∷◌}
use cluster_recorder.Store.Tables.{Tables}

pub data StoreError : Type 0 where
  failed : StoreError
  -- "database over cap (%d > %d bytes) with nothing left to drop"
  over_cap : ℕ → ℕ → StoreError

pub data Result {ℓ} (A : Type ℓ) : Type ℓ where
  ok : A → Result A
  err : StoreError → Result A

pub record Db : Type 0 where
  pub tables : Tables
  pub faults : List Bool

abbrev pub Action {ℓ} : Type ℓ → Type ℓ
Action A = Db → Result A × Db

module _ {ℓ} {A : Type ℓ} where
  abbrev pub pure : A → Action A
  pure a db = (ok a, db)

  abbrev pub raise : StoreError → Action A
  raise e db = (err e, db)

  abbrev pub run_with : (Tables → A) → (Tables → Tables) → List Bool → Db → Result A × Db
  run_with a f [] db = (ok (a db.tables), record db { tables = f db.tables })
  run_with a f (false ∷ fs) db = (ok (a db.tables), record { tables = f db.tables; faults = fs })
  run_with a f (true ∷ fs) db = (err failed, record db { faults = fs })

  -- A statement that answers `a` and changes the tables by `f`.
  unfoldable pub statement : (Tables → A) → (Tables → Tables) → Action A
  statement a f db = run_with a f db.faults db

  -- A SELECT.
  abbrev pub query : (Tables → A) → Action A
  query a = statement a (λ t. t)

-- ExecContext, where only the error is looked at.
abbrev pub exec : (Tables → Tables) → Action (Unit {0})
exec f = statement (λ t. tt) f

module _ {ℓ κ} {A : Type ℓ} {B : Type κ} where
  abbrev pub continue : Result A → (A → Action B) → Action B
  continue (ok a) f db = f a db
  continue (err e) f db = (err e, db)

  infixl 5 ◌>>=◌
  unfoldable pub ◌>>=◌ : Action A → (A → Action B) → Action B
  ◌>>=◌ m f db = let (r, db') = m db in continue r f db'

infixl 5 ◌>>◌
abbrev pub ◌>>◌ {ℓ} : {B : Type ℓ} → Action (Unit {0}) → Action B → Action B
m >> n = m >>= λ _. n

-- A database whose next statements all succeed.
abbrev pub healthy : Tables → Db
healthy t = record { tables = t; faults = [] }

module _ {ℓ} {A : Type ℓ} where
  pub statement-healthy :
      (a : Tables → A) (f : Tables → Tables) (t : Tables)
      → statement a f (healthy t) ≡ (ok (a t), healthy (f t))
  unfolding statement
  statement-healthy a f t = refl

-- `m` keeps `P` of the tables, whichever statements fail.
pub record Keeps {ℓ} {A : Type ℓ} (P : Tables → Type ℓ) (m : Action A) : Type ℓ where
  pub at : (db : Db) → P db.tables → P (m db).1.tables

module _ {ℓ} {A : Type ℓ} {P : Tables → Type ℓ} where
  pub Keeps-pure : (a : A) → Keeps P (pure a)
  Keeps-pure a = record { at = λ db h. h }

  pub Keeps-raise : (e : StoreError) → Keeps P (raise {A = A} e)
  Keeps-raise e = record { at = λ db h. h }

  run_with-Keeps :
      (a : Tables → A) (f : Tables → Tables) (fs : List Bool) (db : Db)
      → ((t : Tables) → P t → P (f t))
      → P db.tables
      → P (run_with a f fs db).1.tables
  run_with-Keeps a f [] db k h = k db.tables h
  run_with-Keeps a f (false ∷ fs) db k h = k db.tables h
  run_with-Keeps a f (true ∷ fs) db k h = h

  pub Keeps-statement :
      (a : Tables → A) (f : Tables → Tables)
      → ((t : Tables) → P t → P (f t))
      → Keeps P (statement a f)
  unfolding statement
  Keeps-statement a f k = record { at = λ db h. run_with-Keeps a f db.faults db k h }

  pub Keeps-query : (a : Tables → A) → Keeps P (query a)
  Keeps-query a = Keeps-statement a (λ t. t) (λ t h. h)

module _ {ℓ} {A B : Type ℓ} {P : Tables → Type ℓ} where
  continue-Keeps :
      (r : Result A) (f : A → Action B) (db : Db)
      → ((a : A) → Keeps P (f a))
      → P db.tables
      → P (continue r f db).1.tables
  continue-Keeps (ok a) f db k h = (k a).at db h
  continue-Keeps (err e) f db k h = h

  pub Keeps-bind :
      (m : Action A) (f : A → Action B) → Keeps P m → ((a : A) → Keeps P (f a)) → Keeps P (m >>= f)
  unfolding ◌>>=◌
  Keeps-bind m f km kf = record {
    at = λ db h. let (r, db') = m db in continue-Keeps r f db' kf (km.at db h);
  }

pub ruleset keeps_rules = (Keeps-pure, Keeps-raise, Keeps-query, Keeps-bind)
