-- ===== src/Store/Halts.antt =====
-- An action stops at the first of its statements that fails.
use cluster_recorder.Prelude.{
  ◌≡◌, refl, sym, ap, ◌∙◌, Bool, true, false, ◌||◌, List, [], ◌∷◌, ◌++◌, any, arith, Bool-cases,
  inl, inr,
}
use cluster_recorder.Store.Tables.{Tables}
use cluster_recorder.Store.Db.{
  failed, Result, ok, err, Db, Action, pure, run_with, statement, query, continue, ◌>>=◌, Keeps,
  Keeps-pure, Keeps-query, Keeps-bind,
}

abbrev pub has_failure : List Bool → Bool
has_failure = any (λ b. b)

-- The outcomes of the statements that have run come first; if one of them is a failure, so is the result.
abbrev pub Stopped : {A : Type 0} → A → List Bool → A → List Bool → Type 0
Stopped r fs failure rest =
    (ran : List Bool) × (fs ≡ ran ++ rest) × (has_failure ran ≡ true → r ≡ failure)

pub record Halts {A : Type 0} (m : Action A) : Type 0 where
  pub at : (db : Db) → Stopped (m db).0 db.faults (err failed) (m db).1.faults

any-append : (xs ys : List Bool) → has_failure (xs ++ ys) ≡ (has_failure xs || has_failure ys)
any-append [] ys = refl
any-append (x ∷ xs) ys = ground (arith, any-append xs ys)

append_assoc : (xs ys zs : List Bool) → (xs ++ ys) ++ zs ≡ xs ++ (ys ++ zs)
append_assoc [] ys zs = refl
append_assoc (x ∷ xs) ys zs = ap (λ ws. x ∷ ws) (append_assoc xs ys zs)

-- One action after another that has not failed.
pub Stopped-append :
    {A B : Type 0} (fs gs hs : List Bool) (r failure : A) (q failure' : B)
    → (r ≡ failure → q ≡ failure')
    → Stopped r fs failure gs
    → Stopped q gs failure' hs
    → Stopped q fs failure' hs
Stopped-append fs gs hs r failure q failure' on (ran, e, h) (ran', e', h') = (
  ran ++ ran',
  e ∙ ap (λ ws. ran ++ ws) e' ∙ sym (append_assoc ran ran' hs),
  λ some_failed. elim (Bool-cases (has_failure ran)) [
    | inl first ↦ on (h first)
    | inr not_first ↦ h' (ground (arith, any-append ran ran'))
  ],
)

module _ {A : Type 0} where
  pub Halts-pure : (a : A) → Halts (pure a)
  Halts-pure a = record { at = λ db. ([], refl, λ h. absurd (cc)) }

  run_with-Stopped :
      (a : Tables → A) (f : Tables → Tables) (fs : List Bool) (db : Db)
      → db.faults ≡ fs
      → Stopped (run_with a f fs db).0 fs (err failed) (run_with a f fs db).1.faults
  run_with-Stopped a f [] db e = ([], sym e, λ h. absurd (cc))
  run_with-Stopped a f (false ∷ fs) db e = (false ∷ [], refl, λ h. absurd (cc))
  run_with-Stopped a f (true ∷ fs) db e = (true ∷ [], refl, λ h. refl)

  pub Halts-statement : (a : Tables → A) (f : Tables → Tables) → Halts (statement a f)
  unfolding statement
  Halts-statement a f = record { at = λ db. run_with-Stopped a f db.faults db refl }

module _ {A B : Type 0} where
  continue-Stopped :
      (fs : List Bool) (r : Result A) (db : Db) (f : A → Action B)
      → Stopped r fs (err failed) db.faults
      → ((a : A) → Halts (f a))
      → Stopped (continue r f db).0 fs (err failed) (continue r f db).1.faults
  continue-Stopped fs (ok a) db f s h =
      Stopped-append fs db.faults _ (ok a) (err failed) _ (err failed) (λ e. absurd (cc)) s
        ((h a).at db)
  continue-Stopped fs (err e) db f (ran, eq, h) k =
      (ran, eq, λ some_failed. let same : e ≡ failed = cc (h some_failed) in ap (λ x. err x) same)

  pub Halts-bind :
      (m : Action A) (f : A → Action B) → Halts m → ((a : A) → Halts (f a)) → Halts (m >>= f)
  unfolding ◌>>=◌
  Halts-bind m f hm hf = record {
    at = λ db. let (r, db') = m db in continue-Stopped db.faults r db' f (hm.at db) hf;
  }

-- An action that keeps `P` and stops at a failure.
pub record Runs {A : Type 0} (P : Tables → Type 0) (m : Action A) : Type 0 where
  pub keeps : Keeps P m
  pub halts : Halts m

module _ {P : Tables → Type 0} where
  pub Runs-pure : {A : Type 0} (a : A) → Runs P (pure a)
  Runs-pure a = record { keeps = Keeps-pure a; halts = Halts-pure a }

  pub Runs-query : {A : Type 0} (a : Tables → A) → Runs P (query a)
  Runs-query a = record { keeps = Keeps-query a; halts = Halts-statement a (λ t. t) }

  pub Runs-bind :
      {A B : Type 0} (m : Action A) (f : A → Action B)
      → Runs P m
      → ((a : A) → Runs P (f a))
      → Runs P (m >>= f)
  Runs-bind m f rm rf = record {
    keeps = Keeps-bind m f rm.keeps (λ a. (rf a).keeps);
    halts = Halts-bind m f rm.halts (λ a. (rf a).halts);
  }
