-- ===== src/Prelude/Ordering.antt =====
-- Sorted lists are in order, and have the elements of what was sorted.
use Prim.Native.Nat.{ℕ, zero, suc}
use mathlib.Core.Path.{◌≡◌, refl}
use mathlib.Core.Logic.{inl, inr}
use mathlib.Core.Bool.{Bool, false}
use mathlib.Core.List.{List, [], ◌∷◌, ◌++◌, map}
use native.Mathlib.Omega.{arith}
use cluster_recorder.Prelude.Tests.{Bool-cases}
use cluster_recorder.Prelude.Lists.{All, length, select, take, All-select, All-take, All-append}
use cluster_recorder.Prelude.Order.{Order}
use cluster_recorder.Prelude.Sorting.{insert_by, sort_by, Distinct, All-insert_by}

module _ {ℓ κ} {A : Type ℓ} {K : Type κ} ⦃o : Order K⦄ (key : A → K) where
  -- Ascending by key; equal keys may follow one another.
  abbrev pub Ordered : List A → Type 0
  Ordered [] = Unit
  Ordered (x ∷ xs) = All (λ y. o.lt (key y) (key x) ≡ false) xs × Ordered xs

  not_lt_of_le :
      (x y : A) (zs : List A)
      → o.lt (key y) (key x) ≡ false
      → All (λ z. o.lt (key z) (key y) ≡ false) zs
      → All (λ z. o.lt (key z) (key x) ≡ false) zs
  not_lt_of_le x y [] h hs = tt
  not_lt_of_le x y (z ∷ zs) h hs = (
    ground (arith, o.trans (key z) (key x) (key y), o.total (key x) (key y)),
    not_lt_of_le x y zs h hs.1,
  )

  insert_by-Ordered : (x : A) (xs : List A) → Ordered xs → Ordered (insert_by key x xs)
  unfolding insert_by
  insert_by-Ordered x [] s = (tt, tt)
  insert_by-Ordered x (y ∷ ys) s = elim (Bool-cases (o.lt (key y) (key x))) [
    | inl after ↦
        rw (after, Ordered)
          (
            All-insert_by key (λ z. o.lt (key z) (key y) ≡ false) x ys
                (ground (arith, o.trans (key x) (key y) (key x), o.irrefl (key x))) s.0,
            insert_by-Ordered x ys s.1,
          )
    | inr before ↦ rw (before, Ordered) ((before, not_lt_of_le x y ys before s.0), s)
  ]

  pub sort_by-Ordered : (xs : List A) → Ordered (sort_by key xs)
  unfolding sort_by
  sort_by-Ordered [] = tt
  sort_by-Ordered (x ∷ xs) = insert_by-Ordered x (sort_by key xs) (sort_by-Ordered xs)

  All-of_insert_by {μ} :
      (P : A → Type μ) (x : A) (xs : List A) → All P (insert_by key x xs) → P x × All P xs
  unfolding insert_by
  All-of_insert_by P x [] h = h
  All-of_insert_by P x (y ∷ ys) h = elim (Bool-cases (o.lt (key y) (key x))) [
    | inl after ↦ let r = rw after at h in let s = All-of_insert_by P x ys r.1 in (s.0, (r.0, s.1))
    | inr before ↦ rw before at h
  ]

  pub All-of_sort_by {μ} : (P : A → Type μ) (xs : List A) → All P (sort_by key xs) → All P xs
  unfolding sort_by
  All-of_sort_by P [] h = h
  All-of_sort_by P (x ∷ xs) h =
      let s = All-of_insert_by P x (sort_by key xs) h in (s.0, All-of_sort_by P xs s.1)

  length-insert_by : (x : A) (xs : List A) → length (insert_by key x xs) ≡ suc (length xs)
  unfolding insert_by
  length-insert_by x [] = refl
  length-insert_by x (y ∷ ys) = ground (arith, length-insert_by x ys)

  pub length-sort_by : (xs : List A) → length (sort_by key xs) ≡ length xs
  unfolding sort_by
  length-sort_by [] = refl
  length-sort_by (x ∷ xs) = omega (arith, length-insert_by x (sort_by key xs), length-sort_by xs)

  pub Distinct-select : (p : A → Bool) (xs : List A) → Distinct key xs → Distinct key (select p xs)
  Distinct-select p [] d = tt
  Distinct-select p (x ∷ xs) d =
      ground
        (arith, Distinct-select p xs d.1, All-select (λ y. o.eq (key x) (key y) ≡ false) p xs d.0)

  pub Distinct-append :
      (xs : List A) (r : A)
      → Distinct key xs
      → All (λ y. o.eq (key y) (key r) ≡ false) xs
      → Distinct key (xs ++ r ∷ [])
  Distinct-append [] r d h = (tt, tt)
  Distinct-append (x ∷ xs) r d h = (
    All-append (λ y. o.eq (key x) (key y) ≡ false) xs (r ∷ []) d.0 (h.0, tt),
    Distinct-append xs r d.1 h.1,
  )

  pub Ordered-take : (n : ℕ) (xs : List A) → Ordered xs → Ordered (take n xs)
  Ordered-take zero xs h = tt
  Ordered-take (suc n) [] h = tt
  Ordered-take (suc n) (x ∷ xs) h =
      (All-take (λ y. o.lt (key y) (key x) ≡ false) n xs h.0, Ordered-take n xs h.1)

  All-map_key :
      (P : K → Type 0) (f : A → A)
      → ((x : A) → key (f x) ≡ key x)
      → (xs : List A) → All (λ x. P (key x)) xs
      → All (λ x. P (key x)) (map f xs)
  All-map_key P f same [] h = tt
  All-map_key P f same (x ∷ xs) h = (rw (same x) h.0, All-map_key P f same xs h.1)

  -- A change of the elements that leaves their keys alone.
  pub Distinct-map :
      (f : A → A)
      → ((x : A) → key (f x) ≡ key x)
      → (xs : List A) → Distinct key xs
      → Distinct key (map f xs)
  Distinct-map f same [] d = tt
  Distinct-map f same (x ∷ xs) d = (
    rw (same x) (All-map_key (λ k. o.eq (key x) k ≡ false) f same xs d.0),
    Distinct-map f same xs d.1,
  )
