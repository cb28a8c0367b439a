-- ===== src/Prelude/Sorting.antt =====
-- Sorting by a key: `sort.Strings`, `sort.Slice` and `sort.SliceStable` with a `less` on a key,
-- and the ORDER BY of a query. Sorting is by insertion, which is stable; where equal keys belong
-- to equal elements every sorting algorithm gives this list.
use mathlib.Core.Path.{◌≡◌, refl, ap₂, subst}
use mathlib.Core.Logic.{inl, inr}
use mathlib.Core.Bool.{true, false}
use mathlib.Core.Option.{Option, none, some}
use mathlib.Core.List.{List, [], ◌∷◌}
use native.Mathlib.Omega.{arith}
use cluster_recorder.Prelude.Tests.{if◌then◌else◌, Bool-cases}
use cluster_recorder.Prelude.Lists.{All}
use cluster_recorder.Prelude.Order.{Order}

module _ {ℓ κ} {A : Type ℓ} {K : Type κ} ⦃o : Order K⦄ (key : A → K) where
  unfoldable pub insert_by : A → List A → List A
  insert_by x [] = x ∷ []
  insert_by x (y ∷ ys) = if o.lt (key y) (key x) then y ∷ insert_by x ys else x ∷ y ∷ ys

  unfoldable pub sort_by : List A → List A
  unfolding insert_by
  sort_by [] = []
  sort_by (x ∷ xs) = insert_by x (sort_by xs)

  -- The first element with the key.
  unfoldable pub find_by : K → List A → Option A
  find_by k [] = none
  find_by k (x ∷ xs) = if o.eq (key x) k then some x else find_by k xs

  -- Strictly ascending by key, so that no two elements share a key.
  abbrev pub Ascends : List A → Type κ
  Ascends [] = Unit
  Ascends (x ∷ xs) = All (λ y. o.lt (key x) (key y) ≡ true) xs × Ascends xs

  -- No two elements share a key.
  abbrev pub Distinct : List A → Type κ
  Distinct [] = Unit
  Distinct (x ∷ xs) = All (λ y. o.eq (key x) (key y) ≡ false) xs × Distinct xs

  -- Inserting changes the search for the new element's key only.
  pub find_by-insert_by :
      (k : K) (x : A) (xs : List A)
      → find_by k (insert_by x xs) ≡ (if o.eq (key x) k then some x else find_by k xs)
  unfolding insert_by find_by
  find_by-insert_by k x [] = refl
  find_by-insert_by k x (y ∷ ys) =
      ground (arith, find_by-insert_by k x ys, o.eq_iff (key x) k, o.eq_iff (key y) k, o.irrefl k)

  -- Sorting does not change which element a key finds.
  pub find_by-sort_by : (k : K) (xs : List A) → find_by k (sort_by xs) ≡ find_by k xs
  unfolding sort_by find_by
  find_by-sort_by k [] = refl
  find_by-sort_by k (x ∷ xs) =
      ground (arith, find_by-insert_by k x (sort_by xs), find_by-sort_by k xs)

  pub All-insert_by {μ} :
      (P : A → Type μ) (x : A) (xs : List A) → P x → All P xs → All P (insert_by x xs)
  unfolding insert_by
  All-insert_by P x [] h hs = (h, hs)
  All-insert_by P x (y ∷ ys) h hs = ground (arith, All-insert_by P x ys h hs.1)

  pub All-sort_by {μ} : (P : A → Type μ) (xs : List A) → All P xs → All P (sort_by xs)
  unfolding sort_by
  All-sort_by P [] h = h
  All-sort_by P (x ∷ xs) h = All-insert_by P x (sort_by xs) h.0 (All-sort_by P xs h.1)

  All-lt_trans :
      (x y : A) (ys : List A)
      → o.lt (key x) (key y) ≡ true
      → All (λ z. o.lt (key y) (key z) ≡ true) ys
      → All (λ z. o.lt (key x) (key z) ≡ true) ys
  All-lt_trans x y [] h hs = tt
  All-lt_trans x y (z ∷ zs) h hs =
      (o.trans (key x) (key y) (key z) h hs.0, All-lt_trans x y zs h hs.1)

  lt_of_ne : (a b : K) → o.eq a b ≡ false → o.lt b a ≡ false → o.lt a b ≡ true
  lt_of_ne a b ne nlt = ground (arith, o.total a b, o.eq_iff a b)

  insert_by-Ascends :
      (x : A) (xs : List A)
      → All (λ y. o.eq (key x) (key y) ≡ false) xs
      → Ascends xs
      → Ascends (insert_by x xs)
  unfolding insert_by
  insert_by-Ascends x [] h s = (tt, tt)
  insert_by-Ascends x (y ∷ ys) h s = elim (Bool-cases (o.lt (key y) (key x))) [
    | inl after ↦ rw after (
      All-insert_by (λ z. o.lt (key y) (key z) ≡ true) x ys after s.0,
      insert_by-Ascends x ys h.1 s.1,
    )
    | inr before ↦
        let first = lt_of_ne (key x) (key y) h.0 before in
        rw before ((first, All-lt_trans x y ys first s.0), s)
  ]

  -- Sorting elements with different keys gives a strictly ascending list.
  pub sort_by-Ascends : (xs : List A) → Distinct xs → Ascends (sort_by xs)
  unfolding sort_by
  sort_by-Ascends [] d = tt
  sort_by-Ascends (x ∷ xs) d =
      insert_by-Ascends x (sort_by xs) (All-sort_by (λ y. o.eq (key x) (key y) ≡ false) xs d.0)
        (sort_by-Ascends xs d.1)

  find_by_below :
      (x : A) (ys : List A) → All (λ y. o.lt (key x) (key y) ≡ true) ys → find_by (key x) ys ≡ none
  unfolding find_by
  find_by_below x [] h = refl
  find_by_below x (y ∷ ys) h =
      ground (arith, find_by_below x ys h.1, o.eq_iff (key y) (key x), o.irrefl (key x))

  -- What is found has the key that was searched for, and all that holds of the list's elements.
  find_by-key : (k : K) (xs : List A) {z : A} → find_by k xs ≡ some z → key z ≡ k
  unfolding find_by
  find_by-key k [] h = absurd (cc)
  find_by-key k (x ∷ xs) {z} h = ground (arith, find_by-key k xs {z = z}, o.eq_iff (key x) k)

  pub find_by-All {μ} :
      (P : A → Type μ) (k : K) (xs : List A) {z : A} → All P xs → find_by k xs ≡ some z → P z
  unfolding find_by
  find_by-All P k [] hs h = absurd (cc)
  find_by-All P k (x ∷ xs) {z} hs h = elim (Bool-cases (o.eq (key x) k)) [
    | inl here ↦ let e : x ≡ z = ground arith in subst P e hs.0
    | inr there ↦ find_by-All P k xs hs.1 (ground arith)
  ]

  find_by-head : (x : A) (xs : List A) → find_by (key x) (x ∷ xs) ≡ some x
  unfolding find_by
  find_by-head x xs = rw ((o.eq_iff (key x) (key x)).1 refl)

  -- The heads of two ascending lists that find the same elements are one.
  heads_agree :
      (x y : A) (xs ys : List A)
      → Ascends (x ∷ xs)
      → Ascends (y ∷ ys)
      → ((k : K) → find_by k (x ∷ xs) ≡ find_by k (y ∷ ys))
      → x ≡ y
  unfolding find_by
  heads_agree x y xs ys sx sy h = elim (Bool-cases (o.eq (key y) (key x))) [
    | inl same ↦ ground (arith, h (key x), find_by-head x xs)
    | inr other ↦
        let x_later : find_by (key x) ys ≡ some x = ground (arith, h (key x), find_by-head x xs) in
        let y_later : find_by (key y) xs ≡ some y = ground (
          arith,
          h (key y),
          find_by-head y ys,
          o.eq_iff (key x) (key y),
          o.eq_iff (key y) (key x),
        ) in
        let y_lt_x = find_by-All (λ z. o.lt (key y) (key z) ≡ true) (key x) ys sy.0 x_later in
        let x_lt_y = find_by-All (λ z. o.lt (key x) (key z) ≡ true) (key y) xs sx.0 y_later in
        absurd (ground (arith, o.trans (key x) (key y) (key x), o.irrefl (key x)))
  ]

  -- An ascending list is determined by what it finds.
  pub Ascends-ext :
      (xs ys : List A) → Ascends xs → Ascends ys → ((k : K) → find_by k xs ≡ find_by k ys) → xs ≡ ys
  unfolding find_by
  Ascends-ext [] [] sx sy h = refl
  Ascends-ext [] (y ∷ ys) sx sy h = absurd (cc (h (key y), find_by-head y ys))
  Ascends-ext (x ∷ xs) [] sx sy h = absurd (cc (h (key x), find_by-head x xs))
  Ascends-ext (x ∷ xs) (y ∷ ys) sx sy h =
      let e = heads_agree x y xs ys sx sy h in
      ap₂ ◌∷◌ e (
        Ascends-ext xs ys sx.1 sy.1 λ k. ground (
          arith,
          h k,
          o.eq_iff (key x) k,
          o.eq_iff (key y) k,
          find_by_below x xs sx.0,
          find_by_below y ys sy.0,
        ))
