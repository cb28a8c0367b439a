-- ===== src/Prelude/Permuting.antt =====
-- Sorting permutes.
use mathlib.Core.Path.{◌≡◌, refl, subst}
use mathlib.Core.Logic.{inl, inr}
use mathlib.Core.List.{List, [], ◌∷◌, ◌++◌, map, Permᴰ}
use mathlib.Core.List.Permᴰ
use mathlib.Core.List.Permᴰ.{nil, cons, swap, trans, refl as same}
use cluster_recorder.Prelude.Tests.{Bool-cases}
use cluster_recorder.Prelude.Order.{Order}
use cluster_recorder.Prelude.Sorting.{insert_by, sort_by}

module _ {κ} {A : Type 0} {K : Type κ} ⦃o : Order K⦄ (key : A → K) where
  insert_by-Permᴰ : (x : A) (xs : List A) → Permᴰ (insert_by key x xs) (x ∷ xs)
  unfolding insert_by
  insert_by-Permᴰ x [] = cons refl nil
  insert_by-Permᴰ x (y ∷ ys) = elim (Bool-cases (o.lt (key y) (key x))) [
    | inl after ↦ rw after (trans (cons refl (insert_by-Permᴰ x ys)) (swap refl refl))
    | inr before ↦ rw before (same (x ∷ y ∷ ys))
  ]

  pub sort_by-Permᴰ : (xs : List A) → Permᴰ (sort_by key xs) xs
  unfolding sort_by
  sort_by-Permᴰ [] = nil
  sort_by-Permᴰ (x ∷ xs) = trans (insert_by-Permᴰ x (sort_by key xs)) (cons refl (sort_by-Permᴰ xs))

  -- What is made, in two steps, of each element of a sorted list.
  pub made-Permᴰ :
      {B C : Type 0} (f : A → B) (g : B → C) (h : A → C) (xs : List A)
      → ((x : A) → g (f x) ≡ h x)
      → Permᴰ (map g (map f (sort_by key xs))) (map h xs)
  made-Permᴰ {C = C} f g h xs e =
      subst (λ (ys : List C). Permᴰ (map g (map f (sort_by key xs))) ys) (fused xs)
        (Permᴰ.map g (Permᴰ.map f (sort_by-Permᴰ xs)))
    where
      fused : (ys : List A) → map g (map f ys) ≡ map h ys
      fused [] = refl
      fused (y ∷ ys) = rw (e y, fused ys) refl

-- Parts that are permuted, side by side.
pub beside :
    {A : Type 0} {xs ys zs ws : List A} → Permᴰ xs ys → Permᴰ zs ws → Permᴰ (xs ++ zs) (ys ++ ws)
beside {ys = ys} {zs = zs} p q = trans (Permᴰ.append_right zs p) (Permᴰ.append_left ys q)
