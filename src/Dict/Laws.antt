-- ===== src/Dict/Laws.antt =====
-- The laws of maps, and how many entries a map has.
use cluster_recorder.Prelude.{
  suc, ◌≤◌, String, ◌≡◌, refl, true, false, none, some, [], ◌∷◌, arith, str_eq, eq_iff,
  if◌then◌else◌, All, length, Bool-cases, Option-cases, inl, inr,
}
use cluster_recorder.Dict.{Dict, get, put, remove, has, IsMap}

module _ {ℓ} {V : Type ℓ} where
  pub get-put :
      (m : Dict V) (k j : String) (v : V)
      → get (put m k v) j ≡ (if str_eq k j then some v else get m j)
  unfolding get put
  get-put [] k j v = refl
  get-put ((i, w) ∷ m) k j v = ground (arith, get-put m k j v, eq_iff i k, eq_iff i j, eq_iff k j)

  All-put :
      (P : String → Type 0) (m : Dict V) (k : String) (v : V)
      → P k
      → All (λ (e : String × V). P e.0) m
      → All (λ (e : String × V). P e.0) (put m k v)
  unfolding put
  All-put P [] k v h hs = (h, tt)
  All-put P ((j, w) ∷ m) k v h hs = ground (arith, All-put P m k v h hs.1)

  -- What holds of all values, and of a value that is put.
  pub put-All {μ} :
      (P : V → Type μ) (m : Dict V) (k : String) (v : V)
      → P v
      → All (λ (e : String × V). P e.1) m
      → All (λ (e : String × V). P e.1) (put m k v)
  unfolding put
  put-All P [] k v h hs = (h, tt)
  put-All P ((j, w) ∷ m) k v h hs = elim (Bool-cases (str_eq j k)) [
    | inl same ↦ rw same (h, hs.1)
    | inr other ↦ rw other (hs.0, put-All P m k v h hs.1)
  ]

  pub put-IsMap : (m : Dict V) (k : String) (v : V) → IsMap m → IsMap (put m k v)
  unfolding put
  put-IsMap [] k v d = (tt, tt)
  put-IsMap ((j, w) ∷ m) k v d =
      ground (arith, put-IsMap m k v d.1, All-put (λ i. str_eq j i ≡ false) m k v)

  get-remove_ne : (m : Dict V) (k j : String) → str_eq k j ≡ false → get (remove m k) j ≡ get m j
  unfolding get remove
  get-remove_ne [] k j h = refl
  get-remove_ne ((i, w) ∷ m) k j h =
      ground (arith, get-remove_ne m k j, eq_iff i k, eq_iff i j, eq_iff k j)

  length-remove : (m : Dict V) (k : String) → has m k ≡ true → suc (length (remove m k)) ≡ length m
  unfolding get remove
  length-remove [] k h = absurd (cc)
  length-remove ((i, w) ∷ m) k h = ground (arith, length-remove m k)

  -- A key of an entry is not found in a map whose keys all differ from it.
  pub get_fresh :
      (m : Dict V) (k : String) → All (λ (e : String × V). str_eq k e.0 ≡ false) m → get m k ≡ none
  unfolding get
  get_fresh [] k h = refl
  get_fresh ((i, w) ∷ m) k h = ground (arith, get_fresh m k, eq_iff i k, eq_iff k i)

  pub fresh_of_get :
      (m : Dict V) (k : String) → get m k ≡ none → All (λ (e : String × V). str_eq k e.0 ≡ false) m
  unfolding get
  fresh_of_get [] k h = tt
  fresh_of_get ((i, w) ∷ m) k h = ground (arith, fresh_of_get m k, eq_iff i k, eq_iff k i)

  has-head : (j : String) (v : V) (m : Dict V) → has ((j, v) ∷ m) j ≡ true
  unfolding get
  has-head j v m = ground (arith, eq_iff j j)

  has-tail : (j k : String) (v : V) (m : Dict V) → has m k ≡ true → has ((j, v) ∷ m) k ≡ true
  unfolding get
  has-tail j k v m h = ground arith

module _ {ℓ κ} {V : Type ℓ} {W : Type κ} where
  -- Every key of `a` is a key of `b`.
  abbrev pub Within : Dict V → Dict W → Type 0
  Within a b = (k : String) → has a k ≡ true → has b k ≡ true

  -- Removing a key from `b` that `a` does not have.
  Within-remove :
      (j : String) (a : Dict V) (b : Dict W)
      → All (λ (e : String × V). str_eq j e.0 ≡ false) a
      → Within a b
      → Within a (remove b j)
  Within-remove j a b fresh w k h = elim (Bool-cases (str_eq j k)) [
    | inl same ↦ absurd (ground (arith, eq_iff j k, get_fresh a j fresh))
    | inr other ↦ rw (get-remove_ne b j k other) (w k h)
  ]

  -- A map has at most as many entries as any that has all its keys.
  pub length-le_of_Within : (a : Dict V) (b : Dict W) → IsMap a → Within a b → length a ≤ length b
  length-le_of_Within [] b d w = omega arith
  length-le_of_Within ((j, v) ∷ a) b d w = omega (
    arith,
    length-remove b j (w j (has-head j v a)),
    length-le_of_Within a (remove b j) d.1
        (Within-remove j a b d.0 (λ k h. w k (has-tail j k v a h))),
  )

  -- Two maps with as many entries have the same keys if one's are among the other's.
  pub Within-symm :
      (a : Dict V) (b : Dict W)
      → IsMap a
      → length a ≡ length b
      → Within a b
      → (k : String) → has b k ≡ true
      → has a k ≡ true
  Within-symm a b d e w k h = elim (Option-cases (get a k)) [
    | inr (v, e) ↦ rw e
    | inl missing ↦ absurd (
        omega (
          arith,
          length-remove b k h,
          length-le_of_Within a (remove b k) d (Within-remove k a b (fresh_of_get a k missing) w),
        ))
  ]
