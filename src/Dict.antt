-- ===== src/Dict.antt =====
-- Go's `map[string]V`, as the list of its entries in the order in which a `range` visits them. Go
-- leaves that order open, so nothing is assumed of it; `IsMap` says that no key stands twice.
pub mod Laws
use cluster_recorder.Prelude.{
  String, Bool, Option, none, some, List, [], ◌∷◌, str_eq, is_some, if◌then◌else◌,
}
use cluster_recorder.Prelude.Order.{text_order}
use cluster_recorder.Prelude.Sorting.{Distinct}

abbrev pub Dict {ℓ} : Type ℓ → Type ℓ
Dict V = List (String × V)

module _ {ℓ} {V : Type ℓ} where
  -- m[k]
  unfoldable pub get : Dict V → String → Option V
  get [] k = none
  get ((j, v) ∷ m) k = if str_eq j k then some v else get m k

  -- m[k] = v
  unfoldable pub put : Dict V → String → V → Dict V
  put [] k v = (k, v) ∷ []
  put ((j, w) ∷ m) k v = if str_eq j k then (j, v) ∷ m else (j, w) ∷ put m k v

  -- delete(m, k)
  unfoldable pub remove : Dict V → String → Dict V
  remove [] k = []
  remove ((j, w) ∷ m) k = if str_eq j k then m else (j, w) ∷ remove m k

  abbrev pub has : Dict V → String → Bool
  has m k = is_some (get m k)

  abbrev pub IsMap : Dict V → Type 0
  IsMap = Distinct (λ e. e.0)
